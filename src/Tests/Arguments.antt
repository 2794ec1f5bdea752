-- ===== src/Tests/Arguments.antt =====
-- The arguments of calls that metadata describes (aliyun-openapi-runtime) at concrete parameters, and the
-- pages of an answer.
use aliyun_cli.Base.{
  ◌-◌, ◌*◌, min, suc, zero, arith, ◌+◌, ℕ, Text, txt, text_eq, cut, split, join, trim_space, Bool,
  true, false, ltb, ◌≡◌, refl, sym, ◌∙◌, ◌≢◌, Option, some, [], ◌∷◌, ℤ, pos, negsuc, if◌then◌else◌,
  ok, err,
}
use aliyun_cli.Runtime.{
  count, append, Value, nil, text, number, float, array, object, Values, no_values, value_cons,
  Members, no_members, member_cons, string, integer, Info, query, Parameter, parameter, scalar,
  object_of, array_of, item, Fields, no_fields, field_cons, present, get, put,
}
use aliyun_cli.Runtime.Argparser.{
  unknown_field, Library, Decoded, not_json, decoded, resolve_names, looks_numeric, coerce_scalar,
}
use aliyun_cli.Runtime.Argparser.Typed.{HasType}
use aliyun_cli.Runtime.Argparser.KeyPath.{parse_kv_pairs}
use aliyun_cli.Runtime.Argparser.Assign.{assign, try_flag_json, no_json, json_value}
use aliyun_cli.Runtime.Argparser.Assign.Typed.{assign-HasType, resolve_names-HasType}
use aliyun_cli.Runtime.Constraints as Constraints
use aliyun_cli.Runtime.Constraints.{
  validate_constraints, maximum_constraint, index_step, field_step,
}
use aliyun_cli.Runtime.Required.{validate_required, validate_doc_required}
use aliyun_cli.Runtime.Serializer as Serializer
use aliyun_cli.Runtime.Serializer.{
  composite_element, flatten, serialize_query, serialize_form_parameter,
}
use aliyun_cli.Runtime.Pager as Pager
use aliyun_cli.Runtime.Pager.{Service, number_at, call_with_pager}
use aliyun_cli.Runtime.Pager.Pages.{Holds, IsPaged, path_config, call_with_pager_complete}

-- A decoder that knows one object and one array.
abbrev tags_json : Text
tags_json = txt "[1,2]"

abbrev two_numbers : Value
two_numbers = array (value_cons (number (txt "1")) (value_cons (number (txt "2")) no_values))

abbrev decode_known : Text → Decoded
decode_known s =
    if text_eq s tags_json
    then decoded two_numbers false
    else if text_eq s (txt "{\"Size\":7}")
    then decoded (object (member_cons (txt "Size") (number (txt "7")) no_members)) false
    else not_json

abbrev lib : Library
lib = record { parse_float = λ s. some s; format = λ v. txt "v"; decode = decode_known }

abbrev info_named : Text → Text → Info
info_named name maximum = record {
  name = name;
  raw_name = name;
  position = query;
  required = true;
  doc_required = true;
  enum = [];
  minimum = [];
  maximum = maximum;
  min_length = [];
  max_length = [];
  pattern = [];
  options = [];
}

abbrev size_parameter : Parameter
size_parameter = parameter (info_named (txt "Size") (txt "5")) (scalar integer)

abbrev name_parameter : Parameter
name_parameter = parameter (info_named (txt "Name") []) (scalar string)

abbrev disk_fields : Fields
disk_fields = field_cons size_parameter (field_cons name_parameter no_fields)

abbrev disk_parameter : Parameter
disk_parameter = parameter (info_named (txt "Disk") []) (object_of disk_fields)

abbrev sizes_parameter : Parameter
sizes_parameter = parameter (info_named (txt "Sizes") []) (array_of (item size_parameter))

numeric_words :
    (looks_numeric (txt "-1.5e3") ≡ true)
    × (looks_numeric (txt "1.2.3") ≡ false)
    × (looks_numeric (txt "-") ≡ true)
unfolding looks_numeric aliyun_cli.Runtime.Argparser.numeric_from
numeric_words = (refl, refl, refl)

pairs_to_object :
    parse_kv_pairs lib (txt "Size=7" ∷ txt "Name=x=y" ∷ []) disk_fields
    ≡ ok (
        member_cons
          (txt "Size")
          (number (txt "7"))
          (member_cons (txt "Name") (text (txt "x=y")) no_members))
unfolding parse_kv_pairs aliyun_cli.Runtime.Argparser.KeyPath.set_pairs cut
    aliyun_cli.Runtime.Argparser.KeyPath.set_schema_value
    aliyun_cli.Runtime.Argparser.KeyPath.parse_key_path aliyun_cli.Runtime.Argparser.find_field
    text_eq aliyun_cli.Runtime.Argparser.resolve_wire
    aliyun_cli.Runtime.Argparser.KeyPath.coerce_leaf coerce_scalar looks_numeric
    aliyun_cli.Runtime.Argparser.numeric_from put
pairs_to_object = refl

unknown_key :
    parse_kv_pairs lib (txt "Colour=red" ∷ []) disk_fields ≡ err (unknown_field (txt "Colour"))
unfolding parse_kv_pairs aliyun_cli.Runtime.Argparser.KeyPath.set_pairs cut
    aliyun_cli.Runtime.Argparser.KeyPath.set_schema_value
    aliyun_cli.Runtime.Argparser.KeyPath.parse_key_path aliyun_cli.Runtime.Argparser.find_field
    text_eq
unknown_key = refl

sizes_assigned :
    assign lib no_members sizes_parameter (tags_json ∷ [])
    ≡ ok (member_cons (txt "Sizes") two_numbers no_members)
unfolding assign aliyun_cli.Runtime.Argparser.resolve_wire
    aliyun_cli.Runtime.Argparser.Assign.array_result try_flag_json
    aliyun_cli.Runtime.Argparser.strip_outer_quotes trim_space join text_eq
    aliyun_cli.Runtime.Argparser.Assign.append_each
    aliyun_cli.Runtime.Argparser.Assign.resolve_array_item resolve_names coerce_scalar looks_numeric
    aliyun_cli.Runtime.Argparser.numeric_from put aliyun_cli.Runtime.append get
sizes_assigned = refl

sizes_are_read : try_flag_json lib (tags_json ∷ []) ≡ json_value two_numbers
unfolding try_flag_json aliyun_cli.Runtime.Argparser.strip_outer_quotes trim_space join text_eq
sizes_are_read = refl

sizes_are_json : try_flag_json lib (tags_json ∷ []) ≢ no_json
sizes_are_json e = let bad : json_value two_numbers ≡ no_json = sym sizes_are_read ∙ e in cc

none_before :
    (v : Value) → get no_members (txt "Sizes") ≡ present v → HasType (item sizes_parameter) v
unfolding get
none_before v e = cc

assign-HasType_example :
    (v : Value) × (get (member_cons (txt "Sizes") two_numbers no_members) (txt "Sizes") ≡ present v)
    × HasType (item sizes_parameter) v
assign-HasType_example =
    assign-HasType lib no_members (member_cons (txt "Sizes") two_numbers no_members) sizes_parameter
      (tags_json ∷ []) sizes_are_json none_before sizes_assigned

numbers_resolved : resolve_names lib (item sizes_parameter) two_numbers ≡ ok two_numbers
unfolding resolve_names coerce_scalar looks_numeric aliyun_cli.Runtime.Argparser.numeric_from
numbers_resolved = refl

resolve_names-HasType_example : HasType (item sizes_parameter) two_numbers
resolve_names-HasType_example =
    resolve_names-HasType lib (item sizes_parameter) two_numbers two_numbers numbers_resolved

-- Numbers of one digit are compared by the digit.
abbrev one_digit_less : Text → Text → Bool
one_digit_less (c ∷ []) (d ∷ []) = ltb c d
one_digit_less s t = false

abbrev checks : Constraints.Library
checks = record {
  is_rational = λ s. true;
  less = one_digit_less;
  compiles = λ s. true;
  matches = λ p s. true;
  print = λ v. [];
}

abbrev sizes_of : Text → Members
sizes_of second_size =
    member_cons (txt "Sizes")
      (array (value_cons (number (txt "1")) (value_cons (number second_size) no_values))) no_members

second_too_large :
    validate_constraints checks (sizes_parameter ∷ []) (sizes_of (txt "9")) false
    ≡ some (record {
      context = record {
        context_parameter = txt "Sizes";
        context_flag = txt "--Sizes";
        context_path = field_step (txt "Sizes") ∷ index_step 1 ∷ [];
      };
      constraint = maximum_constraint;
      actual = txt "9";
    })
unfolding validate_constraints get text_eq Constraints.check_value Constraints.check_elements
    Constraints.constraint_rat Constraints.check_minimum Constraints.check_maximum
    Constraints.flag_label Constraints.constraint_actual
second_too_large = refl

abbrev disk_of : Text → Members
disk_of name =
    member_cons (txt "Disk")
      (object (
        member_cons (txt "Name") (text name)
          (member_cons (txt "Size") (number (txt "1")) no_members)))
      no_members

name_is_missing :
    validate_doc_required (disk_parameter ∷ []) (disk_of []) false
    ≡ (txt "--Disk", field_step (txt "Disk") ∷ field_step (txt "Name") ∷ []) ∷ []
unfolding validate_doc_required aliyun_cli.Runtime.Required.report_value get text_eq
    Constraints.flag_label
name_is_missing = refl

disk_is_missing : validate_required (disk_parameter ∷ []) no_members false ≡ txt "--Disk" ∷ []
unfolding validate_required get Constraints.flag_label
disk_is_missing = refl

-- Numbers of one digit are printed as the digit.
abbrev texts : Serializer.Library
texts = record {
  marshal = λ v. some (txt "json");
  format_float = λ s. s;
  format = λ v. [];
  decimal = λ n. (n + 48) ∷ [];
}

disk_flattened :
    flatten texts (txt "Disks") (
      array (
        value_cons
          (text (txt "a"))
          (value_cons (object (member_cons (txt "Size") (number (txt "7")) no_members)) no_values)))
    ≡ (txt "Disks.1", txt "a") ∷ (txt "Disks.2.Size", txt "7") ∷ []
unfolding flatten Serializer.basic_string
disk_flattened = refl

numbers_joined :
    serialize_query texts (txt "Sizes") two_numbers false (txt "simple")
    ≡ ok ((txt "Sizes", txt "1,2") ∷ [])
unfolding serialize_query text_eq join Serializer.basic_strings Serializer.basic_string
numbers_joined = refl

form_refuses_nested :
    serialize_form_parameter texts (array (value_cons two_numbers no_values)) (txt "simple")
    ≡ err (composite_element 0)
unfolding serialize_form_parameter text_eq Serializer.simple_parts
form_refuses_nested = refl

-- Five items on three pages of two; a page is known by its number.
abbrev page_number : ℤ → Text
page_number (pos n) = n ∷ []
page_number (negsuc n) = []

abbrev page_at : ℕ → Value
page_at k = float (k ∷ [])

abbrev page_items : ℕ → Values
page_items zero = no_values
page_items (suc zero) = value_cons (text (txt "a")) (value_cons (text (txt "b")) no_values)
page_items (suc (suc zero)) = value_cons (text (txt "c")) (value_cons (text (txt "d")) no_values)
page_items (suc (suc (suc zero))) = value_cons (text (txt "e")) no_values
page_items (suc (suc (suc (suc k)))) = no_values

page_items-full : (k : ℕ) → count (page_items (suc k)) ≡ min 2 (5 - k * 2)
unfolding count
page_items-full zero = refl
page_items-full (suc zero) = refl
page_items-full (suc (suc zero)) = refl
page_items-full (suc (suc (suc k))) = omega arith

abbrev items_of_page : Value → Values
items_of_page (float (k ∷ s)) = page_items k
items_of_page v = no_values

abbrev search_page : Text → Value → Option Value
search_page expr v =
    if text_eq expr (txt "NextToken")
    then some nil
    else if text_eq expr (txt "TotalCount")
    then some (page_at 5)
    else if text_eq expr (txt "PageSize")
    then some (page_at 2)
    else if text_eq expr (txt "PageNumber")
    then some v
    else some (array (items_of_page v))

abbrev first_letter : Text → ℤ
first_letter [] = pos 0
first_letter (n ∷ s) = pos n

abbrev paging : Pager.Library
paging = record {
  decode = λ s. some (float s);
  search = search_page;
  int_of_float = first_letter;
  itoa = page_number;
}

abbrev numbered_pages : Service
numbered_pages [] = some (1 ∷ [])
numbered_pages ((key, v) ∷ q) = some v

numbered_pages-IsPaged :
    IsPaged paging numbered_pages (txt "Items") 2 5 (λ k. k ∷ []) page_at page_items
unfolding number_at text_eq Pager.as_int_value
numbered_pages-IsPaged = record {
  first_page = refl;
  numbered = λ k. refl;
  has_text = λ k. refl;
  decodes = λ k. refl;
  no_token = λ k. refl;
  says_total = λ k old. refl;
  says_size = λ k old. refl;
  says_number = λ k old. refl;
  has_items = λ k. refl;
  page_items = page_items-full;
}

abbrev all_items : Values
all_items = value_cons (text (txt "a")) (
    value_cons (text (txt "b")) (
      value_cons (text (txt "c"))
        (value_cons (text (txt "d")) (value_cons (text (txt "e")) no_values))))

all_pages :
    call_with_pager 3 paging numbered_pages (path_config (txt "Items")) []
    ≡ ok (object (member_cons (txt "Items") (array all_items) no_members), 3)
unfolding call_with_pager Pager.pager_loop Pager.feed_response Pager.merge Pager.read_counts
    Pager.read_token Pager.new_pager text_eq Pager.has_more number_at Pager.as_int_value
    Pager.ceil_div Pager.move_next_page Pager.set_query split Pager.get_response_collection append
all_pages = refl

call_with_pager_complete_example :
    ((root : Value) × (call_with_pager 3 paging numbered_pages (path_config (txt "Items")) []
        ≡ ok (root, 3))
      × Holds root all_items)
    × (count all_items ≡ 5)
unfolding append
call_with_pager_complete_example =
    call_with_pager_complete paging numbered_pages b'I' (txt "tems") 1 4 (λ k. k ∷ []) page_at
      page_items numbered_pages-IsPaged 2 (omega arith) (omega arith)
