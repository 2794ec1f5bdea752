-- ===== src/Runtime/Serializer.antt =====
-- aliyun-openapi-runtime/runtime/serializer.go: arguments as the flat keys and values of a request. The
-- encoding of JSON and the formatting of floats and of other values are parameters.
use aliyun_cli.Base.{
  ℕ, suc, Text, txt, text_eq, is_empty, join, Bool, true, false, ◌||◌, Option, none, some, List, [],
  ◌∷◌, ◌++◌, if◌then◌else◌, Res, ok, err, and_then,
}
use aliyun_cli.Runtime.{
  Value, nil, text, number, float, boolean, array, object, Values, no_values, value_cons, Members,
  no_members, member_cons,
}

pub record Library : Type 0 where
  -- `json.Marshal`
  pub marshal : Value → Option Text
  -- `strconv.FormatFloat` with the format `f`
  pub format_float : Text → Text
  -- `fmt.Sprintf("%v", v)`
  pub format : Value → Text
  -- `fmt.Sprintf("%d", n)`
  pub decimal : ℕ → Text

pub data SerializeError : Type 0 where
  marshal_failed no_array : SerializeError
  composite_element : ℕ → SerializeError
  unsupported_style : Text → SerializeError

abbrev pub Outcome : Type 0 → Type 0
Outcome A = Res SerializeError ⊥ A

-- A map of texts; a later entry of a key replaces an earlier one.
abbrev pub Pairs : Type 0
Pairs = List (Text × Text)

-- `basicString`
unfoldable pub basic_string : Library → Value → Text
basic_string lib (text s) = s
basic_string lib (number s) = s
basic_string lib (boolean true) = txt "true"
basic_string lib (boolean false) = txt "false"
basic_string lib (float s) = lib.format_float s
basic_string lib v = lib.format v

-- `flatten`: the pairs that are written, in order.
unfoldable mutual
  pub flatten : Library → Text → Value → Pairs
  flatten lib prefix nil = []
  flatten lib prefix (array vs) = flatten_elements lib prefix 1 vs
  flatten lib prefix (object m) = flatten_entries lib prefix m
  flatten lib prefix (text s) = (prefix, basic_string lib (text s)) ∷ []
  flatten lib prefix (number s) = (prefix, basic_string lib (number s)) ∷ []
  flatten lib prefix (float s) = (prefix, basic_string lib (float s)) ∷ []
  flatten lib prefix (boolean b) = (prefix, basic_string lib (boolean b)) ∷ []

  pub flatten_elements : Library → Text → ℕ → Values → Pairs
  flatten_elements lib prefix index no_values = []
  flatten_elements lib prefix index (value_cons v vs) =
      flatten lib (prefix ++ (b'.' ∷ lib.decimal index)) v
      ++ flatten_elements lib prefix (suc index) vs

  pub flatten_entries : Library → Text → Members → Pairs
  flatten_entries lib prefix no_members = []
  flatten_entries lib prefix (member_cons key v m) =
      flatten lib (prefix ++ (b'.' ∷ key)) v ++ flatten_entries lib prefix m

-- `serializeRPC`
unfoldable pub serialize_rpc : Library → Text → Value → Pairs
serialize_rpc lib prefix v = flatten lib prefix v

-- `serializeJSONParameter`
abbrev pub or_marshal_failed : Option Text → Outcome Text
or_marshal_failed none = err marshal_failed
or_marshal_failed (some s) = ok s

unfoldable pub serialize_json_parameter : Library → Value → Outcome Text
serialize_json_parameter lib v = or_marshal_failed (lib.marshal v)

unfoldable pub basic_strings : Library → Values → List Text
basic_strings lib no_values = []
basic_strings lib (value_cons v vs) = basic_string lib v ∷ basic_strings lib vs

abbrev pub simple_text : Library → Value → Text
simple_text lib (array vs) = join (txt ",") (basic_strings lib vs)
simple_text lib v = basic_string lib v

abbrev pub is_composite : Value → Bool
is_composite (array vs) = true
is_composite (object m) = true
is_composite v = false

-- `serializeQuery`
unfoldable pub serialize_query : Library → Text → Value → Bool → Text → Outcome Pairs
serialize_query lib name v is_rpc param_style =
    if text_eq param_style (txt "json")
    then and_then (serialize_json_parameter lib v) (λ encoded. ok ((name, encoded) ∷ []))
    else if text_eq param_style (txt "simple")
    then ok ((name, simple_text lib v) ∷ [])
    else if text_eq param_style (txt "flat") || text_eq param_style (txt "repeatList")
    then ok (serialize_rpc lib name v)
    else if is_rpc
    then ok (serialize_rpc lib name v)
    else if is_composite v
    then and_then (serialize_json_parameter lib v) (λ encoded. ok ((name, encoded) ∷ []))
    else ok ((name, basic_string lib v) ∷ [])

-- The parts of a `simple` array in a form: each must be a scalar.
abbrev pub is_scalar_value : Value → Bool
is_scalar_value nil = false
is_scalar_value (array vs) = false
is_scalar_value (object m) = false
is_scalar_value v = true

unfoldable pub simple_parts : Library → ℕ → Values → Outcome (List Text)
simple_parts lib index no_values = ok []
simple_parts lib index (value_cons v vs) =
    let later =
      and_then (simple_parts lib (suc index) vs) (λ parts. ok (basic_string lib v ∷ parts)) in
    if is_scalar_value v then later else err (composite_element index)

-- What `serializeFormParameter` puts under the name, if anything.
abbrev pub simple_form : Library → Value → Outcome (Option Value)
simple_form lib (array no_values) = ok none
simple_form lib (array (value_cons v vs)) =
    and_then (simple_parts lib 0 (value_cons v vs)) λ parts. ok (some (text (join (txt ",") parts)))
simple_form lib v = err no_array

-- `serializeFormParameter`
unfoldable pub serialize_form_parameter : Library → Value → Text → Outcome (Option Value)
serialize_form_parameter lib v param_style =
    if text_eq param_style (txt "simple")
    then simple_form lib v
    else if text_eq param_style (txt "json")
    then and_then (serialize_json_parameter lib v) (λ encoded. ok (some (text encoded)))
    else if is_empty param_style
        || text_eq param_style (txt "flat")
        || text_eq param_style (txt "repeatList")
    then ok (some v)
    else err (unsupported_style param_style)
