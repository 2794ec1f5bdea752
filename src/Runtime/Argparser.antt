-- ===== src/Runtime/Argparser.antt =====
-- aliyun-openapi-runtime/argparser/argparser.go: the values of a flag, from the words of a command line
-- and the metadata of its parameter. The JSON decoder, the conversion of floats and the formatting by
-- `%v` are parameters.
pub mod Typed
pub mod KeyPath
pub mod Assign
use aliyun_cli.Base.{
  ℕ, Text, txt, text_eq, is_empty, trim_space, to_lower, Bool, true, false, not, ◌&&◌, ◌||◌, ◌==◌,
  leb, Option, none, some, [], ◌∷◌, length, drop, if◌then◌else◌, Res, ok, err, and_then,
}
use aliyun_cli.Runtime.{
  Value, nil, text, number, float, boolean, array, object, Values, no_values, value_cons, Members,
  no_members, member_cons, Scalar, string, integer, long, float_type, boolean_type, any, other,
  Parameter, parameter, scalar, object_of, array_of, map_of, Item, no_item, item, Fields, no_fields,
  field_cons, info_of,
}

pub data ArgError : Type 0 where
  bad_number bad_float bad_boolean wrong_type expected_object expected_array missing_raw_name
        expects_a_value expects_one_value only_once bad_json trailing_json not_an_array
        expected_string_element expected_object_element composite_map_values expected_key_value
        empty_key invalid_path object_not_array needs_index bad_index cannot_descend :
      ArgError
  unknown_field : Text → ArgError

abbrev pub Outcome : Type 0 → Type 0
Outcome A = Res ArgError ⊥ A

-- One JSON value from the front of a text, as the decoder gives it.
pub data Decoded : Type 0 where
  not_json : Decoded
  -- The value, and whether more follows it.
  decoded : Value → Bool → Decoded

pub record Library : Type 0 where
  -- `strconv.ParseFloat`, and `FormatFloat` with the format `g` behind it
  pub parse_float : Text → Option Text
  -- `fmt.Sprintf("%v", v)`
  pub format : Value → Text
  -- `json.Decoder.Decode` with `UseNumber`
  pub decode : Text → Decoded

-- One letter of `looksNumeric`: the letter before it, and whether a dot and an exponent were seen.
pub record Seen : Type 0 where
  pub previous : Option ℕ
  pub dot : Bool
  pub exponent : Bool

abbrev pub is_exponent : ℕ → Bool
is_exponent c = c == b'e' || c == b'E'

abbrev pub sign_allowed : Option ℕ → Bool
sign_allowed none = true
sign_allowed (some c) = is_exponent c

abbrev pub letter_allowed : Seen → ℕ → Bool
letter_allowed seen c =
    if leb b'0' c && leb c b'9'
    then true
    else if c == b'-' || c == b'+'
    then sign_allowed seen.previous
    else if c == b'.'
    then not seen.dot
    else if is_exponent c
    then not seen.exponent
    else false

abbrev pub see : Seen → ℕ → Seen
see seen c = record {
  previous = some c;
  dot = seen.dot || c == b'.';
  exponent = seen.exponent || is_exponent c;
}

unfoldable pub numeric_from : Seen → Text → Bool
numeric_from seen [] = true
numeric_from seen (c ∷ s) =
    let later = numeric_from (see seen c) s in if letter_allowed seen c then later else false

unfoldable pub looks_numeric : Text → Bool
looks_numeric s =
    if is_empty s
    then false
    else numeric_from (record { previous = none; dot = false; exponent = false }) s

-- The spellings of `parseBoolean`
unfoldable pub is_true_word : Text → Bool
is_true_word s =
    text_eq s (txt "true")
    || text_eq s (txt "t")
    || text_eq s (txt "yes")
    || text_eq s (txt "y")
    || text_eq s (txt "1")

unfoldable pub is_false_word : Text → Bool
is_false_word s =
    text_eq s (txt "false")
    || text_eq s (txt "f")
    || text_eq s (txt "no")
    || text_eq s (txt "n")
    || text_eq s (txt "0")

-- `parseBoolean`
unfoldable pub parse_boolean : Text → Outcome Value
parse_boolean raw =
    if is_true_word (to_lower (trim_space raw))
    then ok (boolean true)
    else if is_false_word (to_lower (trim_space raw))
    then ok (boolean false)
    else err bad_boolean

abbrev pub last_is : ℕ → Text → Bool
last_is c [] = false
last_is c (d ∷ []) = d == c
last_is c (d ∷ e ∷ s) = last_is c (e ∷ s)

abbrev pub first_is : ℕ → Text → Bool
first_is c [] = false
first_is c (d ∷ s) = d == c

abbrev pub enclosed : ℕ → ℕ → Text → Bool
enclosed a b s = leb 2 (length s) && first_is a s && last_is b s

abbrev pub drop_last : Text → Text
drop_last [] = []
drop_last (c ∷ []) = []
drop_last (c ∷ d ∷ s) = c ∷ drop_last (d ∷ s)

-- `stripOuterQuotes`
unfoldable pub strip_outer_quotes : Text → Text
strip_outer_quotes s =
    if enclosed 39 39 s || enclosed 34 34 s then trim_space (drop_last (drop 1 s)) else s

-- `isLikelyJSON`, of a trimmed text
unfoldable pub is_likely_json : Text → Bool
is_likely_json s = enclosed b'{' b'}' s || enclosed b'[' b']' s || enclosed 34 34 s

abbrev pub value_of : Decoded → Option Value
value_of not_json = none
value_of (decoded v more) = some v

-- Is the text one JSON number and nothing else?
abbrev pub is_number : Decoded → Bool
is_number (decoded (number n) false) = true
is_number _ = false

-- `parseAny` of a text that is no JSON of its own
unfoldable pub parse_literal : Library → Text → Text → Value
parse_literal lib s t =
    if text_eq (to_lower t) (txt "true")
    then boolean true
    else if text_eq (to_lower t) (txt "false")
    then boolean false
    else if text_eq (to_lower t) (txt "null")
    then nil
    else if is_number (lib.decode t)
    then number t
    else text s

abbrev pub value_or : Option Value → Value → Value
value_or none v = v
value_or (some w) v = w

unfoldable pub parse_any : Library → Text → Value
parse_any lib s =
    let t = trim_space s in
    if is_empty t
    then text []
    else if is_likely_json t
    then value_or (value_of (lib.decode t)) (parse_literal lib s t)
    else parse_literal lib s t

abbrev pub float_or_error : Option Text → Outcome Value
float_or_error none = err bad_float
float_or_error (some f) = ok (float f)

-- `coerceScalar`
unfoldable pub coerce_scalar : Library → Scalar → Text → Outcome Value
coerce_scalar lib integer raw = if looks_numeric raw then ok (number raw) else err bad_number
coerce_scalar lib long raw = if looks_numeric raw then ok (number raw) else err bad_number
coerce_scalar lib float_type raw =
    if looks_numeric raw then float_or_error (lib.parse_float raw) else err bad_float
coerce_scalar lib boolean_type raw = parse_boolean raw
coerce_scalar lib any raw = ok (parse_any lib raw)
coerce_scalar lib string raw = ok (text raw)
coerce_scalar lib other raw = ok (text raw)

-- `coerceDecodedScalar`
unfoldable pub coerce_decoded_scalar : Library → Scalar → Value → Outcome Value
coerce_decoded_scalar lib any v = ok v
coerce_decoded_scalar lib other v = ok v
coerce_decoded_scalar lib string nil = ok (text [])
coerce_decoded_scalar lib string (text s) = ok (text s)
coerce_decoded_scalar lib string v = ok (text (lib.format v))
coerce_decoded_scalar lib boolean_type nil = ok (boolean false)
coerce_decoded_scalar lib boolean_type (boolean b) = ok (boolean b)
coerce_decoded_scalar lib boolean_type (text s) = parse_boolean s
coerce_decoded_scalar lib boolean_type (number s) = parse_boolean s
coerce_decoded_scalar lib boolean_type v = err wrong_type
coerce_decoded_scalar lib integer nil = ok (number (txt "0"))
coerce_decoded_scalar lib integer (number s) = coerce_scalar lib integer s
coerce_decoded_scalar lib integer (text s) = coerce_scalar lib integer (trim_space s)
coerce_decoded_scalar lib integer v = err wrong_type
coerce_decoded_scalar lib long nil = ok (number (txt "0"))
coerce_decoded_scalar lib long (number s) = coerce_scalar lib long s
coerce_decoded_scalar lib long (text s) = coerce_scalar lib long (trim_space s)
coerce_decoded_scalar lib long v = err wrong_type
coerce_decoded_scalar lib float_type nil = ok (float (txt "0"))
coerce_decoded_scalar lib float_type (number s) = coerce_scalar lib float_type s
coerce_decoded_scalar lib float_type (text s) = coerce_scalar lib float_type (trim_space s)
coerce_decoded_scalar lib float_type v = err wrong_type

-- `findField`
unfoldable pub find_field : Fields → Text → Item
find_field no_fields key = no_item
find_field (field_cons p fs) key =
    let later = find_field fs key in
    let raw = (info_of p).raw_name in
    if not (is_empty raw) && text_eq raw key then item p else later

-- `resolveWire`
unfoldable pub resolve_wire : Parameter → Outcome Text
resolve_wire (parameter info shape) =
    if is_empty info.raw_name then err missing_raw_name else ok info.raw_name

-- Under which key, and by which parameter, an entry of an object is resolved.
abbrev pub resolved_key : Fields → Text → Item → Outcome (Text × Item)
resolved_key fs key (item p) = and_then (resolve_wire p) λ wire. ok (wire, item p)
resolved_key no_fields key no_item = ok (key, no_item)
resolved_key (field_cons p fs) key no_item = err (unknown_field key)

unfoldable mutual
  unfolding coerce_decoded_scalar

  -- `resolveNames`; with no parameter the value stays as it is.
  pub resolve_names : Library → Item → Value → Outcome Value
  resolve_names lib no_item v = ok v
  resolve_names lib (item (parameter info (scalar t))) v = coerce_decoded_scalar lib t v
  resolve_names lib (item (parameter info (object_of fs))) (object m) =
      and_then (resolve_fields lib fs m) λ out. ok (object out)
  resolve_names lib (item (parameter info (object_of fs))) v = err expected_object
  resolve_names lib (item (parameter info (array_of i))) (array values) =
      and_then (resolve_values lib i values) λ out. ok (array out)
  resolve_names lib (item (parameter info (array_of i))) v = err expected_array
  resolve_names lib (item (parameter info (map_of i))) (object m) =
      and_then (resolve_entries lib i m) λ out. ok (object out)
  resolve_names lib (item (parameter info (map_of i))) v = err expected_object

  pub resolve_fields : Library → Fields → Members → Outcome Members
  resolve_fields lib fs no_members = ok no_members
  resolve_fields lib fs (member_cons key v m) =
      and_then (resolved_key fs key (find_field fs key)) λ wire.
        and_then (resolve_names lib wire.1 v)
          λ out. and_then (resolve_fields lib fs m) λ rest. ok (member_cons wire.0 out rest)

  pub resolve_values : Library → Item → Values → Outcome Values
  resolve_values lib i no_values = ok no_values
  resolve_values lib i (value_cons v values) =
      and_then (resolve_names lib i v)
        λ out. and_then (resolve_values lib i values) λ rest. ok (value_cons out rest)

  pub resolve_entries : Library → Item → Members → Outcome Members
  resolve_entries lib i no_members = ok no_members
  resolve_entries lib i (member_cons key v m) =
      and_then (resolve_names lib i v)
        λ out. and_then (resolve_entries lib i m) λ rest. ok (member_cons key out rest)
