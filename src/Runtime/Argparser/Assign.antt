-- ===== src/Runtime/Argparser/Assign.antt =====
-- aliyun-openapi-runtime/argparser/argparser.go: the words of one occurrence of a flag are folded into the
-- arguments.
pub mod Elements
pub mod Typed
use aliyun_cli.Base.{
  Text, txt, is_empty, cut, join, trim_space, Bool, true, false, not, ◌&&◌, ◌||◌, Option, none,
  some, List, [], ◌∷◌, if◌then◌else◌, ok, err, and_then,
}
use aliyun_cli.Runtime.{
  Value, text, array, object, Values, no_values, value_cons, Members, no_members, Scalar, string,
  any, other, Parameter, parameter, scalar, object_of, array_of, map_of, Item, no_item, item, Slot,
  missing, present, get, put, append,
}
use aliyun_cli.Runtime.Argparser.{
  ArgError, expects_a_value, expects_one_value, only_once, bad_json, trailing_json, not_an_array,
  expected_object, expected_string_element, expected_object_element, composite_map_values,
  expected_key_value, empty_key, Outcome, Decoded, not_json, decoded, Library, first_is,
  coerce_scalar, resolve_wire, resolve_names, strip_outer_quotes,
}
use aliyun_cli.Runtime.Argparser.KeyPath.{parse_kv_pairs}

-- `tryFlagJSON`: nothing where the words do not look like JSON.
pub data Recognized : Type 0 where
  no_json : Recognized
  json_value : Value → Recognized
  json_error : ArgError → Recognized

abbrev pub recognized : Decoded → Recognized
recognized not_json = json_error bad_json
recognized (decoded v true) = json_error trailing_json
recognized (decoded v false) = json_value v

abbrev pub occurrence : List Text → Text
occurrence tokens = strip_outer_quotes (trim_space (join (txt " ") tokens))

unfoldable pub try_flag_json : Library → List Text → Recognized
try_flag_json lib tokens =
    let s = occurrence tokens in
    if first_is b'{' s || first_is b'[' s then recognized (lib.decode s) else no_json

-- `assignScalar`
abbrev pub assign_scalar : Library → Members → Text → Scalar → List Text → Outcome Members
assign_scalar lib dst key t [] = err expects_a_value
assign_scalar lib dst key t (raw ∷ []) = and_then (coerce_scalar lib t raw) λ v. ok (put dst key v)
assign_scalar lib dst key t (raw ∷ more ∷ tokens) = err expects_one_value

abbrev pub is_scalar_array_item : Item → Bool
is_scalar_array_item no_item = true
is_scalar_array_item (item (parameter info (object_of fs))) = false
is_scalar_array_item (item (parameter info (map_of i))) = false
is_scalar_array_item (item (parameter info (array_of i))) = false
is_scalar_array_item (item (parameter info (scalar any))) = false
is_scalar_array_item (item (parameter info (scalar t))) = true

abbrev pub is_string_array_item : Item → Bool
is_string_array_item (item (parameter info (scalar string))) = true
is_string_array_item i = false

abbrev pub is_composite_value : Value → Bool
is_composite_value (object m) = true
is_composite_value (array vs) = true
is_composite_value v = false

abbrev pub is_object_value : Value → Bool
is_object_value (object m) = true
is_object_value v = false

abbrev pub wants_object : Item → Bool
wants_object (item (parameter info (object_of fs))) = true
wants_object (item (parameter info (map_of i))) = true
wants_object i = false

-- `resolveArrayItem`
unfoldable pub resolve_array_item : Library → Item → Value → Outcome Value
resolve_array_item lib i v =
    if is_string_array_item i && is_composite_value v
    then err expected_string_element
    else if wants_object i && not (is_object_value v)
    then err expected_object_element
    else resolve_names lib i v

-- Each element is resolved and put behind those that are there.
unfoldable pub append_each : (Value → Outcome Value) → Values → Values → Outcome Values
append_each resolve existing no_values = ok existing
append_each resolve existing (value_cons v vs) =
    and_then (resolve v) λ out. append_each resolve (append existing (value_cons out no_values)) vs

abbrev pub as_array : Value → Value
as_array (array vs) = array vs
as_array v = array (value_cons v no_values)

-- `assignNestedArrayJSON`: the inner arrays of a decoded array, or the array as the only inner one
abbrev pub inner_values : Values → Values
inner_values no_values = value_cons (array no_values) no_values
inner_values (value_cons (array first) vs) = value_cons (array first) vs
inner_values (value_cons v vs) = value_cons (array (value_cons v vs)) no_values

abbrev pub is_array_item : Item → Bool
is_array_item (item (parameter info (array_of i))) = true
is_array_item i = false

-- A JSON value for an array: an array is spread, another value is one element.
abbrev pub spread : Library → Item → Values → Value → Outcome Values
spread lib i existing (array vs) =
    if is_array_item i
    then append_each (λ v. resolve_names lib i (as_array v)) existing (inner_values vs)
    else append_each (resolve_array_item lib i) existing vs
spread lib i existing v =
    if is_scalar_array_item i
    then err not_an_array
    else and_then (resolve_array_item lib i v)
        λ out. ok (append existing (value_cons out no_values))

-- `parseMapKVPairs`
abbrev pub value_scalar : Item → Option Scalar
value_scalar no_item = some string
value_scalar (item (parameter info (scalar t))) = some t
value_scalar (item (parameter info shape)) = none

abbrev pub put_pair : Library → Scalar → Members → Text × Text × Bool → Outcome Members
put_pair lib t m (k, v, false) = err expected_key_value
put_pair lib t m (k, v, true) =
    if is_empty k then err empty_key else and_then (coerce_scalar lib t v) λ w. ok (put m k w)

unfoldable pub put_pairs : Library → Scalar → Members → List Text → Outcome Members
put_pairs lib t m [] = ok m
put_pairs lib t m (token ∷ tokens) =
    and_then (put_pair lib t m (cut b'=' token)) λ m'. put_pairs lib t m' tokens

abbrev pub pairs_of : Library → Option Scalar → List Text → Outcome Members
pairs_of lib none tokens = err composite_map_values
pairs_of lib (some t) tokens = put_pairs lib t no_members tokens

unfoldable pub parse_map_kv_pairs : Library → List Text → Item → Outcome Members
parse_map_kv_pairs lib tokens i = pairs_of lib (value_scalar i) tokens

-- Each word is one scalar element.
unfoldable pub append_scalars : Library → Scalar → Values → List Text → Outcome Values
append_scalars lib t existing [] = ok existing
append_scalars lib t existing (raw ∷ tokens) =
    and_then (coerce_scalar lib t raw)
      λ v. append_scalars lib t (append existing (value_cons v no_values)) tokens

-- The words of an array's flag that are no JSON.
abbrev pub elements : Library → Item → Values → List Text → Outcome Values
elements lib (item (parameter info (object_of fs))) existing tokens =
    and_then (parse_kv_pairs lib tokens fs)
      λ m. ok (append existing (value_cons (object m) no_values))
elements lib (item (parameter info (map_of i))) existing tokens =
    and_then (parse_map_kv_pairs lib tokens i)
      λ m. ok (append existing (value_cons (object m) no_values))
elements lib (item (parameter info (scalar t))) existing tokens =
    append_scalars lib t existing tokens
elements lib (item (parameter info (array_of i))) existing tokens =
    append_scalars lib other existing tokens
elements lib no_item existing tokens = append_scalars lib string existing tokens

abbrev pub existing_values : Slot → Values
existing_values (present (array vs)) = vs
existing_values slot = no_values

abbrev pub array_values : Library → Item → Values → List Text → Recognized → Outcome Values
array_values lib i existing tokens (json_error e) = err e
array_values lib i existing tokens (json_value v) = spread lib i existing v
array_values lib i existing tokens no_json = elements lib i existing tokens

-- `assignArray`, up to the write of the result
unfoldable pub array_result : Library → Item → Values → List Text → Outcome Values
array_result lib i existing tokens =
    if is_string_array_item i && first_is b'{' (occurrence tokens)
    then ok (append existing (value_cons (text (occurrence tokens)) no_values))
    else array_values lib i existing tokens (try_flag_json lib tokens)

-- `assignObject` and `assignMap`: a JSON object is resolved by the parameter, and other words are pairs.
abbrev pub resolved_object : Library → Parameter → Value → Outcome Value
resolved_object lib p (object m) = resolve_names lib (item p) (object m)
resolved_object lib p v = err expected_object

abbrev pub object_result : Library → Parameter → Recognized → Outcome Members → Outcome Value
object_result lib p (json_error e) pairs = err e
object_result lib p (json_value v) pairs = resolved_object lib p v
object_result lib p no_json pairs = and_then pairs λ m. ok (object m)

abbrev pub once : Slot → Outcome Value → Outcome Value
once missing result = result
once (present v) result = err only_once

abbrev pub assign_at : Library → Members → Text → Parameter → List Text → Outcome Members
assign_at lib dst key (parameter info (scalar t)) tokens = assign_scalar lib dst key t tokens
assign_at lib dst key (parameter info (array_of i)) tokens =
    and_then (array_result lib i (existing_values (get dst key)) tokens)
      λ vs. ok (put dst key (array vs))
assign_at lib dst key (parameter info (object_of fs)) tokens =
    and_then
      (once (get dst key) (
        object_result lib (parameter info (object_of fs)) (try_flag_json lib tokens)
          (parse_kv_pairs lib tokens fs)))
      λ v. ok (put dst key v)
assign_at lib dst key (parameter info (map_of i)) tokens =
    and_then
      (once (get dst key) (
        object_result lib (parameter info (map_of i)) (try_flag_json lib tokens)
          (parse_map_kv_pairs lib tokens i)))
      λ v. ok (put dst key v)

-- `assign`
unfoldable pub assign : Library → Members → Parameter → List Text → Outcome Members
assign lib dst p tokens = and_then (resolve_wire p) λ key. assign_at lib dst key p tokens
