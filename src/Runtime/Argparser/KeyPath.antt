-- ===== src/Runtime/Argparser/KeyPath.antt =====
-- aliyun-openapi-runtime/argparser/argparser.go: objects from `key=value` words, where a key is a path
-- through the fields of the object (`a.b=v`, `items[0].key=v`).
pub mod Leaves
pub mod Ends
use aliyun_cli.Base.{
  ℕ, zero, suc, Text, is_empty, cut, trim_space, Bool, true, false, ◌&&◌, ◌==◌, Option, some, List,
  [], ◌∷◌, length, ℤ, pos, if◌then◌else◌, ok, err, timeout, and_then,
}
use aliyun_cli.Config.Profile.Overwrite.{atoi}
use aliyun_cli.Runtime.{
  Value, nil, text, array, object, Values, no_values, value_cons, Members, no_members, string,
  parameter, scalar, object_of, array_of, map_of, Item, no_item, item, Fields, no_fields, Slot,
  missing, present, get, put,
}
use aliyun_cli.Runtime.Argparser.{
  bad_json, expected_object, expected_array, expected_key_value, empty_key, invalid_path,
  object_not_array, needs_index, bad_index, cannot_descend, Outcome, Decoded, decoded, Library,
  first_is, last_is, coerce_scalar, find_field, resolved_key, resolve_names, strip_outer_quotes,
}

-- `parseKeyPath`: the first key, the rest, and whether an index follows.
unfoldable pub parse_key_path : Text → Text × Text × Bool
parse_key_path [] = ([], [], false)
parse_key_path (c ∷ s) =
    let (first, rest, is_index) = parse_key_path s in
    if c == b'.'
    then ([], s, false)
    else if c == b'['
    then ([], c ∷ s, true)
    else (c ∷ first, rest, is_index)

-- `strings.TrimPrefix(s, ".")`
abbrev pub trim_dot : Text → Text
trim_dot [] = []
trim_dot (c ∷ s) = if c == b'.' then s else c ∷ s

abbrev pub index_of : Option ℤ → Text → Outcome (ℕ × Text)
index_of (some (pos n)) rest = ok (n, trim_dot rest)
index_of _ rest = err bad_index

abbrev pub closed_index : Text × Text × Bool → Outcome (ℕ × Text)
closed_index (inside, rest, false) = err bad_index
closed_index (inside, rest, true) = index_of (atoi inside) rest

-- `splitIndex`, of a text that begins with a bracket
abbrev pub split_index : Text → Outcome (ℕ × Text)
split_index [] = err bad_index
split_index (c ∷ s) = closed_index (cut b']' s)

-- `decodeJSONObject` and `decodeJSONArray`, with `resolveNames` behind them
abbrev pub object_or_error : Decoded → Outcome Value
object_or_error (decoded (object m) more) = ok (object m)
object_or_error _ = err bad_json

abbrev pub array_or_error : Decoded → Outcome Value
array_or_error (decoded (array vs) more) = ok (array vs)
array_or_error _ = err bad_json

unfoldable pub decode_json_object : Library → Text → Outcome Value
decode_json_object lib raw =
    let s = strip_outer_quotes (trim_space raw) in
    if first_is b'{' s && last_is b'}' s
    then object_or_error (lib.decode s)
    else err expected_object

unfoldable pub decode_json_array : Library → Text → Outcome Value
decode_json_array lib raw =
    let s = strip_outer_quotes (trim_space raw) in
    if first_is b'[' s && last_is b']' s then array_or_error (lib.decode s) else err expected_array

-- `coerceLeaf`
unfoldable pub coerce_leaf : Library → Item → Text → Outcome Value
coerce_leaf lib no_item raw = ok (text raw)
coerce_leaf lib (item (parameter info (scalar t))) raw = coerce_scalar lib t raw
coerce_leaf lib (item (parameter info (array_of i))) raw =
    and_then (decode_json_array lib raw) (resolve_names lib (item (parameter info (array_of i))))
coerce_leaf lib (item (parameter info (object_of fs))) raw =
    and_then (decode_json_object lib raw) (resolve_names lib (item (parameter info (object_of fs))))
coerce_leaf lib (item (parameter info (map_of i))) raw =
    and_then (decode_json_object lib raw) (resolve_names lib (item (parameter info (map_of i))))

abbrev pub child_object : Slot → Members
child_object (present (object m)) = m
child_object slot = no_members

abbrev pub child_array : Slot → Values
child_array (present (array vs)) = vs
child_array slot = no_values

-- The element at an index of an array that is made long enough, and the array with another element
-- there.
unfoldable pub element : Values → ℕ → Slot
element no_values n = missing
element (value_cons v vs) zero = present v
element (value_cons v vs) (suc n) = element vs n

unfoldable pub grow_set : Values → ℕ → Value → Values
grow_set no_values zero w = value_cons w no_values
grow_set no_values (suc n) w = value_cons nil (grow_set no_values n w)
grow_set (value_cons v vs) zero w = value_cons w vs
grow_set (value_cons v vs) (suc n) w = value_cons v (grow_set vs n w)

-- A text element where the metadata names no scalar type.
abbrev pub element_leaf : Library → Item → Text → Outcome Value
element_leaf lib no_item raw = coerce_scalar lib string raw
element_leaf lib (item (parameter info (scalar t))) raw = coerce_scalar lib t raw
element_leaf lib (item (parameter info (object_of fs))) raw =
    and_then (decode_json_object lib raw) (resolve_names lib (item (parameter info (object_of fs))))
element_leaf lib (item (parameter info shape)) raw = ok (text raw)

-- What assigns a value at a path inside an object with the given fields.
abbrev pub Setter : Type 0
Setter = Members → Text → Fields → Outcome Members

abbrev pub set_element : Library → Setter → Text → Item → Values → ℕ × Text → Outcome Values
set_element lib set_inside raw i vs (n, []) =
    and_then (element_leaf lib i raw) λ v. ok (grow_set vs n v)
set_element lib set_inside raw (item (parameter info (object_of fs))) vs (n, c ∷ path) =
    and_then (set_inside (child_object (element vs n)) (c ∷ path) fs)
      λ m. ok (grow_set vs n (object m))
set_element lib set_inside raw i vs (n, c ∷ path) = err cannot_descend

-- The rest of a path that is not empty, below a field.
abbrev pub descend : Library → Setter → Text → Item → Slot → Text → Bool → Outcome Value
descend lib set_inside raw no_item slot rest is_index =
    and_then (set_inside (child_object slot) rest no_fields) λ m. ok (object m)
descend lib set_inside raw (item (parameter info (object_of fs))) slot rest true =
    err object_not_array
descend lib set_inside raw (item (parameter info (object_of fs))) slot rest false =
    and_then (set_inside (child_object slot) rest fs) λ m. ok (object m)
descend lib set_inside raw (item (parameter info (array_of i))) slot rest false = err needs_index
descend lib set_inside raw (item (parameter info (array_of i))) slot rest true =
    and_then (split_index rest)
      λ at. and_then (set_element lib set_inside raw i (child_array slot) at) λ vs. ok (array vs)
descend lib set_inside raw (item (parameter info (scalar t))) slot rest is_index =
    err cannot_descend
descend lib set_inside raw (item (parameter info (map_of i))) slot rest is_index =
    err cannot_descend

abbrev pub leaf_or_descend : Library → Setter → Text → Item → Slot → Text → Bool → Outcome Value
leaf_or_descend lib set_inside raw i slot [] is_index = coerce_leaf lib i raw
leaf_or_descend lib set_inside raw i slot (c ∷ rest) is_index =
    descend lib set_inside raw i slot (c ∷ rest) is_index

abbrev pub set_first :
    Library → Setter → Text → Members → Fields → Text × Text × Bool → Outcome Members
set_first lib set_inside raw m fs ([], rest, is_index) = err invalid_path
set_first lib set_inside raw m fs (c ∷ key, rest, is_index) =
    and_then (resolved_key fs (c ∷ key) (find_field fs (c ∷ key))) λ wire.
      and_then (leaf_or_descend lib set_inside raw wire.1 (get m wire.0) rest is_index)
        λ v. ok (put m wire.0 v)

-- `setSchemaValue`, on fuel: each call below has a shorter path.
unfoldable pub set_schema_value : ℕ → Library → Text → Members → Text → Fields → Outcome Members
set_schema_value zero lib raw m path fs = timeout
set_schema_value (suc fuel) lib raw m path fs =
    set_first lib (set_schema_value fuel lib raw) raw m fs (parse_key_path path)

abbrev pub set_pair : Library → Fields → Members → Text × Text × Bool → Outcome Members
set_pair lib fs m (k, v, false) = err expected_key_value
set_pair lib fs m (k, v, true) =
    if is_empty k then err empty_key else set_schema_value (suc (length k)) lib v m k fs

unfoldable pub set_pairs : Library → Fields → Members → List Text → Outcome Members
set_pairs lib fs m [] = ok m
set_pairs lib fs m (token ∷ tokens) =
    and_then (set_pair lib fs m (cut b'=' token)) λ m'. set_pairs lib fs m' tokens

-- `parseKVPairs`
unfoldable pub parse_kv_pairs : Library → List Text → Fields → Outcome Members
parse_kv_pairs lib tokens fs = set_pairs lib fs no_members tokens
