-- ===== src/Runtime/Argparser/KeyPath/Leaves.antt =====
-- aliyun-openapi-runtime/argparser/argparser.go: the conversions at the end of a path give a value or an
-- error.
use aliyun_cli.Base.{
  Text, trim_space, ◌≡◌, refl, ◌⊎◌, inl, inr, Option, none, some, IsSettled, ok, err, panic,
  timeout, and_then-IsSettled, arith,
}
use aliyun_cli.Runtime.{
  Value, nil, text, number, boolean, array, object, Values, no_values, value_cons, Members,
  no_members, member_cons, Scalar, string, integer, long, float_type, boolean_type, any, other,
  Parameter, parameter, scalar, object_of, array_of, map_of, Item, no_item, item, Fields, no_fields,
  field_cons,
}
use aliyun_cli.Runtime.Argparser.{
  ArgError, Outcome, Decoded, not_json, decoded, Library, parse_boolean, float_or_error,
  coerce_scalar, coerce_decoded_scalar, find_field, resolve_wire, resolved_key, resolve_names,
  resolve_fields, resolve_values, resolve_entries, strip_outer_quotes,
}
use aliyun_cli.Runtime.Argparser.KeyPath.{
  object_or_error, array_or_error, decode_json_object, decode_json_array, coerce_leaf, element_leaf,
}

parse_boolean-IsSettled : (raw : Text) → IsSettled (parse_boolean raw)
unfolding parse_boolean
parse_boolean-IsSettled raw = λ e. ground arith

float_or_error-IsSettled : (o : Option Text) → IsSettled (float_or_error o)
float_or_error-IsSettled none = λ e. cc
float_or_error-IsSettled (some f) = λ e. cc

coerce_scalar-IsSettled :
    (lib : Library) (t : Scalar) (raw : Text) → IsSettled (coerce_scalar lib t raw)
unfolding coerce_scalar
coerce_scalar-IsSettled lib integer raw = λ e. ground arith
coerce_scalar-IsSettled lib long raw = λ e. ground arith
coerce_scalar-IsSettled lib float_type raw =
    λ e. ground (arith, float_or_error-IsSettled (lib.parse_float raw))
coerce_scalar-IsSettled lib boolean_type raw = parse_boolean-IsSettled raw
coerce_scalar-IsSettled lib any raw = λ e. cc
coerce_scalar-IsSettled lib string raw = λ e. cc
coerce_scalar-IsSettled lib other raw = λ e. cc

coerce_decoded-IsSettled :
    (lib : Library) (t : Scalar) (v : Value) → IsSettled (coerce_decoded_scalar lib t v)
unfolding coerce_decoded_scalar
coerce_decoded-IsSettled lib any v = λ e. cc
coerce_decoded-IsSettled lib other v = λ e. cc
coerce_decoded-IsSettled lib string nil = λ e. cc
coerce_decoded-IsSettled lib string (text s) = λ e. cc
coerce_decoded-IsSettled lib string v = λ e. cc
coerce_decoded-IsSettled lib boolean_type nil = λ e. cc
coerce_decoded-IsSettled lib boolean_type (boolean b) = λ e. cc
coerce_decoded-IsSettled lib boolean_type (text s) = parse_boolean-IsSettled s
coerce_decoded-IsSettled lib boolean_type (number s) = parse_boolean-IsSettled s
coerce_decoded-IsSettled lib boolean_type v = λ e. cc
coerce_decoded-IsSettled lib integer nil = λ e. cc
coerce_decoded-IsSettled lib integer (number s) = coerce_scalar-IsSettled lib integer s
coerce_decoded-IsSettled lib integer (text s) = coerce_scalar-IsSettled lib integer (trim_space s)
coerce_decoded-IsSettled lib integer v = λ e. cc
coerce_decoded-IsSettled lib long nil = λ e. cc
coerce_decoded-IsSettled lib long (number s) = coerce_scalar-IsSettled lib long s
coerce_decoded-IsSettled lib long (text s) = coerce_scalar-IsSettled lib long (trim_space s)
coerce_decoded-IsSettled lib long v = λ e. cc
coerce_decoded-IsSettled lib float_type nil = λ e. cc
coerce_decoded-IsSettled lib float_type (number s) = coerce_scalar-IsSettled lib float_type s
coerce_decoded-IsSettled lib float_type (text s) =
    coerce_scalar-IsSettled lib float_type (trim_space s)
coerce_decoded-IsSettled lib float_type v = λ e. cc

resolve_wire-IsSettled : (p : Parameter) → IsSettled (resolve_wire p)
unfolding resolve_wire
resolve_wire-IsSettled (parameter info shape) = λ e. ground arith

pub resolved_key-IsSettled :
    (fs : Fields) (key : Text) (i : Item) → IsSettled (resolved_key fs key i)
resolved_key-IsSettled fs key (item p) =
    and_then-IsSettled (resolve_wire p) _ (resolve_wire-IsSettled p) (λ w e. cc)
resolved_key-IsSettled no_fields key no_item = λ e. cc
resolved_key-IsSettled (field_cons p fs) key no_item = λ e. cc

mutual
  unfolding resolve_names

  names-IsSettled : (lib : Library) (i : Item) (v : Value) → IsSettled (resolve_names lib i v)
  names-IsSettled lib no_item v = λ e. cc
  names-IsSettled lib (item (parameter info (scalar t))) v = coerce_decoded-IsSettled lib t v
  names-IsSettled lib (item (parameter info (object_of fs))) (object m) =
      and_then-IsSettled (resolve_fields lib fs m) _ (fields-IsSettled lib fs m) (λ o e. cc)
  names-IsSettled lib (item (parameter info (object_of fs))) v = λ e. cc
  names-IsSettled lib (item (parameter info (array_of i))) (array vs) =
      and_then-IsSettled (resolve_values lib i vs) _ (values-IsSettled lib i vs) (λ o e. cc)
  names-IsSettled lib (item (parameter info (array_of i))) v = λ e. cc
  names-IsSettled lib (item (parameter info (map_of i))) (object m) =
      and_then-IsSettled (resolve_entries lib i m) _ (entries-IsSettled lib i m) (λ o e. cc)
  names-IsSettled lib (item (parameter info (map_of i))) v = λ e. cc

  fields-IsSettled :
      (lib : Library) (fs : Fields) (m : Members) → IsSettled (resolve_fields lib fs m)
  fields-IsSettled lib fs no_members = λ e. cc
  fields-IsSettled lib fs (member_cons key v m) =
      and_then-IsSettled (resolved_key fs key (find_field fs key)) _
        (resolved_key-IsSettled fs key (find_field fs key))
        (λ w. and_then-IsSettled (resolve_names lib w.1 v) _ (names-IsSettled lib w.1 v) (λ o.
          and_then-IsSettled (resolve_fields lib fs m) _ (fields-IsSettled lib fs m) (λ r e. cc)))

  values-IsSettled : (lib : Library) (i : Item) (vs : Values) → IsSettled (resolve_values lib i vs)
  values-IsSettled lib i no_values = λ e. cc
  values-IsSettled lib i (value_cons v vs) =
      and_then-IsSettled (resolve_names lib i v) _ (names-IsSettled lib i v) (λ o.
        and_then-IsSettled (resolve_values lib i vs) _ (values-IsSettled lib i vs) (λ r e. cc))

  entries-IsSettled : (lib : Library) (i : Item) (m : Members) → IsSettled (resolve_entries lib i m)
  entries-IsSettled lib i no_members = λ e. cc
  entries-IsSettled lib i (member_cons key v m) =
      and_then-IsSettled (resolve_names lib i v) _ (names-IsSettled lib i v) (λ o.
        and_then-IsSettled (resolve_entries lib i m) _ (entries-IsSettled lib i m) (λ r e. cc))

object_or_error-IsSettled : (d : Decoded) → IsSettled (object_or_error d)
object_or_error-IsSettled (decoded (object m) more) = λ e. cc
object_or_error-IsSettled (decoded v more) = λ e. cc
object_or_error-IsSettled not_json = λ e. cc

array_or_error-IsSettled : (d : Decoded) → IsSettled (array_or_error d)
array_or_error-IsSettled (decoded (array vs) more) = λ e. cc
array_or_error-IsSettled (decoded v more) = λ e. cc
array_or_error-IsSettled not_json = λ e. cc

decode_object-IsSettled : (lib : Library) (raw : Text) → IsSettled (decode_json_object lib raw)
unfolding decode_json_object
decode_object-IsSettled lib raw = λ e.
    ground (arith, object_or_error-IsSettled (lib.decode (strip_outer_quotes (trim_space raw))))

decode_array-IsSettled : (lib : Library) (raw : Text) → IsSettled (decode_json_array lib raw)
unfolding decode_json_array
decode_array-IsSettled lib raw =
    λ e. ground (arith, array_or_error-IsSettled (lib.decode (strip_outer_quotes (trim_space raw))))

pub coerce_leaf-IsSettled :
    (lib : Library) (i : Item) (raw : Text) → IsSettled (coerce_leaf lib i raw)
unfolding coerce_leaf
coerce_leaf-IsSettled lib no_item raw = λ e. cc
coerce_leaf-IsSettled lib (item (parameter info (scalar t))) raw = coerce_scalar-IsSettled lib t raw
coerce_leaf-IsSettled lib (item (parameter info (array_of i))) raw =
    and_then-IsSettled (decode_json_array lib raw) _ (decode_array-IsSettled lib raw)
      (names-IsSettled lib (item (parameter info (array_of i))))
coerce_leaf-IsSettled lib (item (parameter info (object_of fs))) raw =
    and_then-IsSettled (decode_json_object lib raw) _ (decode_object-IsSettled lib raw)
      (names-IsSettled lib (item (parameter info (object_of fs))))
coerce_leaf-IsSettled lib (item (parameter info (map_of i))) raw =
    and_then-IsSettled (decode_json_object lib raw) _ (decode_object-IsSettled lib raw)
      (names-IsSettled lib (item (parameter info (map_of i))))

pub element_leaf-IsSettled :
    (lib : Library) (i : Item) (raw : Text) → IsSettled (element_leaf lib i raw)
element_leaf-IsSettled lib no_item raw = coerce_scalar-IsSettled lib string raw
element_leaf-IsSettled lib (item (parameter info (scalar t))) raw =
    coerce_scalar-IsSettled lib t raw
element_leaf-IsSettled lib (item (parameter info (object_of fs))) raw =
    and_then-IsSettled (decode_json_object lib raw) _ (decode_object-IsSettled lib raw)
      (names-IsSettled lib (item (parameter info (object_of fs))))
element_leaf-IsSettled lib (item (parameter info (array_of i))) raw = λ e. cc
element_leaf-IsSettled lib (item (parameter info (map_of i))) raw = λ e. cc

pub res_cases :
    {A : Type 0} (r : Outcome A)
    → IsSettled r
    → ((a : A) × (r ≡ ok a)) ⊎ ((e : ArgError) × (r ≡ err e))
res_cases (ok a) h = inl (a, refl)
res_cases (err e) h = inr (e, refl)
res_cases (panic p) h = absurd p
res_cases timeout h = absurd (h refl)
