-- ===== src/Runtime/Argparser/Typed.antt =====
-- aliyun-openapi-runtime/argparser/argparser.go: what it means that a value has the type that a parameter
-- names, and that the conversions give such values only.
use aliyun_cli.Base.{
  Text, txt, text_eq, text_eq_iff, is_empty, trim_space, to_lower, Bool, true, false, not, ◌&&◌,
  Bool-cases, ◌≡◌, refl, sym, ap, subst, ◌∙◌, ◌⊎◌, inl, inr, Option, none, some, [], ok-inj, ok,
  and_then, and_then-eq-ok, arith,
}
use aliyun_cli.Runtime.{
  Value, nil, text, number, float, boolean, array, object, Values, no_values, value_cons, Members,
  no_members, member_cons, Scalar, string, integer, long, float_type, boolean_type, any, other,
  Info, Parameter, parameter, scalar, object_of, array_of, map_of, Item, no_item, item, Fields,
  no_fields, field_cons, info_of,
}
use aliyun_cli.Runtime.Argparser.{
  Library, looks_numeric, is_true_word, is_false_word, parse_boolean, coerce_scalar, float_or_error,
  coerce_decoded_scalar, find_field, resolve_wire, resolved_key, resolve_names, resolve_fields,
  resolve_values, resolve_entries,
}

-- A value of a scalar type: a text, a number that is written like one, a float, a Boolean; or any
-- value where the type says nothing.
abbrev pub HasScalarType : Scalar → Value → Type 0
HasScalarType string v = (s : Text) × (v ≡ text s)
HasScalarType integer v = (s : Text) × (v ≡ number s) × (looks_numeric s ≡ true)
HasScalarType long v = (s : Text) × (v ≡ number s) × (looks_numeric s ≡ true)
HasScalarType float_type v = (s : Text) × (v ≡ float s)
HasScalarType boolean_type v = (b : Bool) × (v ≡ boolean b)
HasScalarType any v = Unit
HasScalarType other v = Unit

-- A value that fits a parameter all the way down; where the parameter is missing, any does. The
-- entries of an object are fields of the parameter, save where it names none.
mutual
  pub data HasType : Item → Value → Type 0 where
    untyped : (v : Value) → HasType no_item v
    scalar_typed :
        (info : Info) (t : Scalar) (v : Value)
        → HasScalarType t v
        → HasType (item (parameter info (scalar t))) v
    object_typed :
        (info : Info) (fs : Fields) (m : Members)
        → FieldsTyped fs m
        → HasType (item (parameter info (object_of fs))) (object m)
    array_typed :
        (info : Info) (i : Item) (values : Values)
        → AllTyped i values
        → HasType (item (parameter info (array_of i))) (array values)
    map_typed :
        (info : Info) (i : Item) (m : Members)
        → EntriesTyped i m
        → HasType (item (parameter info (map_of i))) (object m)

  pub data FieldsTyped : Fields → Members → Type 0 where
    fields_nil : (fs : Fields) → FieldsTyped fs no_members
    fields_known :
        (fs : Fields) (p : Parameter) (key : Text) (v : Value) (m : Members)
        → find_field fs key ≡ item p
        → HasType (item p) v
        → FieldsTyped fs m
        → FieldsTyped fs (member_cons key v m)
    fields_open :
        (key : Text) (v : Value) (m : Members)
        → FieldsTyped no_fields m
        → FieldsTyped no_fields (member_cons key v m)

  pub data AllTyped : Item → Values → Type 0 where
    all_nil : (i : Item) → AllTyped i no_values
    all_cons :
        (i : Item) (v : Value) (values : Values)
        → HasType i v
        → AllTyped i values
        → AllTyped i (value_cons v values)

  pub data EntriesTyped : Item → Members → Type 0 where
    entries_nil : (i : Item) → EntriesTyped i no_members
    entries_cons :
        (i : Item) (key : Text) (v : Value) (m : Members)
        → HasType i v
        → EntriesTyped i m
        → EntriesTyped i (member_cons key v m)

abbrev is_named : Text → Text → Bool
is_named raw key = not (is_empty raw) && text_eq raw key

is_named-true : (raw key : Text) → is_named raw key ≡ true → (is_empty raw ≡ false) × (raw ≡ key)
is_named-true raw key h = elim (Bool-cases (is_empty raw)) [
  | inl blank ↦ absurd (ground arith)
  | inr full ↦ (full, (text_eq_iff raw key).0 (ground arith))
]

item_or : Parameter → Item → Parameter
item_or p no_item = p
item_or p (item q) = q

item-inj : {p q : Parameter} → item p ≡ item q → p ≡ q
unfolding item_or
item-inj {p = p} h = ap (item_or p) h

parse_boolean_typed : (s : Text) (v : Value) → parse_boolean s ≡ ok v → (b : Bool) × (v ≡ boolean b)
unfolding parse_boolean
parse_boolean_typed s v h = elim (Bool-cases (is_true_word (to_lower (trim_space s)))) [
  | inl yes_ ↦ (true, ground arith)
  | inr other_ ↦ elim (Bool-cases (is_false_word (to_lower (trim_space s)))) [
    | inl no_ ↦ (false, ground arith)
    | inr neither ↦ absurd (ground arith)
  ]
]

zero_looks_numeric : looks_numeric (txt "0") ≡ true
unfolding looks_numeric aliyun_cli.Runtime.Argparser.numeric_from
zero_looks_numeric = refl

float_or_error_typed :
    (o : Option Text) (v : Value) → float_or_error o ≡ ok v → (s : Text) × (v ≡ float s)
float_or_error_typed none v h = cc
float_or_error_typed (some s) v h = (s, sym (ok-inj h))

-- What `coerceScalar` makes of a word has the type that it was asked for.
pub coerce_scalar-HasScalarType :
    (lib : Library) (t : Scalar) (raw : Text) (v : Value)
    → coerce_scalar lib t raw ≡ ok v
    → HasScalarType t v
unfolding coerce_scalar
coerce_scalar-HasScalarType lib string raw v h = (raw, sym (ok-inj h))
coerce_scalar-HasScalarType lib integer raw v h = elim (Bool-cases (looks_numeric raw)) [
  | inl good ↦ (raw, ground arith, good)
  | inr bad ↦ absurd (ground arith)
]
coerce_scalar-HasScalarType lib long raw v h = elim (Bool-cases (looks_numeric raw)) [
  | inl good ↦ (raw, ground arith, good)
  | inr bad ↦ absurd (ground arith)
]
coerce_scalar-HasScalarType lib float_type raw v h = elim (Bool-cases (looks_numeric raw)) [
  | inl good ↦ float_or_error_typed (lib.parse_float raw) v (ground arith)
  | inr bad ↦ absurd (ground arith)
]
coerce_scalar-HasScalarType lib boolean_type raw v h = parse_boolean_typed raw v h
coerce_scalar-HasScalarType lib any raw v h = tt
coerce_scalar-HasScalarType lib other raw v h = tt

coerce_decoded-HasScalarType :
    (lib : Library) (t : Scalar) (given v : Value)
    → coerce_decoded_scalar lib t given ≡ ok v
    → HasScalarType t v
unfolding coerce_decoded_scalar
coerce_decoded-HasScalarType lib any given v h = tt
coerce_decoded-HasScalarType lib other given v h = tt
coerce_decoded-HasScalarType lib string nil v h = ([], sym (ok-inj h))
coerce_decoded-HasScalarType lib string (text s) v h = (s, sym (ok-inj h))
coerce_decoded-HasScalarType lib string given v h = (lib.format given, sym (ok-inj h))
coerce_decoded-HasScalarType lib boolean_type nil v h = (false, sym (ok-inj h))
coerce_decoded-HasScalarType lib boolean_type (boolean b) v h = (b, sym (ok-inj h))
coerce_decoded-HasScalarType lib boolean_type (text s) v h = parse_boolean_typed s v h
coerce_decoded-HasScalarType lib boolean_type (number s) v h = parse_boolean_typed s v h
coerce_decoded-HasScalarType lib boolean_type given v h = cc
coerce_decoded-HasScalarType lib integer nil v h = (txt "0", sym (ok-inj h), zero_looks_numeric)
coerce_decoded-HasScalarType lib integer (number s) v h =
    coerce_scalar-HasScalarType lib integer s v h
coerce_decoded-HasScalarType lib integer (text s) v h =
    coerce_scalar-HasScalarType lib integer (trim_space s) v h
coerce_decoded-HasScalarType lib integer given v h = cc
coerce_decoded-HasScalarType lib long nil v h = (txt "0", sym (ok-inj h), zero_looks_numeric)
coerce_decoded-HasScalarType lib long (number s) v h = coerce_scalar-HasScalarType lib long s v h
coerce_decoded-HasScalarType lib long (text s) v h =
    coerce_scalar-HasScalarType lib long (trim_space s) v h
coerce_decoded-HasScalarType lib long given v h = cc
coerce_decoded-HasScalarType lib float_type nil v h = (txt "0", sym (ok-inj h))
coerce_decoded-HasScalarType lib float_type (number s) v h =
    coerce_scalar-HasScalarType lib float_type s v h
coerce_decoded-HasScalarType lib float_type (text s) v h =
    coerce_scalar-HasScalarType lib float_type (trim_space s) v h
coerce_decoded-HasScalarType lib float_type given v h = cc

found_is_named :
    (fs : Fields) (key : Text) (p : Parameter)
    → find_field fs key ≡ item p
    → (is_empty (info_of p).raw_name ≡ false) × ((info_of p).raw_name ≡ key)
unfolding find_field
found_is_named no_fields key p h = cc
found_is_named (field_cons q fs) key p h = elim (Bool-cases (is_named (info_of q).raw_name key)) [
  | inl here ↦
      let same : q ≡ p = item-inj (ground arith) in
      let n = is_named-true (info_of q).raw_name key here in
      (
        subst (λ r. is_empty (info_of r).raw_name ≡ false) same n.0,
        subst (λ r. (info_of r).raw_name ≡ key) same n.1,
      )
  | inr later ↦ found_is_named fs key p (ground arith)
]

resolve_wire-found :
    (fs : Fields) (key : Text) (p : Parameter)
    → find_field fs key ≡ item p
    → resolve_wire p ≡ ok key
unfolding resolve_wire
resolve_wire-found fs key (parameter info shape) h =
    let n = found_is_named fs key (parameter info shape) h in rw (n.0, n.1) refl

-- The entry of an object is resolved under its own key, by the field of that name.
resolved_key-ok :
    (fs : Fields) (key : Text) (i : Item) (wire : Text × Item)
    → find_field fs key ≡ i
    → resolved_key fs key i ≡ ok wire
    → (wire ≡ (key, i)) × ((fs ≡ no_fields) ⊎ ((p : Parameter) × (i ≡ item p)))
resolved_key-ok fs key (item p) wire found h =
    let r = resolve_wire-found fs key p found in
    (sym (ok-inj (sym (ap (λ o. and_then o (λ w. ok (w, item p))) r) ∙ h)), inr (p, refl))
resolved_key-ok no_fields key no_item wire found h = (sym (ok-inj h), inl refl)
resolved_key-ok (field_cons p fs) key no_item wire found h = cc

FieldsTyped-cons :
    (fs : Fields) (key : Text) (wire : Text × Item) (w : Value) (rest : Members)
    → wire ≡ (key, find_field fs key)
    → (fs ≡ no_fields) ⊎ ((p : Parameter) × (find_field fs key ≡ item p))
    → HasType wire.1 w
    → FieldsTyped fs rest
    → FieldsTyped fs (member_cons wire.0 w rest)
FieldsTyped-cons fs key wire w rest same kind typed more =
    let typed' : HasType (find_field fs key) w = subst (λ x. HasType x.1 w) same typed in
    subst (λ x. FieldsTyped fs (member_cons x.0 w rest)) (sym same)
      (elim kind [
        | inl open_ ↦
            subst (λ g. FieldsTyped g rest → FieldsTyped g (member_cons key w rest)) (sym open_)
              (fields_open key w rest) more
        | inr (p, found) ↦
            fields_known fs p key w rest found (subst (λ i. HasType i w) found typed') more
      ])

mutual
  unfolding resolve_names

  pub resolved :
      (lib : Library) (i : Item) (given v : Value) → resolve_names lib i given ≡ ok v → HasType i v
  resolved lib no_item given v h = untyped v
  resolved lib (item (parameter info (scalar t))) given v h =
      scalar_typed info t v (coerce_decoded-HasScalarType lib t given v h)
  resolved lib (item (parameter info (object_of fs))) (object m) v h =
      let (out, done, same) = and_then-eq-ok (resolve_fields lib fs m) (λ o. ok (object o)) h in
      subst (HasType (item (parameter info (object_of fs)))) (ok-inj same)
        (object_typed info fs out (resolved_fields lib fs m out done))
  resolved lib (item (parameter info (object_of fs))) given v h = cc
  resolved lib (item (parameter info (array_of i))) (array values) v h =
      let (out, done, same) = and_then-eq-ok (resolve_values lib i values) (λ o. ok (array o)) h in
      subst (HasType (item (parameter info (array_of i)))) (ok-inj same)
        (array_typed info i out (resolved_values lib i values out done))
  resolved lib (item (parameter info (array_of i))) given v h = cc
  resolved lib (item (parameter info (map_of i))) (object m) v h =
      let (out, done, same) = and_then-eq-ok (resolve_entries lib i m) (λ o. ok (object o)) h in
      subst (HasType (item (parameter info (map_of i)))) (ok-inj same)
        (map_typed info i out (resolved_entries lib i m out done))
  resolved lib (item (parameter info (map_of i))) given v h = cc

  resolved_fields :
      (lib : Library) (fs : Fields) (m out : Members)
      → resolve_fields lib fs m ≡ ok out
      → FieldsTyped fs out
  resolved_fields lib fs no_members out h = subst (FieldsTyped fs) (ok-inj h) (fields_nil fs)
  resolved_fields lib fs (member_cons key v m) out h =
      let (wire, keyed, h1) = and_then-eq-ok (resolved_key fs key (find_field fs key)) _ h in
      let (w, done, h2) = and_then-eq-ok (resolve_names lib wire.1 v) _ h1 in
      let (rest, more, same) = and_then-eq-ok (resolve_fields lib fs m) _ h2 in
      let k = resolved_key-ok fs key (find_field fs key) wire refl keyed in
      subst (FieldsTyped fs) (ok-inj same) (
        FieldsTyped-cons fs key wire w rest k.0 k.1 (resolved lib wire.1 v w done)
          (resolved_fields lib fs m rest more))

  resolved_values :
      (lib : Library) (i : Item) (values out : Values)
      → resolve_values lib i values ≡ ok out
      → AllTyped i out
  resolved_values lib i no_values out h = subst (AllTyped i) (ok-inj h) (all_nil i)
  resolved_values lib i (value_cons v values) out h =
      let (w, done, h1) = and_then-eq-ok (resolve_names lib i v) _ h in
      let (rest, more, same) = and_then-eq-ok (resolve_values lib i values) _ h1 in
      subst (AllTyped i) (ok-inj same)
        (all_cons i w rest (resolved lib i v w done) (resolved_values lib i values rest more))

  resolved_entries :
      (lib : Library) (i : Item) (m out : Members)
      → resolve_entries lib i m ≡ ok out
      → EntriesTyped i out
  resolved_entries lib i no_members out h = subst (EntriesTyped i) (ok-inj h) (entries_nil i)
  resolved_entries lib i (member_cons key v m) out h =
      let (w, done, h1) = and_then-eq-ok (resolve_names lib i v) _ h in
      let (rest, more, same) = and_then-eq-ok (resolve_entries lib i m) _ h1 in
      subst (EntriesTyped i) (ok-inj same)
        (entries_cons i key w rest (resolved lib i v w done) (resolved_entries lib i m rest more))
