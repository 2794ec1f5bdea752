-- ===== src/Runtime/Argparser/Assign/Elements.antt =====
-- aliyun-openapi-runtime/argparser/argparser.go: the elements and entries that JSON and pairs give have the
-- type of their descriptor.
use aliyun_cli.Base.{
  Text, text_eq, text_eq_refl, is_empty, cut, Bool, true, false, not, ◌&&◌, Bool-cases, ◌≡◌, refl,
  sym, ap, subst, inl, inr, Option, none, some, List, [], ◌∷◌, ok-inj, ok, and_then-eq-ok, arith,
}
use aliyun_cli.Runtime.{
  Value, array, object, Values, no_values, value_cons, Members, no_members, member_cons, Scalar,
  Parameter, parameter, scalar, object_of, array_of, map_of, Item, no_item, item, Slot, missing,
  present, get, put, append,
}
use aliyun_cli.Runtime.Argparser.{Outcome, Library, coerce_scalar, resolve_names}
use aliyun_cli.Runtime.Argparser.Typed.{
  HasScalarType, HasType, untyped, scalar_typed, AllTyped, all_nil, all_cons, EntriesTyped,
  entries_nil, entries_cons, coerce_scalar-HasScalarType, resolved,
}
use aliyun_cli.Runtime.Argparser.Assign.{
  Recognized, no_json, json_value, json_error, is_string_array_item, is_composite_value,
  is_object_value, wants_object, is_scalar_array_item, resolve_array_item, append_each, as_array,
  inner_values, is_array_item, spread, value_scalar, put_pair, put_pairs, pairs_of, object_result,
  once,
}

pub get-put : (m : Members) (key : Text) (v : Value) → get (put m key v) key ≡ present v
unfolding get put
get-put no_members key v = rw (text_eq_refl key) refl
get-put (member_cons k w m) key v = elim (Bool-cases (text_eq k key)) [
  | inl same ↦ rw (same, same) refl
  | inr other_ ↦ rw (other_, other_) (get-put m key v)
]

AllTyped-append :
    (i : Item) (vs ws : Values) → AllTyped i vs → AllTyped i ws → AllTyped i (append vs ws)
unfolding append
AllTyped-append i no_values ws h k = k
AllTyped-append i (value_cons v vs) ws (all_cons _ _ _ t h) k =
    all_cons i v (append vs ws) t (AllTyped-append i vs ws h k)

pub AllTyped-last :
    (i : Item) (vs : Values) (v : Value)
    → AllTyped i vs
    → HasType i v
    → AllTyped i (append vs (value_cons v no_values))
AllTyped-last i vs v h t =
    AllTyped-append i vs (value_cons v no_values) h (all_cons i v no_values t (all_nil i))

append_each-AllTyped :
    (i : Item) (resolve : Value → Outcome Value)
    → ((v w : Value) → resolve v ≡ ok w → HasType i w)
    → (existing vs out : Values) → AllTyped i existing
    → append_each resolve existing vs ≡ ok out
    → AllTyped i out
unfolding append_each
append_each-AllTyped i resolve good existing no_values out h e = subst (AllTyped i) (ok-inj e) h
append_each-AllTyped i resolve good existing (value_cons v vs) out h e =
    let (w, done, more) = and_then-eq-ok (resolve v) _ e in
    append_each-AllTyped i resolve good (append existing (value_cons w no_values)) vs out
      (AllTyped-last i existing w h (good v w done)) more

resolve_array_item-HasType :
    (lib : Library) (i : Item) (v w : Value) → resolve_array_item lib i v ≡ ok w → HasType i w
unfolding resolve_array_item
resolve_array_item-HasType lib i v w h =
    elim (Bool-cases (is_string_array_item i && is_composite_value v)) [
      | inl bad ↦ absurd (ground arith)
      | inr fine ↦ elim (Bool-cases (wants_object i && not (is_object_value v))) [
        | inl bad ↦ absurd (ground arith)
        | inr good ↦ resolved lib i v w (ground arith)
      ]
    ]

pub spread-AllTyped :
    (lib : Library) (i : Item) (existing : Values) (v : Value) (out : Values)
    → AllTyped i existing
    → spread lib i existing v ≡ ok out
    → AllTyped i out
spread-AllTyped lib i existing (array vs) out h e = elim (Bool-cases (is_array_item i)) [
  | inl nested ↦
      append_each-AllTyped i (λ v. resolve_names lib i (as_array v))
        (λ v w done. resolved lib i (as_array v) w done) existing (inner_values vs) out h
        (ground arith)
  | inr plain ↦
      append_each-AllTyped i (resolve_array_item lib i)
        (λ v w done. resolve_array_item-HasType lib i v w done) existing vs out h (ground arith)
]
spread-AllTyped lib i existing v out h e = elim (Bool-cases (is_scalar_array_item i)) [
  | inl scalar_ ↦ absurd (ground arith)
  | inr composite ↦
      let (w, done, same) =
        and_then-eq-ok (resolve_array_item lib i v)
          (λ w. ok (append existing (value_cons w no_values))) (ground arith) in
      subst (AllTyped i) (ok-inj same)
        (AllTyped-last i existing w h (resolve_array_item-HasType lib i v w done))
]

EntriesTyped-put :
    (i : Item) (m : Members) (key : Text) (v : Value)
    → EntriesTyped i m
    → HasType i v
    → EntriesTyped i (put m key v)
unfolding put
EntriesTyped-put i no_members key v h t = entries_cons i key v no_members t h
EntriesTyped-put i (member_cons k w m) key v (entries_cons _ _ _ _ u h) t =
    elim (Bool-cases (text_eq k key)) [
      | inl same ↦ rw same (entries_cons i k v m t h)
      | inr other_ ↦ rw other_ (entries_cons i k w (put m key v) u (EntriesTyped-put i m key v h t))
    ]

abbrev scalar_or : Scalar → Option Scalar → Scalar
scalar_or u none = u
scalar_or u (some t) = t

-- A value of the scalar type that a map's values have, or of a text's where it names none.
value_scalar-HasType :
    (i : Item) (t : Scalar) (v : Value) → value_scalar i ≡ some t → HasScalarType t v → HasType i v
value_scalar-HasType no_item t v e h = untyped v
value_scalar-HasType (item (parameter info (scalar u))) t v e h =
    let same : u ≡ t = ap (λ o. scalar_or u o) e in
    scalar_typed info u v (subst (λ x. HasScalarType x v) (sym same) h)
value_scalar-HasType (item (parameter info (object_of fs))) t v e h = cc
value_scalar-HasType (item (parameter info (array_of i))) t v e h = cc
value_scalar-HasType (item (parameter info (map_of i))) t v e h = cc

put_pair-EntriesTyped :
    (lib : Library) (i : Item) (t : Scalar) (m out : Members) (pair : Text × Text × Bool)
    → value_scalar i ≡ some t
    → EntriesTyped i m
    → put_pair lib t m pair ≡ ok out
    → EntriesTyped i out
put_pair-EntriesTyped lib i t m out (k, v, false) e h done = cc
put_pair-EntriesTyped lib i t m out (k, v, true) e h done = elim (Bool-cases (is_empty k)) [
  | inl blank ↦ absurd (ground arith)
  | inr named ↦
      let (w, coerced, same) =
        and_then-eq-ok (coerce_scalar lib t v) (λ w. ok (put m k w)) (ground arith) in
      subst (EntriesTyped i) (ok-inj same) (
        EntriesTyped-put i m k w h
          (value_scalar-HasType i t w e (coerce_scalar-HasScalarType lib t v w coerced)))
]

put_pairs-EntriesTyped :
    (lib : Library) (i : Item) (t : Scalar) (tokens : List Text) (m out : Members)
    → value_scalar i ≡ some t
    → EntriesTyped i m
    → put_pairs lib t m tokens ≡ ok out
    → EntriesTyped i out
unfolding put_pairs
put_pairs-EntriesTyped lib i t [] m out e h done = subst (EntriesTyped i) (ok-inj done) h
put_pairs-EntriesTyped lib i t (token ∷ tokens) m out e h done =
    let (m', first, rest) = and_then-eq-ok (put_pair lib t m (cut b'=' token)) _ done in
    put_pairs-EntriesTyped lib i t tokens m' out e
      (put_pair-EntriesTyped lib i t m m' (cut b'=' token) e h first) rest

pub pairs_of-EntriesTyped :
    (lib : Library) (i : Item) (o : Option Scalar) (tokens : List Text) (out : Members)
    → value_scalar i ≡ o
    → pairs_of lib o tokens ≡ ok out
    → EntriesTyped i out
pairs_of-EntriesTyped lib i none tokens out e h = cc
pairs_of-EntriesTyped lib i (some t) tokens out e h =
    put_pairs-EntriesTyped lib i t tokens no_members out e (entries_nil i) h

-- The object that pairs make is of the parameter's type, where pairs are read at all.
abbrev PairsTyped : Parameter → Outcome Members → Type 0
PairsTyped p pairs = (m : Members) → pairs ≡ ok m → HasType (item p) (object m)

pub object_result-HasType :
    (lib : Library) (p : Parameter) (r : Recognized) (pairs : Outcome Members) (out : Value)
    → ((r ≡ no_json) → PairsTyped p pairs)
    → object_result lib p r pairs ≡ ok out
    → HasType (item p) out
object_result-HasType lib p (json_error e) pairs out t h = cc
object_result-HasType lib p (json_value (object m)) pairs out t h =
    resolved lib (item p) (object m) out h
object_result-HasType lib p (json_value v) pairs out t h = cc
object_result-HasType lib p no_json pairs out t h =
    let (m, done, same) = and_then-eq-ok pairs (λ m. ok (object m)) h in
    subst (HasType (item p)) (ok-inj same) (t refl m done)

pub once-ok : (slot : Slot) (r : Outcome Value) (v : Value) → once slot r ≡ ok v → r ≡ ok v
once-ok missing r v h = h
once-ok (present w) r v h = cc
