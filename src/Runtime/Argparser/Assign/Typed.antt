-- ===== src/Runtime/Argparser/Assign/Typed.antt =====
-- aliyun-openapi-runtime/argparser/argparser.go: the argument that an occurrence of a flag gives has the
-- type of its parameter.
use aliyun_cli.Base.{
  Text, is_empty, true, false, ◌&&◌, Bool-cases, ◌≡◌, refl, sym, ap, subst, ◌∙◌, ◌≢◌, inl, inr,
  List, [], ◌∷◌, ok-inj, ok, and_then, and_then-eq-ok, arith,
}
use aliyun_cli.Runtime.{
  Value, text, array, Values, no_values, value_cons, Members, Scalar, string, Info, Parameter,
  parameter, Shape, scalar, object_of, array_of, map_of, Item, no_item, item, info_of, shape_of,
  Slot, missing, present, get, put, append,
}
use aliyun_cli.Runtime.Argparser.{
  Outcome, Library, first_is, coerce_scalar, resolve_wire, resolve_names,
}
use aliyun_cli.Runtime.Argparser.KeyPath.{parse_kv_pairs}
use aliyun_cli.Runtime.Argparser.Typed.{
  HasType, scalar_typed, array_typed, map_typed, AllTyped, all_nil, all_cons,
  coerce_scalar-HasScalarType, resolved,
}
use aliyun_cli.Runtime.Argparser.Assign.{
  Recognized, no_json, json_value, json_error, occurrence, try_flag_json, assign_scalar,
  is_string_array_item, value_scalar, parse_map_kv_pairs, existing_values, array_values,
  array_result, assign_at, assign,
}
use aliyun_cli.Runtime.Argparser.Assign.Elements.{
  get-put, AllTyped-last, spread-AllTyped, pairs_of-EntriesTyped, object_result-HasType, once-ok,
}

-- The words are one JSON value, or the parameter is a scalar or a map, whose other words are typed too.
abbrev pub IsRead : Library → Shape → List Text → Type 0
IsRead lib (scalar t) tokens = Unit
IsRead lib (map_of i) tokens = Unit
IsRead lib (object_of fs) tokens = try_flag_json lib tokens ≢ no_json
IsRead lib (array_of i) tokens = try_flag_json lib tokens ≢ no_json

array_values-AllTyped :
    (lib : Library) (i : Item) (existing : Values) (tokens : List Text) (r : Recognized)
    (out : Values)
    → r ≢ no_json
    → AllTyped i existing
    → array_values lib i existing tokens r ≡ ok out
    → AllTyped i out
array_values-AllTyped lib i existing tokens (json_error e) out json h done = cc
array_values-AllTyped lib i existing tokens (json_value v) out json h done =
    spread-AllTyped lib i existing v out h done
array_values-AllTyped lib i existing tokens no_json out json h done = absurd (json refl)

string_item-HasType : (i : Item) (s : Text) → is_string_array_item i ≡ true → HasType i (text s)
string_item-HasType no_item s h = cc
string_item-HasType (item (parameter info (scalar string))) s h =
    scalar_typed info string (text s) (s, refl)
string_item-HasType (item p) s h = cc

array_result-AllTyped :
    (lib : Library) (i : Item) (existing : Values) (tokens : List Text) (out : Values)
    → try_flag_json lib tokens ≢ no_json
    → AllTyped i existing
    → array_result lib i existing tokens ≡ ok out
    → AllTyped i out
unfolding array_result
array_result-AllTyped lib i existing tokens out json h done =
    elim (Bool-cases (is_string_array_item i && first_is b'{' (occurrence tokens))) [
      | inl raw ↦
          let same : append existing (value_cons (text (occurrence tokens)) no_values) ≡ out =
            ok-inj (sym (rw raw refl) ∙ done) in
          subst (AllTyped i) same (
            AllTyped-last i existing (text (occurrence tokens)) h
              (string_item-HasType i (occurrence tokens) (ground arith)))
      | inr other_ ↦
          array_values-AllTyped lib i existing tokens (try_flag_json lib tokens) out json h
            (sym (rw other_ refl) ∙ done)
    ]

existing-AllTyped :
    (info : Info) (i : Item) (slot : Slot)
    → ((v : Value) → slot ≡ present v → HasType (item (parameter info (array_of i))) v)
    → AllTyped i (existing_values slot)
existing-AllTyped info i missing h = all_nil i
existing-AllTyped info i (present v) h = existing_of info i v (h v refl)
  where
    existing_of :
        (info : Info) (i : Item) (v : Value)
        → HasType (item (parameter info (array_of i))) v
        → AllTyped i (existing_values (present v))
    existing_of info i v (array_typed _ _ vs t) = t

put_result :
    (dst out : Members) (key : Text) (i : Item) (r : Outcome Value)
    → ((v : Value) → r ≡ ok v → HasType i v)
    → and_then r (λ v. ok (put dst key v)) ≡ ok out
    → (v : Value) × (get out key ≡ present v) × HasType i v
put_result dst out key i r t h =
    let (v, done, same) = and_then-eq-ok r (λ v. ok (put dst key v)) h in
    (v, ap (λ m. get m key) (sym (ok-inj same)) ∙ get-put dst key v, t v done)

-- What stands under a key has the type of the parameter.
abbrev HoldsTyped : Members → Text → Parameter → Type 0
HoldsTyped dst key p = (v : Value) × (get dst key ≡ present v) × HasType (item p) v

assign_scalar-HoldsTyped :
    (lib : Library) (dst out : Members) (key : Text) (info : Info) (t : Scalar) (tokens : List Text)
    → assign_scalar lib dst key t tokens ≡ ok out
    → HoldsTyped out key (parameter info (scalar t))
assign_scalar-HoldsTyped lib dst out key info t [] h = cc
assign_scalar-HoldsTyped lib dst out key info t (raw ∷ []) h =
    put_result dst out key (item (parameter info (scalar t))) (coerce_scalar lib t raw)
      (λ v done. scalar_typed info t v (coerce_scalar-HasScalarType lib t raw v done)) h
assign_scalar-HoldsTyped lib dst out key info t (raw ∷ more ∷ tokens) h = cc

assign_at-HoldsTyped :
    (lib : Library) (dst out : Members) (key : Text) (p : Parameter) (tokens : List Text)
    → IsRead lib (shape_of p) tokens
    → ((v : Value) → get dst key ≡ present v → HasType (item p) v)
    → assign_at lib dst key p tokens ≡ ok out
    → HoldsTyped out key p
unfolding parse_map_kv_pairs
assign_at-HoldsTyped lib dst out key (parameter info (scalar t)) tokens read old h =
    assign_scalar-HoldsTyped lib dst out key info t tokens h
assign_at-HoldsTyped lib dst out key (parameter info (array_of i)) tokens read old h =
    let existing = existing_values (get dst key) in
    let (vs, done, same) =
      and_then-eq-ok (array_result lib i existing tokens) (λ vs. ok (put dst key (array vs))) h in
    (
      array vs,
      ap (λ m. get m key) (sym (ok-inj same)) ∙ get-put dst key (array vs),
      array_typed info i vs (
          array_result-AllTyped lib i existing tokens vs read
            (existing-AllTyped info i (get dst key) old) done),
    )
assign_at-HoldsTyped lib dst out key (parameter info (object_of fs)) tokens read old h =
    let p = parameter info (object_of fs) in
    put_result dst out key (item p) _
      (λ v done.
        object_result-HasType lib p (try_flag_json lib tokens) (parse_kv_pairs lib tokens fs) v
          (λ plain. absurd (read plain)) (once-ok (get dst key) _ v done))
      h
assign_at-HoldsTyped lib dst out key (parameter info (map_of i)) tokens read old h =
    let p = parameter info (map_of i) in
    put_result dst out key (item p) _
      (λ v done.
        object_result-HasType lib p (try_flag_json lib tokens) (parse_map_kv_pairs lib tokens i) v
          (λ plain m read_.
            map_typed info i m (pairs_of-EntriesTyped lib i (value_scalar i) tokens m refl read_))
          (once-ok (get dst key) _ v done))
      h

-- When an occurrence of a flag is folded into the arguments, the value that stands under the parameter's
-- wire name behind it has the type that the metadata of the parameter names, down to every field,
-- element and entry, if the argument that was there before had it. The words are any for a scalar
-- or a map, and one JSON value for an object or an array.
pub assign-HasType :
    (lib : Library) (dst out : Members) (p : Parameter) (tokens : List Text)
    → IsRead lib (shape_of p) tokens
    → ((v : Value) → get dst (info_of p).raw_name ≡ present v → HasType (item p) v)
    → assign lib dst p tokens ≡ ok out
    → (v : Value) × (get out (info_of p).raw_name ≡ present v) × HasType (item p) v
unfolding assign resolve_wire
assign-HasType lib dst out (parameter info shape) tokens read old h =
    elim (Bool-cases (is_empty info.raw_name)) [
      | inl blank ↦ absurd (ground arith)
      | inr named ↦
          assign_at-HoldsTyped lib dst out info.raw_name (parameter info shape) tokens read old
            (sym (rw named refl) ∙ h)
    ]

-- A JSON value that is resolved by a parameter has the type that the metadata of the parameter names, down
-- to every field, element and entry: the fields of an object that names fields are all known, and
-- its scalars are converted to the types that the metadata names.
pub resolve_names-HasType :
    (lib : Library) (i : Item) (given v : Value) → resolve_names lib i given ≡ ok v → HasType i v
resolve_names-HasType lib i given v h = resolved lib i given v h

text_is_no_array :
    (info : Info) (i : Item) (s : Text) → ¬ HasType (item (parameter info (array_of i))) (text s)
text_is_no_array info i s h = elim h [ ]

not_AllTyped :
    (info : Info) (i : Item) (s : Text)
    → ¬ AllTyped (item (parameter info (array_of i))) (value_cons (text s) no_values)
not_AllTyped info i s (all_cons _ _ _ t h) = text_is_no_array info i s t

not_HasType :
    (info inner : Info) (i : Item) (s : Text)
    → ¬ HasType
        (item (parameter info (array_of (item (parameter inner (array_of i))))))
        (array (value_cons (text s) no_values))
not_HasType info inner i s (array_typed _ _ _ h) = not_AllTyped inner i s h

-- For an array whose items are arrays, a word that is no JSON is accepted and becomes a text among the
-- elements, so that the argument does not have the type that the metadata names.
pub assign_nested_word_untyped :
    (lib : Library) (dst : Members) (info inner : Info) (i : Item) (raw : Text)
    → is_empty info.raw_name ≡ false
    → get dst info.raw_name ≡ missing
    → try_flag_json lib (raw ∷ []) ≡ no_json
    → let p = parameter info (array_of (item (parameter inner (array_of i)))) in
      let v = array (value_cons (text raw) no_values) in
      (assign lib dst p (raw ∷ []) ≡ ok (put dst info.raw_name v)) × ¬ HasType (item p) v
unfolding assign resolve_wire array_result append coerce_scalar
    aliyun_cli.Runtime.Argparser.Assign.append_scalars
assign_nested_word_untyped lib dst info inner i raw named fresh plain =
    (rw (named, fresh, plain) refl, not_HasType info inner i raw)
