-- ===== src/Runtime/Constraints/Refines.antt =====
-- aliyun-openapi-runtime/runtime/constraints.go: the walk through an argument finds no violation exactly if
-- each value at each place of the argument meets the constraints of the parameter of that place.
use aliyun_cli.Base.{
  ℕ, suc, Text, Bool, false, ◌&&◌, ◌||◌, Bool-cases, ◌≡◌, refl, inl, inr, none, List, ◌∷◌,
}
use aliyun_cli.Runtime.{
  Value, array, object, Values, no_values, value_cons, Members, no_members, member_cons, Info,
  Parameter, parameter, Shape, scalar, object_of, array_of, map_of, item, Fields, no_fields,
  field_cons, info_of, Slot, missing, present, get,
}
use aliyun_cli.Runtime.Constraints.{
  Library, Context, Verdict, constraint_actual, below, below_field, skip_or_check, check_elements,
  check_entries, is_skipped, check_shape, check_value, check_fields, key_step, index_step, is_any,
  is_body,
}
use aliyun_cli.Runtime.Constraints.Places.{
  FieldOf, first_field, later_field, ElementOf, first_element, later_element, EntryOf, first_entry,
  later_entry, At, here, in_field, in_element, in_entry, FitsScalar, Meets,
}
use aliyun_cli.Runtime.Constraints.Scalars.{or_later-none, check_enum_iff, check_scalar_iff}

check_elements-all :
    (check : ℕ → Value → Verdict) (index : ℕ) (vs : Values)
    → ((i : ℕ) (v : Value) → ElementOf v vs → check i v ≡ none)
    → check_elements check index vs ≡ none
unfolding check_elements
check_elements-all check index no_values all = refl
check_elements-all check index (value_cons v vs) all = (or_later-none _ _).1 (
  all index v (first_element v vs),
  check_elements-all check (suc index) vs (λ i w e. all i w (later_element w v vs e)),
)

check_entries-all :
    (check : Text → Value → Verdict) (m : Members)
    → ((key : Text) (v : Value) → EntryOf v m → check key v ≡ none)
    → check_entries check m ≡ none
unfolding check_entries
check_entries-all check no_members all = refl
check_entries-all check (member_cons key v m) all = (or_later-none _ _).1 (
  all key v (first_entry key v m),
  check_entries-all check m (λ k w e. all k w (later_entry key w v m e)),
)

-- All values at all places inside a value meet the constraints.
abbrev pub AllMeet : Library → Parameter → Value → Type 0
AllMeet lib p v = (q : Parameter) (w : Value) → At p v q w → Meets lib q w

skip_or_check-none :
    (slot : Slot) (check : Value → Verdict)
    → ((v : Value) → slot ≡ present v → check v ≡ none)
    → skip_or_check slot check ≡ none
skip_or_check-none missing check h = refl
skip_or_check-none (present v) check h = h v refl

mutual
  unfolding check_value

  shape_complete :
      (lib : Library) (info : Info) (shape : Shape) (v : Value) (c : Context)
      → FitsScalar lib info shape v
      → AllMeet lib (parameter info shape) v
      → check_shape lib info shape v c ≡ none
  shape_complete lib info (scalar t) v c fits all = (check_scalar_iff lib c info t v).1 fits
  shape_complete lib info (object_of fs) (object m) c fits all =
      fields_complete lib fs m c (λ p v f g q w a. all q w (in_field info fs m p v q w f g a))
  shape_complete lib info (array_of (item p)) (array vs) c fits all =
      check_elements-all (λ index v. check_value lib p v (below c (index_step index))) 0 vs
        (λ i v e.
          value_complete lib p v (below c (index_step i))
            (λ q w a. all q w (in_element info p vs v q w e a)))
  shape_complete lib info (map_of (item p)) (object m) c fits all =
      check_entries-all (λ key v. check_value lib p v (below c (key_step key))) m
        (λ key v e.
          value_complete lib p v (below c (key_step key))
            (λ q w a. all q w (in_entry info p m v q w e a)))
  shape_complete lib info shape v c fits all = refl

  value_complete :
      (lib : Library) (p : Parameter) (v : Value) (c : Context)
      → AllMeet lib p v
      → check_value lib p v c ≡ none
  value_complete lib (parameter info shape) v c all = elim (Bool-cases (is_skipped shape v)) [
    | inl skipped ↦ rw skipped refl
    | inr checked ↦
        let m = all (parameter info shape) v (here (parameter info shape) v) checked in
        rw checked (
          (or_later-none _ _).1 (
            (check_enum_iff c info.enum (constraint_actual lib v)).1 m.0,
            shape_complete lib info shape v c m.1 all,
          ))
  ]

  fields_complete :
      (lib : Library) (fs : Fields) (m : Members) (c : Context)
      → ((p : Parameter) (v : Value)
          → FieldOf p fs
          → get m (info_of p).raw_name ≡ present v
          → AllMeet lib p v)
      → check_fields lib fs m c ≡ none
  fields_complete lib no_fields m c all = refl
  fields_complete lib (field_cons (parameter info shape) fs) m c all = (or_later-none _ _).1 (
    skip_or_check-none (get m info.raw_name) _ (λ v g.
        value_complete lib (parameter info shape) v (below_field c info)
          (all (parameter info shape) v (first_field (parameter info shape) fs) g)),
    fields_complete lib fs m c (λ p v f g. all p v (later_field p (parameter info shape) fs f) g),
  )

pub data Among : Parameter → List Parameter → Type 0 where
  among_first : (p : Parameter) (ps : List Parameter) → Among p (p ∷ ps)
  among_later : (p q : Parameter) (ps : List Parameter) → Among p ps → Among p (q ∷ ps)

-- A parameter that is checked at the top: not of type `any`, and not of the body where that is raw.
abbrev pub is_left_out : Bool → Parameter → Bool
is_left_out raw_body p = is_any p || (raw_body && is_body (info_of p).position)

-- The arguments of all parameters that are checked meet the constraints all the way down.
abbrev pub ArgumentsMeet : Library → List Parameter → Members → Bool → Type 0
ArgumentsMeet lib parameters args raw_body =
    (p : Parameter) (v : Value)
    → Among p parameters
    → is_left_out raw_body p ≡ false
    → get args (info_of p).raw_name ≡ present v
    → AllMeet lib p v
