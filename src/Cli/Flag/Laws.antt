-- ===== src/Cli/Flag/Laws.antt =====
-- What a flag knows after it was seen and assigned (cli/flag.go, cli/flag_field.go).
use aliyun_cli.Base.{
  ℕ, Text, split_at, one_of, txt, true, false, not, ◌&&◌, ◌≤◌, ◌≡◌, ◌↔◌, refl, ◌⊎◌, inl, inr,
  Option, none, some, Bool-cases, List, [], ◌∷◌, ◌++◌, length, All, arith, ok, err, if◌then◌else◌,
}
use aliyun_cli.Cli.Error.{CliError, flag_not_assignable, flag_duplicated, Outcome}
use aliyun_cli.Cli.Field.{Field, check_field}
use aliyun_cli.Cli.Flag.{
  AssignedMode, is_repeatable, is_none, Flag, find_field, update_field, assign_found,
  set_is_assigned, assign_field, assign, check_fields,
}

-- What an assignment of `v` leaves in a flag: a repeatable flag collects the value behind the
-- earlier ones, any other keeps its list and its fields.
pub record Assigned (f : Flag) (v : Text) (g : Flag) : Type 0 where
  pub assignable : is_none f.assigned_mode ≡ false
  pub is_assigned : g.assigned ≡ true
  pub holds : g.value ≡ v
  pub collects :
      g.values ≡ (if is_repeatable f.assigned_mode then f.values ++ (v ∷ []) else f.values)
  pub keeps_fields : (is_repeatable f.assigned_mode ≡ true) ⊎ (g.fields ≡ f.fields)
  pub keeps_name : g.name ≡ f.name
  pub keeps_mode : g.assigned_mode ≡ f.assigned_mode

abbrev pub AssignResult : Flag → Text → Outcome Flag → Type 0
AssignResult f v (ok g) = Assigned f v g
AssignResult f v (err e) = (e ≡ flag_not_assignable f.name) × (is_none f.assigned_mode ≡ true)
AssignResult f v _ = ⊥

-- What `assign_field` may not change.
abbrev SameButFields : Flag → Flag → Type 0
SameButFields f g =
    (g.assigned ≡ f.assigned)
    × (g.value ≡ f.value)
    × (g.values ≡ f.values)
    × (g.name ≡ f.name)
    × (g.assigned_mode ≡ f.assigned_mode)

assign_found_keeps :
    (f : Flag) (o : Option ℕ) (v : Text) (e : CliError) → SameButFields f (assign_found f o v e).0
assign_found_keeps f none v e = ground arith
assign_found_keeps f (some i) v e = ground arith

assign_field_keeps : (f : Flag) (v : Text) → SameButFields f (assign_field f v).0
unfolding assign_field
assign_field_keeps f v = elim (Bool-cases (split_at (one_of (txt "=")) v).2) [
  | inl h ↦ rw h (assign_found_keeps f _ _ _)
  | inr h ↦ rw h (assign_found_keeps f _ _ _)
]

split_at-unsplit :
    (s : Text) → (split_at (one_of (txt "=")) s).2 ≡ false → (split_at (one_of (txt "=")) s).1 ≡ []
unfolding split_at
split_at-unsplit [] h = refl
split_at-unsplit (c ∷ s) h = ground (arith, split_at-unsplit s)

assign_by_mode :
    (f : Flag) (m : AssignedMode) (v : Text) → f.assigned_mode ≡ m → AssignResult f v (assign f v)
unfolding assign
assign_by_mode f _ v e = ground (
  arith,
  assign_field_keeps (record f { assigned = true; value = v; values = f.values ++ (v ∷ []) }) v,
)

-- A flag of mode `AssignedNone` refuses every value. Any other flag takes the value: it is then
-- assigned and holds the value; a repeatable flag collects it behind the earlier ones, any other
-- flag keeps its list and its fields; the name and the mode stay.
pub assign_result : (f : Flag) (v : Text) → AssignResult f v (assign f v)
assign_result f v = assign_by_mode f f.assigned_mode v refl

-- A value without `=` reaches the field whose key is empty as the empty text, whatever it is.
pub assign_field_loses_value :
    (f : Flag) (s : Text) (i : ℕ)
    → (split_at (one_of (txt "=")) s).2 ≡ false
    → find_field f.fields [] ≡ some i
    → assign_field f s ≡ (record f { fields = update_field f.fields i [] }, none)
unfolding assign_field
assign_field_loses_value f s i unsplit at_key = rw (unsplit, at_key, split_at-unsplit s unsplit)

-- The second appearance of a flag is accepted exactly when it is repeatable or was added as an
-- unknown flag of a plugin command.
abbrev pub AppearResult : Flag → Outcome Flag → Type 0
AppearResult f (ok g) =
    (g.assigned ≡ true)
    × ((f.assigned && not (is_repeatable f.assigned_mode) && not f.allow_repeated_unknown) ≡ false)
    × (g.name ≡ f.name)
    × (g.assigned_mode ≡ f.assigned_mode)
AppearResult f (err e) =
    (e ≡ flag_duplicated f.name)
    × ((f.assigned && not (is_repeatable f.assigned_mode) && not f.allow_repeated_unknown) ≡ true)
AppearResult f _ = ⊥

-- A flag that appears is refused as a duplicate exactly when it was assigned before, is not
-- repeatable and is no unknown flag of a plugin command; otherwise it is assigned from then on.
pub set_is_assigned_result : (f : Flag) → AppearResult f (set_is_assigned f)
unfolding set_is_assigned
set_is_assigned_result f = ground arith

-- A field is well formed: it is assigned if it is required, and at most once unless repeatable.
abbrev pub FieldIsValid : Field → Type 0
FieldIsValid f =
    ((f.required ≡ false) ⊎ (f.assigned ≡ true)) × ((f.repeatable ≡ true) ⊎ (length f.values ≤ 1))

check_field_iff : (f : Field) → (check_field f ≡ none) ↔ FieldIsValid f
unfolding check_field
check_field_iff f = ground arith

-- `checkFields` succeeds exactly when every field is well formed.
pub check_fields_iff :
    (name : Text) (fs : List Field) → (check_fields name fs ≡ none) ↔ All FieldIsValid fs
unfolding check_fields
check_fields_iff name [] = (λ _. tt, λ _. refl)
check_fields_iff name (f ∷ fs) = ground (arith, check_field_iff f, check_fields_iff name fs)
