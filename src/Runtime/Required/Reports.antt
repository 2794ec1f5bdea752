-- ===== src/Runtime/Required/Reports.antt =====
-- aliyun-openapi-runtime/runtime/validate.go: nothing is reported as missing exactly if every required value
-- is there, at every place inside the arguments.
use aliyun_cli.Base.{ℕ, suc, Text, Bool, true, false, ◌&&◌, ◌≡◌, refl, List, [], ◌∷◌, ◌++◌}
use aliyun_cli.Runtime.{
  Value, array, object, Values, no_values, value_cons, Members, no_members, member_cons, Info,
  Parameter, parameter, Shape, object_of, array_of, map_of, item, Fields, no_fields, field_cons,
  info_of, Slot, missing, present, get,
}
use aliyun_cli.Runtime.Constraints.{Step, field_step, index_step, key_step, path_name, is_body}
use aliyun_cli.Runtime.Constraints.Places.{
  FieldOf, first_field, later_field, ElementOf, first_element, later_element, EntryOf, first_entry,
  later_entry,
}
use aliyun_cli.Runtime.Constraints.Refines.{Among}
use aliyun_cli.Runtime.Required.{
  is_empty_value, is_empty_slot, Missing, each_element, each_entry, report_inside, report_value,
  report_fields,
}

-- `SlotAt p s q t`: the slot `t`, which may be missing, stands at a place inside the slot `s`, and `q` is
-- the parameter of that place where `p` is that of the whole.
pub data SlotAt : Parameter → Slot → Parameter → Slot → Type 0 where
  at_itself : (p : Parameter) (s : Slot) → SlotAt p s p s
  at_field :
      (info : Info) (fs : Fields) (m : Members) (p q : Parameter) (t : Slot)
      → FieldOf p fs
      → SlotAt p (get m (info_of p).raw_name) q t
      → SlotAt (parameter info (object_of fs)) (present (object m)) q t
  at_element :
      (info : Info) (p : Parameter) (vs : Values) (v : Value) (q : Parameter) (t : Slot)
      → ElementOf v vs
      → SlotAt p (present v) q t
      → SlotAt (parameter info (array_of (item p))) (present (array vs)) q t
  at_entry :
      (info : Info) (p : Parameter) (m : Members) (v : Value) (q : Parameter) (t : Slot)
      → EntryOf v m
      → SlotAt p (present v) q t
      → SlotAt (parameter info (map_of (item p))) (present (object m)) q t

-- Where the parameter of a place is required, its slot has a value that is not empty.
abbrev pub AllFilled : Parameter → Slot → Type 0
AllFilled p s =
    (q : Parameter) (t : Slot)
    → SlotAt p s q t
    → (info_of q).doc_required ≡ true
    → is_empty_slot t ≡ false

nothing-append : {A : Type 0} (xs ys : List A) → xs ≡ [] → ys ≡ [] → xs ++ ys ≡ []
nothing-append [] ys h k = k
nothing-append (x ∷ xs) ys h k = cc

each_element-all :
    (report : ℕ → Value → Missing) (index : ℕ) (vs : Values)
    → ((i : ℕ) (v : Value) → ElementOf v vs → report i v ≡ [])
    → each_element report index vs ≡ []
unfolding each_element
each_element-all report index no_values all = refl
each_element-all report index (value_cons v vs) all =
    nothing-append _ _ (all index v (first_element v vs))
      (each_element-all report (suc index) vs (λ i w e. all i w (later_element w v vs e)))

each_entry-all :
    (report : Text → Value → Missing) (m : Members)
    → ((key : Text) (v : Value) → EntryOf v m → report key v ≡ [])
    → each_entry report m ≡ []
unfolding each_entry
each_entry-all report no_members all = refl
each_entry-all report (member_cons key v m) all =
    nothing-append _ _ (all key v (first_entry key v m))
      (each_entry-all report m (λ k w e. all k w (later_entry key w v m e)))

not_both : (a b : Bool) → (a ≡ true → b ≡ false) → (a && b) ≡ false
not_both true b h = h refl
not_both false b h = refl

not_required : (b : Bool) → (b ≡ true → true ≡ false) → b ≡ false
not_required true h = h refl
not_required false h = refl

mutual
  unfolding report_value

  inside_complete :
      (info : Info) (shape : Shape) (v : Value) (flag : Text) (path : List Step)
      → AllFilled (parameter info shape) (present v)
      → report_inside shape v flag path ≡ []
  inside_complete info (object_of fs) (object m) flag path all =
      fields_complete fs m flag path (λ p f q t a. all q t (at_field info fs m p q t f a))
  inside_complete info (array_of (item p)) (array vs) flag path all =
      each_element-all
        (λ index v. report_value p (present v) flag (path ++ (index_step index ∷ []))) 0 vs
        (λ i v e.
          value_complete p (present v) flag (path ++ (index_step i ∷ []))
            (λ q t a. all q t (at_element info p vs v q t e a)))
  inside_complete info (map_of (item p)) (object m) flag path all =
      each_entry-all (λ key v. report_value p (present v) flag (path ++ (key_step key ∷ []))) m
        (λ key v e.
          value_complete p (present v) flag (path ++ (key_step key ∷ []))
            (λ q t a. all q t (at_entry info p m v q t e a)))
  inside_complete info shape v flag path all = refl

  value_complete :
      (p : Parameter) (s : Slot) (flag : Text) (path : List Step)
      → AllFilled p s
      → report_value p s flag path ≡ []
  value_complete (parameter info shape) missing flag path all =
      rw
        (not_required info.doc_required
          (all (parameter info shape) missing (at_itself (parameter info shape) missing)))
        refl
  value_complete (parameter info shape) (present v) flag path all =
      let itself =
        all (parameter info shape) (present v) (at_itself (parameter info shape) (present v)) in
      rw (not_both info.doc_required (is_empty_value v) itself)
        (inside_complete info shape v flag path all)

  fields_complete :
      (fs : Fields) (m : Members) (flag : Text) (path : List Step)
      → ((p : Parameter) → FieldOf p fs → AllFilled p (get m (info_of p).raw_name))
      → report_fields fs m flag path ≡ []
  fields_complete no_fields m flag path all = refl
  fields_complete (field_cons (parameter info shape) fs) m flag path all =
      nothing-append _ _
        (value_complete (parameter info shape) (get m info.raw_name) flag
          (path ++ (field_step (path_name info) ∷ []))
          (all (parameter info shape) (first_field (parameter info shape) fs)))
        (fields_complete fs m flag path (λ p f. all p (later_field p (parameter info shape) fs f)))

-- The places of all parameters, save those of the body where that is raw, are filled.
abbrev pub ArgumentsFilled : List Parameter → Members → Bool → Type 0
ArgumentsFilled parameters args raw_body =
    (p : Parameter)
    → Among p parameters
    → (raw_body && is_body (info_of p).position) ≡ false
    → AllFilled p (get args (info_of p).raw_name)
