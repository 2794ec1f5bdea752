-- ===== src/Runtime/Required.antt =====
-- aliyun-openapi-runtime/runtime/validate.go: which required parameters are missing.
pub mod Reports
use aliyun_cli.Base.{
  ℕ, suc, Text, is_empty, Bool, true, false, not, ◌&&◌, ◌||◌, List, [], ◌∷◌, ◌++◌, if◌then◌else◌,
}
use aliyun_cli.Runtime.{
  Value, nil, text, array, object, Values, no_values, value_cons, Members, no_members, member_cons,
  Parameter, parameter, Shape, object_of, array_of, map_of, item, Fields, no_fields, field_cons,
  info_of, Slot, missing, present, get,
}
use aliyun_cli.Runtime.Constraints.{
  Step, field_step, key_step, index_step, is_body, flag_label, path_name,
}

-- `isEmptyValue`
abbrev pub is_empty_value : Value → Bool
is_empty_value nil = true
is_empty_value (text s) = is_empty s
is_empty_value v = false

abbrev pub is_empty_slot : Slot → Bool
is_empty_slot missing = true
is_empty_slot (present v) = is_empty_value v

-- `ValidateRequired`: the flags that are missing, an error where there are any.
unfoldable pub validate_required : List Parameter → Members → Bool → List Text
validate_required [] args raw_body = []
validate_required (p ∷ parameters) args raw_body =
    let later = validate_required parameters args raw_body in
    let info = info_of p in
    if not info.required || (raw_body && is_body info.position)
    then later
    else if is_empty info.raw_name || is_empty_slot (get args info.raw_name)
    then flag_label info ∷ later
    else later

-- `missingRequired`: a flag and the path of what is missing below it.
abbrev pub Missing : Type 0
Missing = List (Text × List Step)

-- The loops over the elements of an array and the entries of a map.
unfoldable pub each_element : (ℕ → Value → Missing) → ℕ → Values → Missing
each_element report index no_values = []
each_element report index (value_cons v vs) = report index v ++ each_element report (suc index) vs

unfoldable pub each_entry : (Text → Value → Missing) → Members → Missing
each_entry report no_members = []
each_entry report (member_cons key v m) = report key v ++ each_entry report m

unfoldable mutual
  -- `validateDocRequiredValue`, of a value that is there
  pub report_inside : Shape → Value → Text → List Step → Missing
  report_inside (object_of fs) (object m) flag path = report_fields fs m flag path
  report_inside (array_of (item p)) (array vs) flag path =
      each_element (λ index v. report_value p (present v) flag (path ++ (index_step index ∷ []))) 0
        vs
  report_inside (map_of (item p)) (object m) flag path =
      each_entry (λ key v. report_value p (present v) flag (path ++ (key_step key ∷ []))) m
  report_inside shape v flag path = []

  -- `validateDocRequiredValue`
  pub report_value : Parameter → Slot → Text → List Step → Missing
  report_value (parameter info shape) missing flag path =
      if info.doc_required then (flag, path) ∷ [] else []
  report_value (parameter info shape) (present v) flag path =
      let inside = report_inside shape v flag path in
      if info.doc_required && is_empty_value v then (flag, path) ∷ [] else inside

  pub report_fields : Fields → Members → Text → List Step → Missing
  report_fields no_fields m flag path = []
  report_fields (field_cons (parameter info shape) fs) m flag path =
      report_value (parameter info shape) (get m info.raw_name) flag
        (path ++ (field_step (path_name info) ∷ []))
      ++ report_fields fs m flag path

-- `ValidateDocRequired`
unfoldable pub validate_doc_required : List Parameter → Members → Bool → Missing
validate_doc_required [] args raw_body = []
validate_doc_required (p ∷ parameters) args raw_body =
    let later = validate_doc_required parameters args raw_body in
    let info = info_of p in
    if raw_body && is_body info.position
    then later
    else report_value p (get args info.raw_name) (flag_label info)
        (field_step (path_name info) ∷ [])
      ++ later
