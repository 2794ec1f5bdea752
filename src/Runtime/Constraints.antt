-- ===== src/Runtime/Constraints.antt =====
-- aliyun-openapi-runtime/runtime/constraints.go: arguments are checked against the constraints in the
-- metadata of their parameters. Rational numbers and regular expressions are parameters. A path is the
-- list of its steps.
pub mod Places
pub mod Scalars
pub mod Refines
use aliyun_cli.Base.{
  ℕ, suc, Text, txt, text_eq, is_empty, Bool, true, false, not, ◌&&◌, ◌||◌, ◌==◌, leb, ltb, Option,
  none, some, List, [], ◌∷◌, ◌++◌, map, length, if◌then◌else◌,
}
use aliyun_cli.Config.Profile.Overwrite.{digits}
use aliyun_cli.Runtime.{
  Value, nil, text, number, float, boolean, array, object, Values, no_values, value_cons, Members,
  no_members, member_cons, Scalar, string, integer, long, float_type, boolean_type, any, other,
  Info, Position, body, form_data, Parameter, parameter, Shape, scalar, object_of, array_of, map_of,
  item, Fields, no_fields, field_cons, info_of, Slot, missing, present, get,
}

pub record Library : Type 0 where
  -- `big.Rat.SetString` succeeds; `x.Cmp(y) < 0` of two such texts.
  pub is_rational : Text → Bool
  pub less : Text → Text → Bool
  -- `regexp.Compile` succeeds; `MatchString`.
  pub compiles : Text → Bool
  pub matches : Text → Text → Bool
  -- `fmt.Sprint`
  pub print : Value → Text

pub data Constraint : Type 0 where
  enum_constraint minimum_constraint maximum_constraint min_length_constraint max_length_constraint
        pattern_constraint :
      Constraint

pub data Step : Type 0 where
  field_step key_step : Text → Step
  index_step : ℕ → Step

-- `constraintContext`
pub record Context : Type 0 where
  pub context_parameter : Text
  pub context_flag : Text
  pub context_path : List Step

-- `ConstraintViolationError`
pub record Violation : Type 0 where
  pub context : Context
  pub constraint : Constraint
  pub actual : Text

abbrev pub Verdict : Type 0
Verdict = Option Violation

abbrev pub violation : Context → Constraint → Text → Verdict
violation c k actual = some (record { context = c; constraint = k; actual = actual })

abbrev pub or_later : Verdict → Verdict → Verdict
or_later none later = later
or_later (some v) later = some v

-- `constraintActual`
unfoldable pub constraint_actual : Library → Value → Text
constraint_actual lib (text s) = s
constraint_actual lib (number s) = s
constraint_actual lib (float s) = s
constraint_actual lib (boolean true) = txt "true"
constraint_actual lib (boolean false) = txt "false"
constraint_actual lib v = lib.print v

-- `constraintRat`, as the text of the number
abbrev pub rational_text : Library → Text → Option Text
rational_text lib s = if lib.is_rational s then some s else none

unfoldable pub constraint_rat : Library → Value → Option Text
constraint_rat lib (number s) = rational_text lib s
constraint_rat lib (float s) = rational_text lib s
constraint_rat lib v = none

unfoldable pub is_listed : Text → List Text → Bool
is_listed s [] = false
is_listed s (t ∷ allowed) = text_eq s t || is_listed s allowed

abbrev pub check_enum : Context → List Text → Text → Verdict
check_enum c [] actual = none
check_enum c (t ∷ allowed) actual =
    if is_listed actual (t ∷ allowed) then none else violation c enum_constraint actual

-- `validateNumericConstraints`
unfoldable pub check_minimum : Library → Context → Text → Text → Text → Verdict
check_minimum lib c minimum x actual =
    if not (is_empty minimum) && lib.is_rational minimum && lib.less x minimum
    then violation c minimum_constraint actual
    else none

unfoldable pub check_maximum : Library → Context → Text → Text → Text → Verdict
check_maximum lib c maximum x actual =
    if not (is_empty maximum) && lib.is_rational maximum && lib.less maximum x
    then violation c maximum_constraint actual
    else none

abbrev pub check_bounds : Library → Context → Info → Text → Option Text → Verdict
check_bounds lib c info actual none = none
check_bounds lib c info actual (some x) =
    or_later (check_minimum lib c info.minimum x actual) (check_maximum lib c info.maximum x actual)

-- `strconv.ParseUint(s, 10, 64)`
abbrev pub in_uint64 : Option ℕ → Option ℕ
in_uint64 none = none
in_uint64 (some n) = if leb n 18446744073709551615 then some n else none

unfoldable pub parse_uint : Text → Option ℕ
parse_uint [] = none
parse_uint (c ∷ s) = in_uint64 (digits 0 (c ∷ s))

-- `validateStringLengthConstraints`
abbrev pub check_min_length : Context → Option ℕ → Text → Verdict
check_min_length c none actual = none
check_min_length c (some minimum) actual =
    if ltb (length actual) minimum then violation c min_length_constraint actual else none

abbrev pub check_max_length : Context → Option ℕ → Text → Verdict
check_max_length c none actual = none
check_max_length c (some maximum) actual =
    if ltb maximum (length actual) then violation c max_length_constraint actual else none

unfoldable pub check_pattern : Library → Context → Text → Text → Verdict
check_pattern lib c pattern actual =
    if not (is_empty pattern) && lib.compiles pattern && not (lib.matches pattern actual)
    then violation c pattern_constraint actual
    else none

abbrev pub check_string : Library → Context → Info → Text → Verdict
check_string lib c info actual = or_later (check_min_length c (parse_uint info.min_length) actual) (
    or_later (check_max_length c (parse_uint info.max_length) actual)
      (check_pattern lib c info.pattern actual))

abbrev pub check_scalar : Library → Context → Info → Scalar → Value → Verdict
check_scalar lib c info integer v =
    check_bounds lib c info (constraint_actual lib v) (constraint_rat lib v)
check_scalar lib c info long v =
    check_bounds lib c info (constraint_actual lib v) (constraint_rat lib v)
check_scalar lib c info float_type v =
    check_bounds lib c info (constraint_actual lib v) (constraint_rat lib v)
check_scalar lib c info string v = check_string lib c info (constraint_actual lib v)
check_scalar lib c info boolean_type v = none
check_scalar lib c info any v = none
check_scalar lib c info other v = none

-- `pathName`
abbrev pub path_name : Info → Text
path_name info = if is_empty info.raw_name then info.name else info.raw_name

abbrev pub below : Context → Step → Context
below c step = record c { context_path = c.context_path ++ (step ∷ []) }

abbrev pub below_field : Context → Info → Context
below_field c info = record {
  context_parameter = if is_empty info.name then c.context_parameter else info.name;
  context_flag = c.context_flag;
  context_path = c.context_path ++ (field_step (path_name info) ∷ []);
}

abbrev pub skip_or_check : Slot → (Value → Verdict) → Verdict
skip_or_check missing check = none
skip_or_check (present v) check = check v

-- The loops over the elements of an array and the entries of a map.
unfoldable pub check_elements : (ℕ → Value → Verdict) → ℕ → Values → Verdict
check_elements check index no_values = none
check_elements check index (value_cons v vs) =
    or_later (check index v) (check_elements check (suc index) vs)

unfoldable pub check_entries : (Text → Value → Verdict) → Members → Verdict
check_entries check no_members = none
check_entries check (member_cons key v m) = or_later (check key v) (check_entries check m)

-- A value that is not checked: that of a type `any`, or `nil`.
abbrev pub is_skipped : Shape → Value → Bool
is_skipped (scalar any) v = true
is_skipped shape nil = true
is_skipped shape v = false

unfoldable mutual
  -- `validateConstraintValue`, behind the check of the enumeration
  pub check_shape : Library → Info → Shape → Value → Context → Verdict
  check_shape lib info (scalar t) v c = check_scalar lib c info t v
  check_shape lib info (object_of fs) (object m) c = check_fields lib fs m c
  check_shape lib info (array_of (item p)) (array vs) c =
      check_elements (λ index v. check_value lib p v (below c (index_step index))) 0 vs
  check_shape lib info (map_of (item p)) (object m) c =
      check_entries (λ key v. check_value lib p v (below c (key_step key))) m
  check_shape lib info shape v c = none

  pub check_value : Library → Parameter → Value → Context → Verdict
  check_value lib (parameter info shape) v c =
      let checked = check_shape lib info shape v c in
      if is_skipped shape v
      then none
      else or_later (check_enum c info.enum (constraint_actual lib v)) checked

  pub check_fields : Library → Fields → Members → Context → Verdict
  check_fields lib no_fields m c = none
  check_fields lib (field_cons (parameter info shape) fs) m c =
      or_later
        (skip_or_check (get m info.raw_name)
          (λ v. check_value lib (parameter info shape) v (below_field c info)))
        (check_fields lib fs m c)

abbrev pub is_body : Position → Bool
is_body body = true
is_body form_data = true
is_body position = false

-- `flagLabel`
abbrev pub dashed : ℕ → ℕ
dashed c = if c == b'_' then b'-' else c

unfoldable pub flag_label : Info → Text
flag_label info = label_of info.options info.name
  where
    label_of : List Text → Text → Text
    label_of [] name = txt "--" ++ map dashed name
    label_of (o ∷ options) name = o

abbrev pub is_any : Parameter → Bool
is_any (parameter info (scalar any)) = true
is_any p = false

abbrev pub top_context : Info → Context
top_context info = record {
  context_parameter = info.name;
  context_flag = flag_label info;
  context_path = field_step (path_name info) ∷ [];
}

-- `ValidateConstraints`
unfoldable pub validate_constraints : Library → List Parameter → Members → Bool → Verdict
validate_constraints lib [] args raw_body = none
validate_constraints lib (p ∷ parameters) args raw_body =
    let later = validate_constraints lib parameters args raw_body in
    if is_any p || (raw_body && is_body (info_of p).position)
    then later
    else or_later
        (skip_or_check (get args (info_of p).raw_name)
          (λ v. check_value lib p v (top_context (info_of p))))
        later
