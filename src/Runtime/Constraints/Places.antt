-- ===== src/Runtime/Constraints/Places.antt =====
-- aliyun-openapi-runtime/runtime/constraints.go: the places inside an argument, and what it means that a
-- value meets the constraints of the parameter of its place; with no walk and no order.
use aliyun_cli.Base.{ℕ, ◌≤◌, Text, is_empty, true, false, ◌≡◌, ◌⊎◌, some, List, [], ◌∷◌, length}
use aliyun_cli.Runtime.{
  Value, array, object, Values, value_cons, Members, member_cons, string, integer, long, float_type,
  Info, Parameter, parameter, Shape, scalar, object_of, array_of, map_of, item, Fields, field_cons,
  info_of, present, get,
}
use aliyun_cli.Runtime.Constraints.{
  Library, constraint_actual, constraint_rat, parse_uint, is_skipped,
}

-- The text is one of those that the enumeration lists.
pub data Listed : Text → List Text → Type 0 where
  listed_here : (s : Text) (allowed : List Text) → Listed s (s ∷ allowed)
  listed_later : (s t : Text) (allowed : List Text) → Listed s allowed → Listed s (t ∷ allowed)

pub data FieldOf : Parameter → Fields → Type 0 where
  first_field : (p : Parameter) (fs : Fields) → FieldOf p (field_cons p fs)
  later_field : (p q : Parameter) (fs : Fields) → FieldOf p fs → FieldOf p (field_cons q fs)

pub data ElementOf : Value → Values → Type 0 where
  first_element : (v : Value) (vs : Values) → ElementOf v (value_cons v vs)
  later_element : (v w : Value) (vs : Values) → ElementOf v vs → ElementOf v (value_cons w vs)

pub data EntryOf : Value → Members → Type 0 where
  first_entry : (key : Text) (v : Value) (m : Members) → EntryOf v (member_cons key v m)
  later_entry :
      (key : Text) (v w : Value) (m : Members) → EntryOf v m → EntryOf v (member_cons key w m)

-- `At p v q w`: the value `w` stands at a place inside the value `v`, and `q` is the parameter of that
-- place where `p` is that of the whole.
pub data At : Parameter → Value → Parameter → Value → Type 0 where
  here : (p : Parameter) (v : Value) → At p v p v
  in_field :
      (info : Info) (fs : Fields) (m : Members) (p : Parameter) (v : Value) (q : Parameter)
      (w : Value)
      → FieldOf p fs
      → get m (info_of p).raw_name ≡ present v
      → At p v q w
      → At (parameter info (object_of fs)) (object m) q w
  in_element :
      (info : Info) (p : Parameter) (vs : Values) (v : Value) (q : Parameter) (w : Value)
      → ElementOf v vs
      → At p v q w
      → At (parameter info (array_of (item p))) (array vs) q w
  in_entry :
      (info : Info) (p : Parameter) (m : Members) (v : Value) (q : Parameter) (w : Value)
      → EntryOf v m
      → At p v q w
      → At (parameter info (map_of (item p))) (object m) q w

-- A number lies between the bounds; a bound that is missing or no number is passed over.
abbrev pub InBounds : Library → Info → Text → Type 0
InBounds lib info x =
    (is_empty info.minimum ≡ false
      → lib.is_rational info.minimum ≡ true
      → lib.less x info.minimum ≡ false)
    × (is_empty info.maximum ≡ false
        → lib.is_rational info.maximum ≡ true
        → lib.less info.maximum x ≡ false)

-- A text has an allowed length and matches the pattern, if that is a regular expression.
abbrev pub FitsText : Library → Info → Text → Type 0
FitsText lib info s =
    ((n : ℕ) → parse_uint info.min_length ≡ some n → n ≤ length s)
    × ((n : ℕ) → parse_uint info.max_length ≡ some n → length s ≤ n)
    × (is_empty info.pattern ≡ false
        → lib.compiles info.pattern ≡ true
        → lib.matches info.pattern s ≡ true)

abbrev pub FitsScalar : Library → Info → Shape → Value → Type 0
FitsScalar lib info (scalar integer) v =
    (x : Text) → constraint_rat lib v ≡ some x → InBounds lib info x
FitsScalar lib info (scalar long) v =
    (x : Text) → constraint_rat lib v ≡ some x → InBounds lib info x
FitsScalar lib info (scalar float_type) v =
    (x : Text) → constraint_rat lib v ≡ some x → InBounds lib info x
FitsScalar lib info (scalar string) v = FitsText lib info (constraint_actual lib v)
FitsScalar lib info shape v = Unit

-- A value meets the constraints of one parameter: `nil` and what is of type `any` do, and others are
-- listed, if there is a list, and fit the scalar constraints.
abbrev pub Meets : Library → Parameter → Value → Type 0
Meets lib (parameter info shape) v =
    is_skipped shape v ≡ false
    → ((info.enum ≡ []) ⊎ Listed (constraint_actual lib v) info.enum) × FitsScalar lib info shape v
