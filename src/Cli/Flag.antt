-- ===== src/Cli/Flag.antt =====
-- `Flag` of cli/flag.go. Flags are objects that several flag sets share: a `FlagRef` is the
-- pointer `*Flag`, an index into the list of all flags that were made. (The help texts, `Category`
-- and the unused hook `Validate` are left out. A mode that is none of the four constants is
-- `assigned_other`.)
pub mod Laws
use aliyun_cli.Base.{
  ℕ, Text, text_eq, is_empty, one_of, split_at, txt, ◌==◌, Bool, true, false, not, ◌&&◌, ltb, leb,
  ◌||◌, Option, none, some, List, [], ◌∷◌, ◌++◌, map, if◌then◌else◌, ok, err, panic,
}
use aliyun_cli.Cli.Error.{
  CliError, flag_duplicated, flag_not_assignable, flag_needs_value, bad_field, bad_value,
  bad_format, Panic, unexpected_mode, fields_need_repeatable, Outcome,
}
use aliyun_cli.Cli.Field.{Field, assign_to, check_field}

pub data AssignedMode : Type 0 where
  assigned_none assigned_default assigned_once assigned_repeatable assigned_other : AssignedMode

abbrev pub is_repeatable : AssignedMode → Bool
is_repeatable assigned_repeatable = true
is_repeatable _ = false

abbrev pub is_none : AssignedMode → Bool
is_none assigned_none = true
is_none _ = false

abbrev pub is_once : AssignedMode → Bool
is_once assigned_once = true
is_once _ = false

-- The shorthand 0 stands for none.
pub record Flag : Type 0 where
  pub name : Text
  pub shorthand : ℕ
  pub default_value : Text
  pub required : Bool
  pub aliases : List Text
  pub assigned_mode : AssignedMode
  pub persistent : Bool
  pub hidden : Bool
  pub fields : List Field
  pub exclude_with : List Text
  pub allow_repeated_unknown : Bool
  pub dynamic_unknown : Bool
  pub assigned : Bool
  pub value : Text
  pub values : List Text

abbrev pub FlagRef : Type 0
FlagRef = ℕ

-- `&Flag{}`
abbrev pub empty_flag : Flag
empty_flag = record {
  name = [];
  shorthand = 0;
  default_value = [];
  required = false;
  aliases = [];
  assigned_mode = assigned_default;
  persistent = false;
  hidden = false;
  fields = [];
  exclude_with = [];
  allow_repeated_unknown = false;
  dynamic_unknown = false;
  assigned = false;
  value = [];
  values = [];
}

-- `string(r)` for a rune: its code point. (A rune that is no code point gives U+FFFD.)
abbrev pub rune_text : ℕ → Text
rune_text r = if (leb 0xD800 r && leb r 0xDFFF) || ltb 0x10FFFF r then 0xFFFD ∷ [] else r ∷ []

-- `GetValue` on a flag that is not nil
unfoldable pub get_value : Flag → Text × Bool
get_value f =
    if f.assigned
    then (f.value, true)
    else if f.required
    then (f.default_value, false)
    else ([], false)

-- `getField`, as the field's place in `Fields`
unfoldable pub find_field : List Field → Text → Option ℕ
find_field [] key = none
find_field (f ∷ fs) key =
    if text_eq f.key key
    then some 0
    else elim (find_field fs key) [ none ↦ none | some i ↦ some (ℕ.suc i) ]

-- `GetStringOrDefault` on a flag that is not nil
unfoldable pub get_string_or_default : Flag → Text → Text
get_string_or_default f def = if f.assigned then f.value else def

-- `GetFormations`: "--name", "--alias", "-c"
unfoldable pub get_formations : Flag → List Text
get_formations f =
    (if is_empty f.name then [] else (b'-' ∷ b'-' ∷ f.name) ∷ [])
    ++ (map (λ s. b'-' ∷ b'-' ∷ s) f.aliases
        ++ (if f.shorthand == 0 then [] else (b'-' ∷ rune_text f.shorthand) ∷ []))

-- `setIsAssigned`
unfoldable pub set_is_assigned : Flag → Outcome Flag
set_is_assigned f =
    if not f.assigned
    then ok (record f { assigned = true })
    else if is_repeatable f.assigned_mode
    then ok f
    else if f.allow_repeated_unknown
    then ok (record f { value = []; values = [] })
    else err (flag_duplicated f.name)

-- `needValue`
unfoldable pub need_value : Flag → Outcome Bool
need_value f = elim f.assigned_mode [
  | assigned_none ↦ ok false
  | assigned_default ↦ ok (is_empty f.value)
  | assigned_once ↦ ok (is_empty f.value)
  | assigned_repeatable ↦ ok true
  | assigned_other ↦ panic unexpected_mode
]

-- `checkValid`: `none` is success.
unfoldable pub check_valid : Flag → Option Panic
check_valid f = elim f.fields [
  | [] ↦ none
  | _ ↦ if is_repeatable f.assigned_mode then none else some (fields_need_repeatable f.name)
]

-- `validate`: `none` is success.
unfoldable pub validate : Flag → Option CliError
validate f =
    if is_once f.assigned_mode && is_empty f.value then some (flag_needs_value f.name) else none

abbrev pub update_field : List Field → ℕ → Text → List Field
update_field [] i v = []
update_field (f ∷ fs) ℕ.zero v = assign_to f v ∷ fs
update_field (f ∷ fs) (ℕ.suc i) v = f ∷ update_field fs i v

abbrev assign_found : Flag → Option ℕ → Text → CliError → Flag × Option CliError
assign_found f (some i) v e = (record f { fields = update_field f.fields i v }, none)
assign_found f none v e = (f, some e)

-- `assignField`: the flag afterwards, and the error if there is one
unfoldable pub assign_field : Flag → Text → Flag × Option CliError
assign_field f s =
    let (k, v, found) = split_at (one_of (txt "=")) s in
    if found
    then assign_found f (find_field f.fields k) v (bad_field f.name k)
    else assign_found f (find_field f.fields []) v (bad_value f.name)

-- `assign`. The error of `assignField` is dropped, as in the source.
unfoldable pub assign : Flag → Text → Outcome Flag
assign f v =
    if is_none f.assigned_mode
    then err (flag_not_assignable f.name)
    else (let g = record f { assigned = true; value = v } in
        if is_repeatable f.assigned_mode
        then (let h = record g { values = f.values ++ (v ∷ []) } in
            elim f.fields [ [] ↦ ok h | _ ↦ ok (assign_field h v).0 ])
        else ok g)

-- The loop of `checkFields`: the first field that is not well formed.
unfoldable pub check_fields : Text → List Field → Option CliError
check_fields name [] = none
check_fields name (f ∷ fs) = elim (check_field f) [
  | some e ↦ some (bad_format name e)
  | none ↦ check_fields name fs
]
