-- ===== src/Cli/Context/Check.antt =====
-- `CheckFlags` against a description of the flags that may stand together.
use aliyun_cli.Base.{Text, true, false, ◌≡◌, ◌↔◌, refl, ◌⊎◌, none, List, [], ◌∷◌, All, arith}
use aliyun_cli.Cli.Flag.{Flag, FlagRef}
use aliyun_cli.Cli.Flag.Laws.{FieldIsValid, check_fields_iff}
use aliyun_cli.Cli.FlagSet.{Flags, deref, FlagSet, get_flag_value}
use aliyun_cli.Cli.Context.{Session, first_conflict, check_flag, check_each, check_flags}

-- No value is found under the name.
abbrev pub HasNoValue : Flags → FlagSet → Text → Type 0
HasNoValue h fs name = (get_flag_value h fs name).1 ≡ false

-- A flag that was not given need not be; one that was given has well-formed fields, and none of
-- the flags that it excludes has a value.
abbrev pub FlagIsValid : Flags → FlagSet → Flag → Type 0
FlagIsValid h fs f =
    ((f.assigned ≡ false) × (f.required ≡ false))
    ⊎ ((f.assigned ≡ true) × All FieldIsValid f.fields × All (HasNoValue h fs) f.exclude_with)

first_conflict_iff :
    (h : Flags) (fs : FlagSet) (names : List Text)
    → (first_conflict h fs names ≡ none) ↔ All (HasNoValue h fs) names
unfolding first_conflict
first_conflict_iff h fs [] = (λ _. tt, λ _. refl)
first_conflict_iff h fs (n ∷ ns) = ground (arith, first_conflict_iff h fs ns)

check_flag_iff :
    (h : Flags) (fs : FlagSet) (f : Flag) → (check_flag h fs f ≡ none) ↔ FlagIsValid h fs f
unfolding check_flag
check_flag_iff h fs f =
    ground (arith, check_fields_iff f.name f.fields, first_conflict_iff h fs f.exclude_with)

check_each_iff :
    (h : Flags) (fs : FlagSet) (rs : List FlagRef)
    → (check_each h fs rs ≡ none) ↔ All (λ r. FlagIsValid h fs (deref h r)) rs
unfolding check_each
check_each_iff h fs [] = (λ _. tt, λ _. refl)
check_each_iff h fs (r ∷ rs) =
    ground (arith, check_flag_iff h fs (deref h r), check_each_iff h fs rs)

-- `CheckFlags` succeeds exactly when each flag in force is valid: a flag that was not given is not
-- required; one that was given has well-formed fields and excludes no flag that has a value.
pub check_flags_iff :
    (s : Session)
    → (check_flags s ≡ none)
      ↔ All (λ r. FlagIsValid s.heap s.ctx.flags (deref s.heap r)) s.ctx.flags.flags
unfolding check_flags
check_flags_iff s = check_each_iff s.heap s.ctx.flags s.ctx.flags.flags
