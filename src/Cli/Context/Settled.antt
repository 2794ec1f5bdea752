-- ===== src/Cli/Context/Settled.antt =====
-- The operations on the context need no fuel.
use aliyun_cli.Base.{
  ℕ, Text, ◌++◌, ◌∷◌, [], Bool, true, false, none, some, Option-cases, inl, inr, length, IsSettled,
  ok-IsSettled, and_then-IsSettled, arith,
}
use aliyun_cli.Cli.Flag.{rune_text}
use aliyun_cli.Cli.FlagSet.{Flags, FlagSet}
use aliyun_cli.Cli.FlagSet.Settled.{add-IsSettled, add_by_name-IsSettled, merge_with-IsSettled}
use aliyun_cli.Cli.Tree.{CommandInfo, Command, info}
use aliyun_cli.Cli.Context.{
  Session, merged_flags, add_help, enter_command, has_plugin_sub_command, take_unknown, add_unknown,
  detect_unknown, detect_flag, detect_flag_by_shorthand, help_flag,
}

merged_flags-IsSettled :
    (h : Flags) (c : CommandInfo) (fs : FlagSet) → IsSettled (merged_flags h c fs)
unfolding merged_flags
merged_flags-IsSettled h c fs =
    ground (arith, merge_with-IsSettled h c.flags none, merge_with-IsSettled h c.flags (some fs))

add_help-IsSettled : (h : Flags) (fs : FlagSet) → IsSettled (add_help h fs)
unfolding add_help
add_help-IsSettled h fs = ground (arith, add-IsSettled (h ++ (help_flag ∷ [])) fs (length h))

pub enter_command-IsSettled : (c : Command) (s : Session) → IsSettled (enter_command c s)
unfolding enter_command
enter_command-IsSettled c s =
    and_then-IsSettled _ _ (merged_flags-IsSettled s.heap (info c) s.ctx.flags)
      (λ fs. and_then-IsSettled _ _ (add_help-IsSettled s.heap fs) (λ made. ok-IsSettled _))

add_unknown-IsSettled :
    (b : Bool) (u : FlagSet) (name : Text) (s : Session) → IsSettled (add_unknown b u name s).0
unfolding add_unknown take_unknown
add_unknown-IsSettled b u name s = ground (arith, add_by_name-IsSettled s.heap u name)

pub detect_unknown-IsSettled :
    (u : FlagSet) (name : Text) (s : Session) → IsSettled (detect_unknown u name s).0
unfolding detect_unknown
detect_unknown-IsSettled u name s =
    let s' = (has_plugin_sub_command s).1 in
    ground (arith, add_unknown-IsSettled true u name s', add_unknown-IsSettled false u name s')

pub detect_flag-IsSettled : (name : Text) (s : Session) → IsSettled (detect_flag name s).0
unfolding detect_flag
detect_flag-IsSettled name s = elim (Option-cases s.ctx.unknown_flags) [
  | inl e ↦ ground arith
  | inr (u, e) ↦ ground (arith, detect_unknown-IsSettled u name s)
]

pub detect_flag_by_shorthand-IsSettled :
    (ch : ℕ) (s : Session) → IsSettled (detect_flag_by_shorthand ch s).0
unfolding detect_flag_by_shorthand
detect_flag_by_shorthand-IsSettled ch s = elim (Option-cases s.ctx.unknown_flags) [
  | inl e ↦ ground arith
  | inr (u, e) ↦ ground (arith, detect_unknown-IsSettled u (rune_text ch) s)
]
