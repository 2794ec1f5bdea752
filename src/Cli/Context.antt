-- ===== src/Cli/Context.antt =====
-- `Context` of cli/context.go: the flags that are in force, the unknown flags met so far and the
-- current command. (The writers, the error normaliser and plain getters and setters are left out.)
pub mod Check
pub mod Enter
pub mod Detect
pub mod Settled
use aliyun_cli.Base.{
  ℕ, Text, text_eq, txt, has_prefix, to_lower, to_upper, Bool, true, false, not, ◌&&◌, Option, none,
  some, List, [], ◌∷◌, ◌++◌, length, set, if◌then◌else◌, Res, ok, err, panic, and_then,
}
use aliyun_cli.Cli.Error.{
  CliError, missing_flag, exclusive_flags, invalid_flag, unknown_shorthand, Outcome,
}
use aliyun_cli.Cli.Flag.{Flag, FlagRef, empty_flag, assigned_none, rune_text, check_fields}
use aliyun_cli.Cli.FlagSet.{
  Flags, deref, FlagSet, new_flag_set, add, add_by_name, get, get_by_shorthand, get_flag_value,
  merge_with,
}
use aliyun_cli.Cli.Tree.{CommandInfo, Command, info}

-- `Completion` of cli/completion.go
pub record Completion : Type 0 where
  pub current : Text
  pub args : List Text

pub record Context : Type 0 where
  pub help : Bool
  pub flags : FlagSet
  pub unknown_flags : Option FlagSet
  pub command : Option Command
  pub completion : Option Completion
  pub has_plugin_sub_cmd : Bool
  pub has_plugin_sub_cmd_set : Bool

-- The context with the flag objects, and `os.Args[1:]`.
pub record Session : Type 0 where
  pub heap : Flags
  pub ctx : Context
  pub os_args : List Text

-- `NewHelpFlag`
abbrev pub help_flag : Flag
help_flag = record empty_flag { name = txt "help"; shorthand = b'h'; assigned_mode = assigned_none }

-- `HelpFlag`
abbrev pub find_help : FlagSet → Option FlagRef
find_help fs = get fs (txt "help")

-- The choice of `unknownFlags` in `EnterCommand` and `SetCommand`.
abbrev pub unknown_after : Bool → Option FlagSet → Option FlagSet
unknown_after false u = none
unknown_after true none = some new_flag_set
unknown_after true (some u) = some u

-- The command's own flags, with the persistent ones of the flags in force.
unfoldable pub merged_flags : Flags → CommandInfo → FlagSet → Outcome FlagSet
merged_flags h c flags =
    if c.disable_persistent_flags
    then merge_with h c.flags none
    else merge_with h c.flags (some flags)

-- `ctx.flags.Add(NewHelpFlag())`
unfoldable pub add_help : Flags → FlagSet → Outcome (FlagSet × Flags)
add_help h fs =
    let h' = h ++ (help_flag ∷ []) in and_then (add h' fs (length h)) (λ fs'. ok (fs', h'))

abbrev pub entered_context : Command → FlagSet → Context → Context
entered_context c fs ctx = record ctx {
  command = some c;
  unknown_flags = unknown_after (info c).enable_unknown_flag ctx.unknown_flags;
  flags = fs;
}

-- `EnterCommand`
unfoldable pub enter_command : Command → Session → Outcome Session
enter_command c s = and_then (merged_flags s.heap (info c) s.ctx.flags) λ fs.
    and_then (add_help s.heap fs)
      λ (fs', h'). ok (record s { heap = h'; ctx = entered_context c fs' s.ctx })

-- The loop of `CheckFlags` over `ExcludeWith`: the first of these flags that has a value.
unfoldable pub first_conflict : Flags → FlagSet → List Text → Option Text
first_conflict h fs [] = none
first_conflict h fs (es ∷ rest) =
    if (get_flag_value h fs es).1 then some es else first_conflict h fs rest

-- One round of the loop of `CheckFlags`; `none` is success.
unfoldable pub check_flag : Flags → FlagSet → Flag → Option CliError
check_flag h fs f =
    if not f.assigned
    then (if f.required then some (missing_flag f.name) else none)
    else elim (check_fields f.name f.fields) [
      | some e ↦ some e
      | none ↦ elim (first_conflict h fs f.exclude_with) [
        | some es ↦ some (exclusive_flags f.name es)
        | none ↦ none
      ]
    ]

unfoldable pub check_each : Flags → FlagSet → List FlagRef → Option CliError
check_each h fs [] = none
check_each h fs (r ∷ rs) = elim (check_flag h fs (deref h r)) [
  | some e ↦ some e
  | none ↦ check_each h fs rs
]

-- `CheckFlags`
unfoldable pub check_flags : Session → Option CliError
check_flags s = check_each s.heap s.ctx.flags s.ctx.flags.flags

abbrev drop_help : List Text → List Text
drop_help [] = []
drop_help (a ∷ args) = if text_eq a (txt "help") then args else a ∷ args

abbrev is_no_verb : Text → Bool
is_no_verb upper =
    not (text_eq upper (txt "GET"))
    && not (text_eq upper (txt "POST"))
    && not (text_eq upper (txt "PUT"))
    && not (text_eq upper (txt "DELETE"))

unfoldable pub plugin_words : List Text → Bool
plugin_words (product ∷ sub ∷ rest) =
    not (has_prefix product (txt "-"))
    && not (has_prefix sub (txt "-"))
    && text_eq (to_lower sub) sub
    && is_no_verb (to_upper sub)
plugin_words _ = false

-- `isPluginSubCommandArgs`
unfoldable pub is_plugin_sub_command_args : List Text → Bool
is_plugin_sub_command_args args = plugin_words (drop_help args)

-- `HasPluginSubCommand`: the answer is computed once and kept.
unfoldable pub has_plugin_sub_command : Session → Bool × Session
has_plugin_sub_command s =
    if s.ctx.has_plugin_sub_cmd_set
    then (s.ctx.has_plugin_sub_cmd, s)
    else (let answer = is_plugin_sub_command_args s.os_args in
        (
          answer,
          record s {
            ctx = record (s.ctx) { has_plugin_sub_cmd_set = true; has_plugin_sub_cmd = answer };
          },
        ))

-- The marks that a new unknown flag gets.
abbrev pub marked : Bool → Flag → Flag
marked repeated f = record f { dynamic_unknown = true; allow_repeated_unknown = repeated }

unfoldable pub take_unknown :
    Bool → Session → Outcome (FlagRef × FlagSet × Flags) → Outcome FlagRef × Session
take_unknown repeated s (ok (r, u, h)) = (
  ok r,
  record s {
    heap = set h r (marked repeated (deref h r));
    ctx = record (s.ctx) { unknown_flags = some u };
  },
)
take_unknown repeated s (err e) = (err e, s)
take_unknown repeated s (panic p) = (panic p, s)
take_unknown repeated s Res.timeout = (Res.timeout, s)

-- `AddByName` on the unknown flags, and the marks.
unfoldable pub add_unknown : Bool → FlagSet → Text → Session → Outcome FlagRef × Session
add_unknown repeated u name s = take_unknown repeated s (add_by_name s.heap u name)

-- The part that `detectFlag` and `detectFlagByShorthand` share: a name that no flag in force has.
unfoldable pub detect_unknown : FlagSet → Text → Session → Outcome FlagRef × Session
detect_unknown u name s =
    let (plugin, s') = has_plugin_sub_command s in
    if plugin
    then elim (get u name) [ some r ↦ (ok r, s') | none ↦ add_unknown true u name s' ]
    else add_unknown false u name s'

-- `detectFlag`
unfoldable pub detect_flag : Text → Session → Outcome FlagRef × Session
detect_flag name s = elim (get s.ctx.flags name) [
  | some r ↦ (ok r, s)
  | none ↦ elim s.ctx.unknown_flags [
    | some u ↦ detect_unknown u name s
    | none ↦ (err (invalid_flag name), s)
  ]
]

abbrev pub command_enables : Option Command → Bool
command_enables none = false
command_enables (some c) = (info c).enable_unknown_flag

-- `detectFlagByShorthand`
unfoldable pub detect_flag_by_shorthand : ℕ → Session → Outcome FlagRef × Session
detect_flag_by_shorthand ch s = elim (get_by_shorthand s.ctx.flags (rune_text ch)) [
  | some r ↦ (ok r, s)
  | none ↦ elim s.ctx.unknown_flags [
    | some u ↦
        if command_enables s.ctx.command
        then detect_unknown u (rune_text ch) s
        else (err (unknown_shorthand ch), s)
    | none ↦ (err (unknown_shorthand ch), s)
  ]
]
