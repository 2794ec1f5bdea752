-- ===== src/Cli/Command.antt =====
-- `executeInner` and its helpers of cli/command.go: which command an invocation reaches, and what
-- is done there. The callbacks (`Run`, `Help`, `AutoComplete`) are the program's own leaves: a
-- call of one, always the last step, is the `Action` that `execute_inner` returns.
pub mod Termination
pub mod RawArgs
use aliyun_cli.Base.{
  ℕ, suc, zero, Text, text_eq, txt, is_empty, has_prefix, cut, Bool, true, false, not, ◌&&◌, ◌||◌,
  ◌==◌, Option, none, some, List, [], ◌∷◌, ◌++◌, length, drop, get_or, if◌then◌else◌, ok, err,
  panic, timeout, bind_res, is_some,
}
use aliyun_cli.Cli.Error.{invalid_command, parse_failed, nil_pointer, Outcome}
use aliyun_cli.Cli.Flag.{FlagRef, is_none, rune_text}
use aliyun_cli.Cli.FlagSet.{Flags, deref, FlagSet, get, get_by_shorthand}
use aliyun_cli.Cli.Tree.{Command, info, Commands, no_commands, more, sub_commands, get_sub_command}
use aliyun_cli.Cli.Context.{Session, find_help, enter_command, check_flags}
use aliyun_cli.Cli.Parser.{Machine, new_parser, get_remains, remaining, read_next_arg, read_all}

-- What is done at the command that was reached.
pub data Action : Type 0 where
  run : Command → List Text → Action
  show_help : Command → List Text → Action
  auto_complete : Command → List Text → Action
  -- `ExecuteComplete`, with the lines that it prints
  complete : List Text → Action

-- `ExecuteComplete`
unfoldable pub complete_flags : Flags → List FlagRef → Text → List Text
complete_flags h [] current = []
complete_flags h (r ∷ rs) current =
    let f = deref h r in
    let rest = complete_flags h rs current in
    if f.hidden
    then rest
    else if not (has_prefix (b'-' ∷ b'-' ∷ f.name) current)
    then rest
    else (b'-' ∷ b'-' ∷ f.name) ∷ rest

unfoldable pub complete_commands : Commands → Text → List Text
complete_commands no_commands current = []
complete_commands (more c cs) current =
    let rest = complete_commands cs current in
    if (info c).hidden
    then rest
    else if not (has_prefix (info c).name current)
    then rest
    else (info c).name ∷ rest

unfoldable pub execute_complete : Command → Text → Session → List Text
execute_complete c current s =
    if has_prefix current (txt "-")
    then complete_flags s.heap s.ctx.flags.flags current
    else complete_commands (sub_commands c) current

unfoldable pub raw_flag : FlagSet → Text → Option FlagRef
raw_flag fs key =
    if has_prefix key (txt "--")
    then get fs (drop 2 key)
    else if length key == 2 && has_prefix key (txt "-")
    then get_by_shorthand fs (rune_text (get_or key 1 0))
    else none

unfoldable pub takes_value : Flags → Option FlagRef → Bool
takes_value h none = false
takes_value h (some r) = not (is_none (deref h r).assigned_mode)

-- `rawArgsRequestHelp`; the flag says that the token is the value of the flag before it.
unfoldable pub raw_args_loop : Flags → FlagSet → Bool → List Text → Bool
raw_args_loop h fs skip [] = false
raw_args_loop h fs true (token ∷ args) = raw_args_loop h fs false args
raw_args_loop h fs false (token ∷ args) =
    let (key, value, inline) = cut b'=' token in
    let rest = raw_args_loop h fs (takes_value h (raw_flag fs key) && not inline) args in
    if text_eq token (txt "--")
    then false
    else if text_eq token (txt "--help") || text_eq token (txt "-h")
    then true
    else rest

unfoldable pub raw_args_request_help : Session → List Text → Bool
raw_args_request_help s args = raw_args_loop s.heap s.ctx.flags false args

-- The loop over the remaining arguments: `help` among them asks for help.
unfoldable pub call_args : List Text → List Text × Bool
call_args [] = ([], false)
call_args (a ∷ args) =
    let (rest, help) = call_args args in
    if text_eq a (txt "help") then (rest, true) else (a ∷ rest, help)

abbrev pub set_help : Bool → Session → Session
set_help asked s = record s { ctx = record (s.ctx) { help = s.ctx.help || asked } }

unfoldable pub help_assigned : Session → Outcome Bool
help_assigned s = elim (find_help s.ctx.flags) [
  | none ↦ ok false
  | some r ↦ ok (deref s.heap r).assigned
]

-- From `ctx.completion != nil` on: the context is complete, and one callback is called.
unfoldable pub finish : Command → List Text → Session → Outcome Action
finish c args s = elim (s.ctx.completion) [
  | some completion ↦
      if (info c).has_auto_complete
      then ok (auto_complete c args)
      else ok (complete (execute_complete c completion.current s))
  | none ↦
      if s.ctx.help && not (info c).skip_default_help
      then ok (show_help c args)
      else if not s.ctx.help && not (info c).has_run
      then ok (show_help c args)
      else if (info c).has_run
      then ok (run c args)
      else panic nil_pointer
]

abbrev first_arg : Command → Text → List Text
first_arg c next = if not (is_empty next) && not (info c).keep_args then next ∷ [] else []

-- From `ctx.CheckFlags()` on.
unfoldable pub check_and_finish : Command → Text → List Text → Session → Outcome Action × Session
check_and_finish c next remain s = elim (check_flags s) [
  | some e ↦ (err e, s)
  | none ↦
      bind_res (help_assigned s, s)
        λ assigned s1.
          let (args, asked) = call_args remain in
          let s2 = set_help (assigned || asked) s1 in (finish c (first_arg c next ++ args) s2, s2)
]

abbrev name_failure : Outcome (List Text) × Machine → Outcome (List Text) × Session
name_failure (ok r, m) = (ok r, m.session)
name_failure (err e, m) = (err (parse_failed e), m.session)
name_failure (panic p, m) = (panic p, m.session)
name_failure (timeout, m) = (timeout, m.session)

-- The remaining arguments: parsed, or the command's own with `KeepArgs`.
unfoldable pub remain_args : Command → List Text → Machine → Outcome (List Text) × Session
remain_args c args m =
    if (info c).keep_args
    then (ok args, m.session)
    else name_failure (read_all (suc (remaining m)) [] m)

-- The branch for `RawArgs`.
unfoldable pub execute_raw : Command → List Text → Session → Outcome Action
execute_raw c args s =
    if (s.ctx.help || raw_args_request_help s args) && not (info c).skip_default_help
    then ok (show_help c args)
    else if (info c).has_run
    then ok (run c args)
    else panic nil_pointer

-- What the first argument that is read means at the command.
pub data Route : Type 0 where
  -- "help"
  ask_help : Route
  enter : Command → Route
  -- No sub-command of that name, and no `Run`.
  invalid : Route
  stay : Route

unfoldable pub route : Command → Text → Route
route c next =
    if text_eq next (txt "help") && not (info c).skip_default_help
    then ask_help
    else if is_empty next
    then stay
    else elim (get_sub_command c next) [
      | some sub ↦ enter sub
      | none ↦ if (info c).has_run then stay else invalid
    ]

abbrev pub entered : Session → Outcome Session → Outcome (Unit {0}) × Session
entered s (ok s') = (ok tt, s')
entered s (err e) = (err e, s)
entered s (panic p) = (panic p, s)
entered s timeout = (timeout, s)

-- `c.RawArgs && ctx.completion == nil`
abbrev pub raw_command : Command → Session → Bool
raw_command c s = (info c).raw_args && not (is_some s.ctx.completion)

-- `executeInner` on another command or other arguments.
abbrev pub Executor : Type 0
Executor = Command → List Text → Session → Outcome Action × Session

abbrev pub follow_route :
    Executor → Command → List Text → Text → Machine → Route → Outcome Action × Session
follow_route again c args next m ask_help = again c (get_remains m.parser) (set_help true m.session)
follow_route again c args next m (enter sub) =
    bind_res (entered m.session (enter_command sub m.session))
      (λ u s'. again sub (get_remains m.parser) s')
follow_route again c args next m invalid = (err (invalid_command next), m.session)
follow_route again c args next m stay =
    bind_res (remain_args c args m) (λ remain s'. check_and_finish c next remain s')

-- What the first argument decides.
abbrev pub inner_round :
    Executor → Command → List Text → Outcome (Text × Bool) × Machine → Outcome Action × Session
inner_round again c args (ok (next, rest), m) = follow_route again c args next m (route c next)
inner_round again c args (err e, m) = (err e, m.session)
inner_round again c args (panic p, m) = (panic p, m.session)
inner_round again c args (timeout, m) = (timeout, m.session)

abbrev pub start_machine : Command → List Text → Session → Machine
start_machine c args s = record {
  parser = new_parser args (info c).enable_unknown_flag;
  session = s;
}

-- `executeInner`, on fuel: `length args + 1` rounds are enough, since each round reads a token.
unfoldable pub execute_inner : ℕ → Executor
execute_inner zero c args s = (timeout, s)
execute_inner (suc fuel) c args s = elim (raw_command c s) [
  | true ↦ (execute_raw c args s, s)
  | false ↦
      inner_round (execute_inner fuel) c args
        (read_next_arg (suc (length args)) (start_machine c args s))
]
