-- ===== src/Tests/Parsing.antt =====
-- The parser and the context (cli/parser.go, cli/context.go) at concrete data.
use aliyun_cli.Base.{
  pos, ℕ, Text, txt, text_eq, has_prefix, one_of, split_at, true, false, ◌≡◌, refl, ◌↔◌, ◌⊎◌, inl,
  Option, none, some, List, [], ◌∷◌, All, ok, err, arith,
}
use aliyun_cli.Cli.Error.{name_duplicated}
use aliyun_cli.Cli.FlagSet.{deref, FlagSet, new_flag_set, index_get}
use aliyun_cli.Cli.FlagSet.Visible.{new_flag_set-IsSound}
use aliyun_cli.Cli.Tree.{CommandInfo, Command, command, no_commands}
use aliyun_cli.Cli.Context.{
  Context, Session, help_flag, enter_command, check_flags, detect_flag, has_plugin_sub_command,
}
use aliyun_cli.Cli.Context.Check.{FlagIsValid, check_flags_iff}
use aliyun_cli.Cli.Context.Enter.{Seen, enter_command_visible}
use aliyun_cli.Cli.Context.Detect.{detect_flag_twice}
use aliyun_cli.Cli.Parser.{Machine, new_parser, store, read_token, read_next, read_all}
use aliyun_cli.Cli.Parser.Step.{read_next_step}
use aliyun_cli.Cli.Parser.Plain.{at_position, read_all_plain}
use aliyun_cli.Cli.Parser.Assignment.{IsReady, Declares, inline, given, spellings_agree}
use aliyun_cli.Tests.Flags.{name_flag, name_set}

abbrev pub context_of : FlagSet → Option FlagSet → Context
context_of fs unknown = record {
  help = false;
  flags = fs;
  unknown_flags = unknown;
  command = none;
  completion = none;
  has_plugin_sub_cmd = false;
  has_plugin_sub_cmd_set = false;
}

abbrev pub session_of : Context → Session
session_of c = record { heap = name_flag ∷ []; ctx = c; os_args = [] }

abbrev pub machine_of : List Text → Machine
machine_of args = record {
  parser = new_parser args false;
  session = session_of (context_of name_set none);
}

abbrev words : List Text
words = txt "ecs" ∷ txt "list" ∷ []

-- A flag with its value between two arguments.
run_flag :
    (read_all 5 [] (machine_of (txt "ecs" ∷ txt "--name" ∷ txt "v" ∷ txt "list" ∷ []))).0 ≡ ok words
unfolding read_all read_next read_token aliyun_cli.Cli.Parser.parse_command_arg has_prefix
    detect_flag index_get text_eq aliyun_cli.Cli.Flag.set_is_assigned aliyun_cli.Cli.Flag.need_value
    aliyun_cli.Cli.Flag.assign
run_flag = refl

-- A value with a dash in front is the value of the flag that waits for it.
run_dash :
    (read_all 4 [] (machine_of (txt "--name" ∷ txt "-1" ∷ txt "list" ∷ []))).0
    ≡ ok (txt "list" ∷ [])
unfolding read_all read_next read_token aliyun_cli.Cli.Parser.parse_command_arg has_prefix
    detect_flag index_get text_eq aliyun_cli.Cli.Flag.set_is_assigned aliyun_cli.Cli.Flag.need_value
    aliyun_cli.Cli.Context.detect_flag_by_shorthand
    aliyun_cli.Cli.Parser.can_consume_dash_leading_value aliyun_cli.Cli.Parser.flag_origin
    aliyun_cli.Cli.Flag.assign
run_dash = refl

read_next_step_example : (read_next (machine_of words)).1.parser.args ≡ words
read_next_step_example = (read_next_step (machine_of words)).1

read_all_plain_example :
    read_all 3 [] (machine_of words) ≡ (ok words, at_position 2 (machine_of words))
unfolding has_prefix
read_all_plain_example =
    read_all_plain words 3 [] (machine_of words) ((refl, refl), ((refl, refl), tt)) refl refl
      (omega arith)

words_read : read_all 3 [] (machine_of words) ≡ (ok words, at_position 2 (machine_of words))
unfolding read_all read_next read_token aliyun_cli.Cli.Parser.parse_command_arg has_prefix
words_read = refl

check_flags_iff_example :
    (check_flags (session_of (context_of name_set none)) ≡ none)
    ↔ All (λ r. FlagIsValid (name_flag ∷ []) name_set (deref (name_flag ∷ []) r)) (0 ∷ [])
check_flags_iff_example = check_flags_iff (session_of (context_of name_set none))

name_declared : Declares (machine_of words) (txt "name") 0
unfolding index_get text_eq
name_declared = refl

name-IsReady : IsReady (machine_of words) (txt "name") 0
unfolding has_prefix split_at one_of
name-IsReady = record {
  named = record { filled = refl; no_dash = refl; unsplit = refl };
  declared = name_declared;
  allocated = omega arith;
  takes_one = inl refl;
  not_given = refl;
  no_value = refl;
  not_unknown = refl;
  no_flag = refl;
  no_origin_yet = refl;
}

spellings_agree_example :
    read_token (inline (txt "name") (txt "v")) (machine_of words)
    ≡ (ok [], store 0 (given name_flag (txt "v")) (machine_of words))
unfolding has_prefix
spellings_agree_example =
    (spellings_agree (machine_of words) (txt "name") (txt "v") 0 name-IsReady (refl, refl)).0

-- An unknown flag in a command that allows them.
abbrev open_session : Session
open_session = session_of (context_of name_set (some new_flag_set))

abbrev met : Session
met = (detect_flag (txt "x") open_session).1

x_met : detect_flag (txt "x") open_session ≡ (ok 1, met)
unfolding detect_flag index_get text_eq aliyun_cli.Cli.Context.detect_unknown has_plugin_sub_command
    aliyun_cli.Cli.Context.is_plugin_sub_command_args aliyun_cli.Cli.Context.plugin_words
    aliyun_cli.Cli.Context.add_unknown aliyun_cli.Cli.Context.take_unknown
    aliyun_cli.Cli.FlagSet.add_by_name aliyun_cli.Cli.FlagSet.add aliyun_cli.Cli.Flag.check_valid
    aliyun_cli.Cli.FlagSet.flag_by_name aliyun_cli.Cli.FlagSet.add_formations
    aliyun_cli.Cli.Flag.get_formations aliyun_cli.Cli.FlagSet.has_suffix
x_met = refl

detect_flag_twice_example : detect_flag (txt "x") met ≡ (err (name_duplicated (txt "x")), met)
unfolding index_get text_eq has_plugin_sub_command aliyun_cli.Cli.Context.is_plugin_sub_command_args
    aliyun_cli.Cli.Context.plugin_words
detect_flag_twice_example =
    detect_flag_twice open_session (txt "x") new_flag_set {r = 1} {s' = met} refl refl refl x_met

abbrev pub plain_info : Text → CommandInfo
plain_info name = record {
  name = name;
  usage = [];
  enable_unknown_flag = false;
  suggest_distance = pos 0;
  hidden = false;
  has_run = true;
  has_auto_complete = false;
  flags = new_flag_set;
  keep_args = false;
  raw_args = false;
  skip_default_help = false;
  disable_persistent_flags = false;
}

abbrev ecs : Command
ecs = command (plain_info (txt "ecs")) no_commands

abbrev within : Session
within = record (session_of (context_of name_set none)) {
  heap = name_flag ∷ help_flag ∷ [];
  ctx = record (context_of name_set none) {
    flags = record { flags = 1 ∷ []; index = (txt "--help", 1) ∷ (txt "-h", 1) ∷ [] };
    command = some ecs;
  };
}

ecs_entered : enter_command ecs (session_of (context_of name_set none)) ≡ ok within
unfolding enter_command aliyun_cli.Cli.Context.merged_flags aliyun_cli.Cli.FlagSet.merge_with
    aliyun_cli.Cli.FlagSet.add_all aliyun_cli.Cli.Context.add_help aliyun_cli.Cli.FlagSet.add
    aliyun_cli.Cli.Flag.check_valid aliyun_cli.Cli.FlagSet.add_formations
    aliyun_cli.Cli.Flag.get_formations index_get aliyun_cli.Cli.FlagSet.put_persistent
    aliyun_cli.Cli.FlagSet.index_put text_eq
ecs_entered = refl

enter_command_visible_example :
    ((◌≡◌ {A = ℕ} 1 1) × ((deref within.heap 1).name ≡ txt "help"))
    ⊎ Seen (name_flag ∷ []) (plain_info (txt "ecs")) name_set 1
unfolding index_get text_eq
enter_command_visible_example =
    enter_command_visible ecs (session_of (context_of name_set none)) (txt "--help") {s' = within}
      {r = 1} (new_flag_set-IsSound (name_flag ∷ [])) ecs_entered refl
