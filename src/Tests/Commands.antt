-- ===== src/Tests/Commands.antt =====
-- `executeInner` (cli/command.go) at concrete data.
use aliyun_cli.Base.{
  IsSettled, txt, text_eq, has_prefix, one_of, cut, split_at, to_lower, to_upper, true, false, ◌≡◌,
  refl, ◌↔◌, none, [], ◌∷◌, ok, err, arith,
}
use aliyun_cli.Cli.Error.{invalid_command}
use aliyun_cli.Cli.Tree.{Command, command, no_commands, more}
use aliyun_cli.Cli.Context.{Session}
use aliyun_cli.Cli.Command.{run, show_help, raw_args_request_help, execute_inner}
use aliyun_cli.Cli.Command.Termination.{execute_inner-IsSettled}
use aliyun_cli.Cli.Command.RawArgs.{AsksHelp, raw_args_request_help_iff}
use aliyun_cli.Tests.Flags.{name_set}
use aliyun_cli.Tests.Parsing.{context_of, session_of, plain_info}

abbrev list_command : Command
list_command = command (plain_info (txt "list")) no_commands

abbrev root : Command
root =
    command (record (plain_info (txt "aliyun")) { has_run = false }) (more list_command no_commands)

abbrev start : Session
start = session_of (context_of name_set none)

-- The sub-command runs with the arguments behind its name.
run_list :
    (execute_inner 4 root (txt "list" ∷ txt "a" ∷ []) start).0
    ≡ ok (run list_command (txt "a" ∷ []))
unfolding execute_inner aliyun_cli.Cli.Parser.read_next_arg aliyun_cli.Cli.Parser.read_next
    aliyun_cli.Cli.Parser.read_token aliyun_cli.Cli.Parser.parse_command_arg has_prefix
    aliyun_cli.Cli.Command.route text_eq aliyun_cli.Cli.Tree.find_command
    aliyun_cli.Cli.Context.enter_command aliyun_cli.Cli.Context.merged_flags
    aliyun_cli.Cli.FlagSet.merge_with aliyun_cli.Cli.FlagSet.add_all aliyun_cli.Cli.Context.add_help
    aliyun_cli.Cli.FlagSet.add aliyun_cli.Cli.Flag.check_valid aliyun_cli.Cli.FlagSet.add_formations
    cut one_of split_at to_lower to_upper aliyun_cli.Cli.Command.call_args
    aliyun_cli.Cli.Command.check_and_finish aliyun_cli.Cli.Command.complete_commands
    aliyun_cli.Cli.Command.complete_flags aliyun_cli.Cli.Command.execute_complete
    aliyun_cli.Cli.Command.execute_raw aliyun_cli.Cli.Command.finish
    aliyun_cli.Cli.Command.help_assigned aliyun_cli.Cli.Command.raw_args_loop raw_args_request_help
    aliyun_cli.Cli.Command.raw_flag aliyun_cli.Cli.Command.remain_args
    aliyun_cli.Cli.Command.takes_value aliyun_cli.Cli.Context.add_unknown
    aliyun_cli.Cli.Context.check_each aliyun_cli.Cli.Context.check_flag
    aliyun_cli.Cli.Context.check_flags aliyun_cli.Cli.Context.detect_flag
    aliyun_cli.Cli.Context.detect_flag_by_shorthand aliyun_cli.Cli.Context.detect_unknown
    aliyun_cli.Cli.Context.first_conflict aliyun_cli.Cli.Context.has_plugin_sub_command
    aliyun_cli.Cli.Context.is_plugin_sub_command_args aliyun_cli.Cli.Context.plugin_words
    aliyun_cli.Cli.Context.take_unknown aliyun_cli.Cli.Field.check_field aliyun_cli.Cli.Flag.assign
    aliyun_cli.Cli.Flag.assign_field aliyun_cli.Cli.Flag.check_fields aliyun_cli.Cli.Flag.find_field
    aliyun_cli.Cli.Flag.get_formations aliyun_cli.Cli.Flag.get_value aliyun_cli.Cli.Flag.need_value
    aliyun_cli.Cli.Flag.set_is_assigned aliyun_cli.Cli.Flag.validate
    aliyun_cli.Cli.FlagSet.add_by_name aliyun_cli.Cli.FlagSet.contains_ref
    aliyun_cli.Cli.FlagSet.flag_by_name aliyun_cli.Cli.FlagSet.get_flag_value
    aliyun_cli.Cli.FlagSet.has_suffix aliyun_cli.Cli.FlagSet.index_get
    aliyun_cli.Cli.FlagSet.index_put aliyun_cli.Cli.FlagSet.put
    aliyun_cli.Cli.FlagSet.put_formations aliyun_cli.Cli.FlagSet.put_persistent
    aliyun_cli.Cli.Parser.can_consume_dash_leading_value aliyun_cli.Cli.Parser.flag_origin
    aliyun_cli.Cli.Parser.is_dash_leading_value_candidate aliyun_cli.Cli.Parser.read_all
    aliyun_cli.Cli.Parser.split_string_with_prefix
run_list = refl

-- `help` at the end asks for help.
help_list :
    (execute_inner 4 root (txt "list" ∷ txt "help" ∷ []) start).0 ≡ ok (show_help list_command [])
unfolding execute_inner aliyun_cli.Cli.Parser.read_next_arg aliyun_cli.Cli.Parser.read_next
    aliyun_cli.Cli.Parser.read_token aliyun_cli.Cli.Parser.parse_command_arg has_prefix
    aliyun_cli.Cli.Command.route text_eq aliyun_cli.Cli.Tree.find_command
    aliyun_cli.Cli.Context.enter_command aliyun_cli.Cli.Context.merged_flags
    aliyun_cli.Cli.FlagSet.merge_with aliyun_cli.Cli.FlagSet.add_all aliyun_cli.Cli.Context.add_help
    aliyun_cli.Cli.FlagSet.add aliyun_cli.Cli.Flag.check_valid aliyun_cli.Cli.FlagSet.add_formations
    cut one_of split_at to_lower to_upper aliyun_cli.Cli.Command.call_args
    aliyun_cli.Cli.Command.check_and_finish aliyun_cli.Cli.Command.complete_commands
    aliyun_cli.Cli.Command.complete_flags aliyun_cli.Cli.Command.execute_complete
    aliyun_cli.Cli.Command.execute_raw aliyun_cli.Cli.Command.finish
    aliyun_cli.Cli.Command.help_assigned aliyun_cli.Cli.Command.raw_args_loop raw_args_request_help
    aliyun_cli.Cli.Command.raw_flag aliyun_cli.Cli.Command.remain_args
    aliyun_cli.Cli.Command.takes_value aliyun_cli.Cli.Context.add_unknown
    aliyun_cli.Cli.Context.check_each aliyun_cli.Cli.Context.check_flag
    aliyun_cli.Cli.Context.check_flags aliyun_cli.Cli.Context.detect_flag
    aliyun_cli.Cli.Context.detect_flag_by_shorthand aliyun_cli.Cli.Context.detect_unknown
    aliyun_cli.Cli.Context.first_conflict aliyun_cli.Cli.Context.has_plugin_sub_command
    aliyun_cli.Cli.Context.is_plugin_sub_command_args aliyun_cli.Cli.Context.plugin_words
    aliyun_cli.Cli.Context.take_unknown aliyun_cli.Cli.Field.check_field aliyun_cli.Cli.Flag.assign
    aliyun_cli.Cli.Flag.assign_field aliyun_cli.Cli.Flag.check_fields aliyun_cli.Cli.Flag.find_field
    aliyun_cli.Cli.Flag.get_formations aliyun_cli.Cli.Flag.get_value aliyun_cli.Cli.Flag.need_value
    aliyun_cli.Cli.Flag.set_is_assigned aliyun_cli.Cli.Flag.validate
    aliyun_cli.Cli.FlagSet.add_by_name aliyun_cli.Cli.FlagSet.contains_ref
    aliyun_cli.Cli.FlagSet.flag_by_name aliyun_cli.Cli.FlagSet.get_flag_value
    aliyun_cli.Cli.FlagSet.has_suffix aliyun_cli.Cli.FlagSet.index_get
    aliyun_cli.Cli.FlagSet.index_put aliyun_cli.Cli.FlagSet.put
    aliyun_cli.Cli.FlagSet.put_formations aliyun_cli.Cli.FlagSet.put_persistent
    aliyun_cli.Cli.Parser.can_consume_dash_leading_value aliyun_cli.Cli.Parser.flag_origin
    aliyun_cli.Cli.Parser.is_dash_leading_value_candidate aliyun_cli.Cli.Parser.read_all
    aliyun_cli.Cli.Parser.split_string_with_prefix
help_list = refl

run_unknown : (execute_inner 4 root (txt "lost" ∷ []) start).0 ≡ err (invalid_command (txt "lost"))
unfolding execute_inner aliyun_cli.Cli.Parser.read_next_arg aliyun_cli.Cli.Parser.read_next
    aliyun_cli.Cli.Parser.read_token aliyun_cli.Cli.Parser.parse_command_arg has_prefix
    aliyun_cli.Cli.Command.route text_eq aliyun_cli.Cli.Tree.find_command
run_unknown = refl

execute_inner-IsSettled_example :
    IsSettled (execute_inner 3 root (txt "list" ∷ txt "a" ∷ []) start).0
execute_inner-IsSettled_example =
    execute_inner-IsSettled 3 root (txt "list" ∷ txt "a" ∷ []) start (omega arith)

raw_args_request_help_iff_example :
    (raw_args_request_help start (txt "--name" ∷ txt "-h" ∷ []) ≡ true)
    ↔ AsksHelp start.heap name_set (txt "--name" ∷ txt "-h" ∷ [])
raw_args_request_help_iff_example = raw_args_request_help_iff start (txt "--name" ∷ txt "-h" ∷ [])

-- `-h` is the value of `--name` here.
no_help : raw_args_request_help start (txt "--name" ∷ txt "-h" ∷ []) ≡ false
unfolding raw_args_request_help aliyun_cli.Cli.Command.raw_args_loop text_eq
    aliyun_cli.Cli.Command.takes_value aliyun_cli.Cli.Command.raw_flag has_prefix cut
    aliyun_cli.Cli.FlagSet.index_get
no_help = refl
