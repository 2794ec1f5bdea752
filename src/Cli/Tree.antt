-- ===== src/Cli/Tree.antt =====
-- `Command` of cli/command.go: the tree of commands. A callback is known by whether it is there
-- (`Run != nil`); the help texts are left out. The pointer to the parent is the list of the
-- ancestors, nearest first, where a function needs it.
use aliyun_cli.Base.{
  Text, text_eq, txt, Bool, ℤ, pos, negsuc, ℕ, zero, suc, Option, none, some, List, [], ◌∷◌, ◌++◌,
  if◌then◌else◌,
}
use aliyun_cli.Cli.FlagSet.{FlagSet}

pub record CommandInfo : Type 0 where
  pub name : Text
  pub usage : Text
  pub enable_unknown_flag : Bool
  pub suggest_distance : ℤ
  pub hidden : Bool
  pub has_run : Bool
  pub has_auto_complete : Bool
  pub flags : FlagSet
  pub keep_args : Bool
  pub raw_args : Bool
  pub skip_default_help : Bool
  pub disable_persistent_flags : Bool

mutual
  pub data Command : Type 0 where
    command : CommandInfo → Commands → Command

  pub data Commands : Type 0 where
    no_commands : Commands
    more : Command → Commands → Commands

abbrev pub info : Command → CommandInfo
info (command i cs) = i

abbrev pub sub_commands : Command → Commands
sub_commands (command i cs) = cs

-- `AddSubCommand`
unfoldable pub append_command : Commands → Command → Commands
append_command no_commands c = more c no_commands
append_command (more d ds) c = more d (append_command ds c)

unfoldable pub add_sub_command : Command → Command → Command
unfolding append_command
add_sub_command (command i cs) c = command i (append_command cs c)

-- `SubCommandNames`
unfoldable pub command_names : Commands → List Text
command_names no_commands = []
command_names (more c cs) = (info c).name ∷ command_names cs

-- `GetSubCommand`
unfoldable pub find_command : Commands → Text → Option Command
find_command no_commands s = none
find_command (more c cs) s = if text_eq (info c).name s then some c else find_command cs s

abbrev pub get_sub_command : Command → Text → Option Command
get_sub_command c = find_command (sub_commands c)

-- `getName`: the names on the path, the root's first.
unfoldable pub get_name : List CommandInfo → CommandInfo → Text
get_name [] c = c.name
get_name (p ∷ ps) c = get_name ps p ++ (txt " " ++ c.name)

-- `GetUsageWithParent`
unfoldable pub usage_with_parent : List CommandInfo → Text → Text
usage_with_parent [] usage = usage
usage_with_parent (p ∷ ps) usage = usage_with_parent ps (p.name ++ (txt " " ++ usage))

-- `GetSuggestDistance`; `DefaultSuggestDistance` is 2.
unfoldable pub get_suggest_distance : CommandInfo → ℕ
get_suggest_distance c = elim c.suggest_distance [
  | negsuc n ↦ 0
  | pos n ↦ elim n [ zero ↦ 2 | suc m ↦ suc m ]
]
