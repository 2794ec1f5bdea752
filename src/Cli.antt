-- ===== src/Cli.antt =====
-- Package `cli`: flags, flag sets, the command context, the argument parser and the command tree.
pub mod Error
pub mod Field
pub mod Flag
pub mod FlagSet
pub mod Tree
pub mod Context
pub mod Parser
pub mod Command
pub mod Suggestion
