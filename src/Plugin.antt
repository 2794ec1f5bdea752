-- ===== src/Plugin.antt =====
-- The installation of plugins (cli/plugin).
pub mod Archive
pub mod Aliases
