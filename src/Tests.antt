-- ===== src/Tests.antt =====
-- Runs of the program on concrete input, and the theorems at concrete data.
pub mod Flags
pub mod Parsing
pub mod Commands
pub mod Suggestions
pub mod Policies
pub mod Profiles
pub mod Codec
pub mod Mocks
pub mod Services
pub mod Arguments
pub mod Plugins
