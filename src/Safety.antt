-- ===== src/Safety.antt =====
-- Package sysconfig/safety: the policy that allows, denies or asks to confirm a command.
pub mod Policy
pub mod Env
pub mod Confirm
