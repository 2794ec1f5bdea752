-- ===== src/Config.antt =====
-- Package config: profiles, the file that keeps them, and how it is written.
pub mod Profile
pub mod Store
pub mod AtomicWrite
