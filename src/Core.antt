-- ===== src/Core.antt =====
-- ngenorca-core: errors, session types, trust levels and channel kinds.
pub mod Error
pub mod Session
pub mod Identity
pub mod Orchestration
