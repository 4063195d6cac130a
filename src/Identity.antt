-- ===== src/Identity.antt =====
-- ngenorca-identity: who wrote a message.
pub mod Texts
pub mod Candidates
pub mod Device
pub mod Store
pub mod Manager
