-- ===== src/Memory.antt =====
-- ngenorca-memory: the working memory (working.rs).
pub mod Working
