-- ===== src/Subfile/Validate.antt =====
-- Which local files the validation of subfile-exchange/src/subfile/mod.rs accepts.
pub mod Chunk
pub mod Files
