-- ===== src/Subfile.antt =====
-- subfile-exchange/src/subfile: manifests, chunk files and their validation.
pub mod Hasher
pub mod Merkle
pub mod Reader
pub mod Spans
pub mod Types
pub mod ChunkFiles
pub mod Validate
pub mod Published
pub mod Entries
