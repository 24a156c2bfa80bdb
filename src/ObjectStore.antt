-- ===== src/ObjectStore.antt =====
-- subfile-exchange/src/subfile/local_file_system.rs. The crate object_store is a parameter.
pub mod Local
pub mod Store
pub mod Ranges
pub mod Parts
pub mod Written
pub mod Hashed
pub mod Validated
pub mod Verdict
