-- ===== src/Rust.antt =====
-- What the source takes from the Rust language: results and panics, machine words, decimal numbers.
pub mod Result
pub mod Words
pub mod Decimal
