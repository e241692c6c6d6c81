-- ===== src/Std.antt =====
-- What the program uses of Rust's standard library: text, numbers in text, and paths.
pub mod Text
pub mod Sort
pub mod Words
pub mod Decimal
pub mod FilePath
pub mod Map
