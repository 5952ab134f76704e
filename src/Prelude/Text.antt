-- ===== src/Prelude/Text.antt =====
-- The operations on text that the program takes from Rust's standard library. A `String` is the
-- list of its UTF-8 bytes; a test on an ASCII character is a test on a byte.
mod Basic
mod Laws
pub use Laws.*
unfoldable pub use Basic.*
