-- ===== src/Text.antt =====
-- What the program uses of Rust's `str`: a text is the list of its code points, and bytes are a
-- list of numbers below 256. The functions are those of the language's standard library (`trim`,
-- `split_whitespace`, `lines`, `strip_prefix`, `parse::<u64>`, UTF-8), each by its documentation.
pub mod Chars
pub mod Trim
pub mod Words
pub mod Lines
pub mod Decimal
pub mod Integer
pub mod Utf8
