-- ===== src/Text.antt =====
-- C strings, and the functions of the C library that the program calls on them.
pub mod Chars
pub mod Search
pub mod Number
pub mod Decimal
