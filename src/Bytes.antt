-- ===== src/Bytes.antt =====
-- Bytes of files and C strings. A C string is the list of its bytes without the null byte.
pub mod File
pub mod Decimal
pub mod Text
