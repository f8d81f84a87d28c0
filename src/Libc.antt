-- ===== src/Libc.antt =====
-- What the code uses of the C library: decimal printing and reading of integers.
pub mod Decimal
pub mod Scan
