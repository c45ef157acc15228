-- ===== src/Numeric.antt =====
-- Integer literals and conversions between numeric types.
pub mod Integers
pub mod Quantity
mod Tests
