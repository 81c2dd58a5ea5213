-- ===== src/Std.antt =====
-- The parts of Go's standard library that the packages use, as it documents them.
pub mod Decimal
pub mod Base64
pub mod Sort
pub mod Http
pub mod Strings
pub mod Quote
pub mod Json
