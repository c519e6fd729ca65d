-- ===== src/Text.antt =====
-- The parts of Go's `strings` and `strconv` that the program calls, on bytes.
pub mod Bytes
pub mod Space
pub mod Decimal
