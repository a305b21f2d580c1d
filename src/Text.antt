-- ===== src/Text.antt =====
-- Byte strings: what the program uses of the packages `strings` and `strconv`.
pub mod Split
pub mod Search
pub mod Space
pub mod Trim
pub mod Decimal
