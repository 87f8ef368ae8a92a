-- ===== src/Text.antt =====
-- Texts as byte strings: their runes, searches in them, decimal numbers, and what `fmt` prints.
pub mod Runes
pub mod Search
pub mod Decimal
pub mod Format
pub mod Lowered
