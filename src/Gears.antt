-- ===== src/Gears.antt =====
pub mod ToString
pub mod Variants
pub mod Outcome
