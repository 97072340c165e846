-- ===== src/Rules.antt =====
-- src/rules/engine.rs: the rules that give each file its sync mode.
pub mod Engine
pub mod Tree
pub mod Errors
pub mod Values
pub mod Reach
pub mod Parse
mod Tests
