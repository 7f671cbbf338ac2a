-- ===== src/Examples.antt =====
-- Concrete inputs for the theorems of the other modules, with the theorems applied to them.
pub mod Samples
pub mod Decisions
pub mod Storage
pub mod Transport
pub mod Coverage
pub mod Turns
pub mod RuleFile
pub mod Commands
pub mod Windows
pub mod Links
pub mod Click
pub mod Guarded
pub mod Races
