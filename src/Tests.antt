-- ===== src/Tests.antt =====
-- Runs of the program at concrete inputs, and the theorems applied to them.
pub mod Worlds
pub mod Models
pub mod Sources
pub mod Db
pub mod Service
pub mod Fx
pub mod Configuration
pub mod Replay
pub mod Run
pub mod Main
pub mod Linter
pub mod Seed
pub mod Dag
pub mod Pipeline
pub mod Register
pub mod Exporter
