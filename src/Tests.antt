-- ===== src/Tests.antt =====
-- A database in memory, a server on it, and the theorems at concrete inputs.
pub mod Memory
pub mod Fixtures
pub mod Parts
pub mod Sessions
pub mod Options
pub mod Writers
pub mod Lives
pub mod Console
pub mod Traffic
pub mod Program
pub mod Hexes
pub mod Inbox
