-- ===== src/Tests.antt =====
-- Runs on concrete inputs, and the theorems at inputs that meet their hypotheses.
pub mod Messages
pub mod CapPool
pub mod Conn
pub mod Db
pub mod Store
pub mod Quota
pub mod Migration
pub mod Outgoing
pub mod Handlers
