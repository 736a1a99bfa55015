-- ===== src/Db.antt =====
-- The database of the management (mgmtd/src/db): tables as lists of rows, a transaction as a function
-- from the tables.
pub mod Tables
pub mod BuddyGroup
pub mod Misc
pub mod Target
pub mod Store
pub mod Changes
pub mod Capacities
pub mod Invariant
pub mod States
