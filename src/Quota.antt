-- ===== src/Quota.antt =====
-- Quota usage and limits: storing what the storage servers report and pushing the exceeded ids
-- (mgmtd/src/quota.rs), and answering a server's request for them
-- (mgmtd/src/bee_msg/request_exceeded_quota.rs).
pub mod Tables
pub mod Exceeded
pub mod Update
pub mod Pushed
