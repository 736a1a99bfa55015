-- ===== src/Message.antt =====
-- Messages (shared/src/bee_msg.rs and shared/src/bee_msg): the frame of header and body, and the message
-- types by the files that define them.
pub mod Fields
pub mod Framing
pub mod FramingLaws
pub mod TargetStates
pub mod Targets
pub mod BuddyGroups
pub mod Resync
pub mod Quota
pub mod Misc
pub mod Nics
pub mod Nodes
pub mod Registry
