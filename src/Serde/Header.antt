-- ===== src/Serde/Header.antt =====
-- The message header as data (`Header` of shared/src/bee_msg.rs). A (de)serializer carries one, since
-- some messages (de)serialize by its flags.
use beegfs_rust.Prelude.{ℕ, ◌*◌, ◌^◌}

pub record Header : Type 0 where
  pub msg_len : ℕ
  pub msg_feature_flags : ℕ
  pub msg_compat_feature_flags : ℕ
  pub msg_flags : ℕ
  pub msg_prefix : ℕ
  pub msg_id : ℕ
  pub msg_target_id : ℕ
  pub msg_user_id : ℕ
  pub msg_seq : ℕ
  pub msg_seq_done : ℕ

-- `Header::LEN`
abbrev pub header_len : ℕ
header_len = 40

-- `Header::MSG_PREFIX`
abbrev pub message_prefix : ℕ
message_prefix = 0x42474653 * 2 ^ 32

-- `Header::default`
abbrev pub default_header : Header
default_header = record {
  msg_len = 0;
  msg_feature_flags = 0;
  msg_compat_feature_flags = 0;
  msg_flags = 0;
  msg_prefix = message_prefix;
  msg_id = 0;
  msg_target_id = 0;
  msg_user_id = 0;
  msg_seq = 0;
  msg_seq_done = 0;
}
