-- ===== src/Message/Fields.antt =====
-- `BeeSerde`, derived for `Header` (shared/src/bee_msg.rs): its fields in their order.
use beegfs_rust.Prelude.{◌^◌, ◌<◌, ◌≡◌, refl, length}
use beegfs_rust.Serde.Header.{Header}
use beegfs_rust.Serde.Serializer.{Ser, ◌⨾◌, done, u8, u16, u32, u64}
use beegfs_rust.Serde.Deserializer.{Des, ◌>>=◌, pure}
use beegfs_rust.Serde.Deserializer
use beegfs_rust.Serde.Words.{to_le_bytes}
use beegfs_rust.Serde.RoundTrip.{RoundTrips, RoundTrips-done, RoundTrips-bind, RoundTrips-uint}

unfoldable pub serialize_fields : Header → Ser
serialize_fields h =
    u32 h.msg_len
    ⨾ u16 h.msg_feature_flags
    ⨾ u8 h.msg_compat_feature_flags
    ⨾ u8 h.msg_flags
    ⨾ u64 h.msg_prefix
    ⨾ u16 h.msg_id
    ⨾ u16 h.msg_target_id
    ⨾ u32 h.msg_user_id
    ⨾ u64 h.msg_seq
    ⨾ u64 h.msg_seq_done
    ⨾ done

unfoldable pub deserialize_fields : Des Header
deserialize_fields = do
  msg_len ← Deserializer.u32
  msg_feature_flags ← Deserializer.u16
  msg_compat_feature_flags ← Deserializer.u8
  msg_flags ← Deserializer.u8
  msg_prefix ← Deserializer.u64
  msg_id ← Deserializer.u16
  msg_target_id ← Deserializer.u16
  msg_user_id ← Deserializer.u32
  msg_seq ← Deserializer.u64
  msg_seq_done ← Deserializer.u64
  pure (record {
    msg_len = msg_len;
    msg_feature_flags = msg_feature_flags;
    msg_compat_feature_flags = msg_compat_feature_flags;
    msg_flags = msg_flags;
    msg_prefix = msg_prefix;
    msg_id = msg_id;
    msg_target_id = msg_target_id;
    msg_user_id = msg_user_id;
    msg_seq = msg_seq;
    msg_seq_done = msg_seq_done;
  })

-- Every field is in the range of its type.
pub record InRange (h : Header) : Type 0 where
  pub msg_len : h.msg_len < 2 ^ 32
  pub msg_feature_flags : h.msg_feature_flags < 2 ^ 16
  pub msg_compat_feature_flags : h.msg_compat_feature_flags < 2 ^ 8
  pub msg_flags : h.msg_flags < 2 ^ 8
  pub msg_prefix : h.msg_prefix < 2 ^ 64
  pub msg_id : h.msg_id < 2 ^ 16
  pub msg_target_id : h.msg_target_id < 2 ^ 16
  pub msg_user_id : h.msg_user_id < 2 ^ 32
  pub msg_seq : h.msg_seq < 2 ^ 64
  pub msg_seq_done : h.msg_seq_done < 2 ^ 64

pub RoundTrips-fields :
    (h : Header) → InRange h → RoundTrips (serialize_fields h) deserialize_fields h
unfolding serialize_fields deserialize_fields
RoundTrips-fields h r = RoundTrips-bind _ (RoundTrips-uint 4 _ r.msg_len) (
    RoundTrips-bind _ (RoundTrips-uint 2 _ r.msg_feature_flags) (
      RoundTrips-bind _ (RoundTrips-uint 1 _ r.msg_compat_feature_flags) (
        RoundTrips-bind _ (RoundTrips-uint 1 _ r.msg_flags) (
          RoundTrips-bind _ (RoundTrips-uint 8 _ r.msg_prefix) (
            RoundTrips-bind _ (RoundTrips-uint 2 _ r.msg_id) (
              RoundTrips-bind _ (RoundTrips-uint 2 _ r.msg_target_id) (
                RoundTrips-bind _ (RoundTrips-uint 4 _ r.msg_user_id) (
                  RoundTrips-bind _ (RoundTrips-uint 8 _ r.msg_seq) (
                    RoundTrips-bind _ (RoundTrips-uint 8 _ r.msg_seq_done)
                      (RoundTrips-done h))))))))))

-- The serialized header fills its `LEN` bytes exactly.
pub length-fields : (h : Header) (r : InRange h) → length (RoundTrips-fields h r).wire ≡ 40
unfolding RoundTrips-fields RoundTrips-bind RoundTrips-uint RoundTrips-done to_le_bytes
length-fields h r = refl
