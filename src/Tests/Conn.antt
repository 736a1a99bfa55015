-- ===== src/Tests/Conn.antt =====
-- Concrete runs of streams and datagrams (shared/src/conn).
use beegfs_rust.Prelude.{
  ℕ, ◌≡◌, ◌≢◌, refl, ◌==◌, if◌then◌else◌, true, false, List, [], ◌∷◌, ◌++◌, take, replicate, arith,
}
use beegfs_rust.Result.{ok, panicked}
use beegfs_rust.Serde.Header.{Header, default_header}
use beegfs_rust.Serde.Deserializer
use beegfs_rust.Message.Fields.{InRange}
use beegfs_rust.Message.Misc.{authenticate_channel}
use beegfs_rust.Message.Targets.{register_target}
use beegfs_rust.Message.Registry
use beegfs_rust.Conn.{
  Dispatch, running, accepted, read_stream, stream_loop, recv_datagram, deserialize_msg,
  udp_buf_len,
}
use beegfs_rust.Conn.Delivery.{header_bytes, read_stream-header}
use beegfs_rust.Conn.Loop.{Consumes, stream_loop-ends}
use beegfs_rust.Conn.Guard.{SameRejection, stream_loop-unauthenticated}
use beegfs_rust.Conn.Transfer.{HandedOver, request_delivered}
use beegfs_rust.Conn.Datagrams.{datagram_received}
use beegfs_rust.Tests.Messages.{new_target, new_target_bytes, small_buffer, new_target_serialized}

-- A handler that ignores its message, and one that marks every stream as authenticated but by
-- `AuthenticateChannel`.
abbrev ignore : Dispatch
ignore h s buf = ok (s, buf)

abbrev refuse : Dispatch
refuse h s buf =
    if h.msg_id == authenticate_channel.id
    then ok (s, buf)
    else ok (record s { authenticated = true }, buf)

-- A header that claims a message of 39 bytes.
abbrev too_short : Header
too_short = record default_header { msg_len = 39; msg_id = 4007 }

too_short_InRange : InRange too_short
too_short_InRange = record {
  msg_len = omega arith;
  msg_feature_flags = omega arith;
  msg_compat_feature_flags = omega arith;
  msg_flags = omega arith;
  msg_prefix = omega arith;
  msg_id = omega arith;
  msg_target_id = omega arith;
  msg_user_id = omega arith;
  msg_seq = omega arith;
  msg_seq_done = omega arith;
}

abbrev receive_buffer : List ℕ
receive_buffer = replicate 60 0

-- Such a header makes `read_stream` panic, on a stream that is not authenticated, too.
read_stream-header_example :
    read_stream true ignore
      (accepted (header_bytes too_short too_short_InRange ++ []))
      receive_buffer
    ≡ panicked
unfolding authenticate_channel
read_stream-header_example =
    read_stream-header true ignore (accepted (header_bytes too_short too_short_InRange ++ []))
      receive_buffer too_short too_short_InRange [] refl (omega arith) refl

ignore-Consumes : Consumes ignore
ignore-Consumes = record { input = λ h s buf e. ground arith }

stream_loop-ends_example :
    stream_loop 60 true ignore (accepted new_target_bytes) receive_buffer ≢ running
stream_loop-ends_example =
    stream_loop-ends ignore-Consumes true 60 (accepted new_target_bytes) receive_buffer
      (omega arith)

ignore-refuse-SameRejection : SameRejection ignore refuse
ignore-refuse-SameRejection = record {
  same = λ h s buf e. ground (arith, e);
  rejected = λ h s buf i u e. ground arith;
}

stream_loop-unauthenticated_example :
    stream_loop 60 true ignore (accepted new_target_bytes) receive_buffer
    ≡ stream_loop 60 true refuse (accepted new_target_bytes) receive_buffer
stream_loop-unauthenticated_example =
    stream_loop-unauthenticated ignore-refuse-SameRejection 60 (accepted new_target_bytes)
      receive_buffer refl

request_delivered_example :
    HandedOver 1041 register_target.format.deserialize new_target false ignore
      (accepted (take 49 new_target_bytes ++ (1 ∷ 2 ∷ [])))
      (1 ∷ 2 ∷ [])
      receive_buffer
unfolding register_target
request_delivered_example =
    request_delivered Registry.register_target new_target small_buffer false ignore
      (accepted (take 49 new_target_bytes ++ (1 ∷ 2 ∷ []))) (1 ∷ 2 ∷ []) receive_buffer
      (record { reg_token = omega arith; target_id = omega arith }) (omega arith)
      new_target_serialized (omega arith) refl refl

-- The length 39 in a datagram.
datagram_received_example :
    recv_datagram
      (deserialize_msg (Deserializer.uint 2))
      (header_bytes too_short too_short_InRange ++ (7 ∷ []))
    ≡ panicked
unfolding udp_buf_len
datagram_received_example =
    datagram_received too_short too_short_InRange refl (7 ∷ []) (omega arith) (Deserializer.uint 2)
