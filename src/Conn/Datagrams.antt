-- ===== src/Conn/Datagrams.antt =====
-- Datagrams (shared/src/conn/incoming.rs, `recv_datagram`) with any header.
use beegfs_rust.Prelude.{
  ℕ, ◌+◌, ◌-◌, ◌≡◌, refl, ◌≤◌, leb, ◌&&◌, if◌then◌else◌, List, ◌++◌, length, take, replicate, arith,
  length-append, length-replicate, take-append_of, drop-append_of, take_all, append_assoc,
}
use beegfs_rust.Result.{Result, panicked}
use beegfs_rust.Serde.Header.{Header, header_len, message_prefix}
use beegfs_rust.Serde.Deserializer.{Des}
use beegfs_rust.Message.Fields.{InRange, length-fields}
use beegfs_rust.Message.Framing.{deserialize_body}
use beegfs_rust.Conn.{recv_datagram, udp_buf_len, deserialize_msg}
use beegfs_rust.Conn.Delivery.{header_bytes, deserialize_header-bytes}

-- The rest of the buffer behind the header of a datagram with the body `body`.
abbrev pub behind_header : List ℕ → List ℕ
behind_header body = body ++ replicate (udp_buf_len - header_len - length body) 0

module _ (h : Header) (r : InRange h) (p : h.msg_prefix ≡ message_prefix) (body : List ℕ)
    (fits : header_len + length body ≤ udp_buf_len) where
  datagram_dispatched :
      {A : Type 0} (dispatch : Header → List ℕ → Result A)
      → recv_datagram dispatch (header_bytes h r ++ body)
        ≡ dispatch h (header_bytes h r ++ behind_header body)
  unfolding recv_datagram
  datagram_dispatched dispatch =
      let hb = header_bytes h r in
      let whole : take udp_buf_len (hb ++ body) ≡ hb ++ body =
        take_all udp_buf_len (hb ++ body)
          (omega (arith, length-append hb body, length-fields h r)) in
      let zeros : udp_buf_len - length (hb ++ body) ≡ udp_buf_len - header_len - length body =
        omega (arith, length-append hb body, length-fields h r) in
      rw
        (
          whole,
          zeros,
          append_assoc hb body (replicate {A = ℕ} (udp_buf_len - header_len - length body) 0),
          take-append_of 40 hb (behind_header body) (length-fields h r),
          deserialize_header-bytes h r p,
        )
        refl

  -- A datagram of a header and a body: if the length in its header is at least 40 and within the buffer
  -- of 65536 bytes, a handler that deserializes the message gets what follows the header, up to that
  -- length, zeros included where the datagram is shorter; and with any other length it panics.
  pub datagram_received :
      {M : Type 0} (des : Des M)
      → recv_datagram (deserialize_msg des) (header_bytes h r ++ body) ≡ (
          if leb header_len h.msg_len && leb h.msg_len udp_buf_len
          then deserialize_body h des (behind_header body)
          else panicked)
  unfolding deserialize_msg deserialize_body
  datagram_received des =
      let hb = header_bytes h r in
      ground (
        arith,
        datagram_dispatched (deserialize_msg des),
        drop-append_of 40 hb (behind_header body) (length-fields h r),
        length-append body (replicate (udp_buf_len - header_len - length body) 0),
        length-replicate {A = ℕ} (udp_buf_len - header_len - length body) 0,
      )
