-- ===== src/Conn/Delivery.antt =====
-- What `read_stream` (shared/src/conn/incoming.rs) does with the bytes of a message.
use beegfs_rust.Prelude.{
  ℕ, ◌-◌, ◌≡◌, ◌≤◌, leb, ◌&&◌, not, ◌==◌, if◌then◌else◌, Bool, List, [], ◌++◌, length, take, drop,
  arith, length-append, take-append_of, drop-append_of, append-nil, take_all,
}
use beegfs_rust.Result.{ok, err, panicked, unauthenticated, unexpected_eof}
use beegfs_rust.Serde.Header.{Header, header_len, message_prefix, default_header}
use beegfs_rust.Message.Fields.{InRange, RoundTrips-fields, length-fields}
use beegfs_rust.Serde.Deserializer.{finish}
use beegfs_rust.Message.Framing.{deserialize_header}
use beegfs_rust.Message.Misc.{authenticate_channel}
use beegfs_rust.Conn.{Stream, Dispatch, read_stream, read_exact}

-- The 40 bytes of a header.
abbrev pub header_bytes : (h : Header) → InRange h → List ℕ
header_bytes h r = (RoundTrips-fields h r).wire

pub deserialize_header-bytes :
    (h : Header) (r : InRange h)
    → h.msg_prefix ≡ message_prefix
    → deserialize_header (header_bytes h r) ≡ ok h
unfolding deserialize_header finish
deserialize_header-bytes h r e =
    let t = RoundTrips-fields h r in
    ground (
      arith,
      length-fields h r,
      append-nil t.wire,
      t.reads.run [] default_header,
      take_all 40 (header_bytes h r) (omega (arith, length-fields h r)),
    )

-- On a stream whose next bytes are a header, by its fields: an error for a message other than
-- `AuthenticateChannel` where authentication is required and missing; a panic for a length below 40 or
-- beyond the buffer; an error if the body is not all there; and else a call of the dispatcher, with
-- the message at the front of the buffer and the bytes behind the message left in the stream.
pub read_stream-header :
    (required : Bool) (dispatch : Dispatch) (s : Stream) (buf : List ℕ) (h : Header) (r : InRange h)
    (input : List ℕ)
    → h.msg_prefix ≡ message_prefix
    → header_len ≤ length buf
    → s.input ≡ header_bytes h r ++ input
    → read_stream required dispatch s buf ≡ (
        if required && not s.authenticated && not (h.msg_id == authenticate_channel.id)
        then err unauthenticated
        else if not (leb header_len h.msg_len && leb h.msg_len (length buf))
        then panicked
        else if leb (h.msg_len - header_len) (length input)
        then dispatch h
            (record s { input = drop (h.msg_len - header_len) input })
            (header_bytes h r ++ take (h.msg_len - header_len) input ++ drop h.msg_len buf)
        else err unexpected_eof)
unfolding read_stream read_exact
read_stream-header required dispatch s buf h r input p room e =
    let hb = header_bytes h r in
    ground (
      arith,
      deserialize_header-bytes h r p,
      length-fields h r,
      length-append hb input,
      take-append_of 40 hb input (length-fields h r),
      drop-append_of 40 hb input (length-fields h r),
    )
