-- ===== src/Message/Framing.antt =====
-- `serialize`, `deserialize` and their parts (shared/src/bee_msg.rs). A message type is given by its
-- number, its serialization and its deserialization.
use beegfs_rust.Prelude.{
  ℕ, ◌+◌, ◌-◌, ◌%◌, ◌^◌, ◌==◌, leb, if◌then◌else◌, List, ◌++◌, length, take, drop,
}
use beegfs_rust.Result.{
  Result, ok, err, panicked, short_header, invalid_prefix, ◌>>=◌, ◌>>◌, ensure,
}
use beegfs_rust.Serde.Header.{Header, header_len, message_prefix}
use beegfs_rust.Serde.Serializer.{Serializer, Ser}
use beegfs_rust.Serde.Serializer
use beegfs_rust.Serde.Deserializer.{Des, finish}
use beegfs_rust.Serde.Deserializer
use beegfs_rust.Message.Fields.{serialize_fields, deserialize_fields}

-- The buffer is a borrowed slice: its new content is part of the result.
unfoldable pub serialize_body : Ser → List ℕ → Result (ℕ × Header × List ℕ)
serialize_body ser buf = do s ← ser (Serializer.new buf); ok (s.write_pos, s.header, s.target_buf)

unfoldable pub serialize_header : Header → List ℕ → Result (ℕ × List ℕ)
serialize_header header buf = do
  s ← serialize_fields header (Serializer.new buf)
  ok (s.write_pos, s.target_buf)

-- The body goes behind the place of the header: `&mut buf[Header::LEN..]` panics on a short buffer.
unfoldable pub serialize : ℕ → Ser → List ℕ → Result (ℕ × List ℕ)
unfolding serialize_body serialize_header
serialize id ser buf =
    if leb header_len (length buf)
    then (do
      (written, header, body_buf) ← serialize_body ser (drop header_len buf)
      let msg_len = (written + header_len) % 2 ^ 32
      (_, header_buf) ←
          serialize_header (record header { msg_len = msg_len; msg_id = id }) (take header_len buf)
      ok (msg_len, header_buf ++ body_buf))
    else panicked

unfoldable pub deserialize_header : List ℕ → Result Header
deserialize_header buf =
    if leb header_len (length buf)
    then (do
      (header, d) ← deserialize_fields (Deserializer.new (take header_len buf))
      finish d
      ensure (header.msg_prefix == message_prefix) invalid_prefix
      ok header)
    else err short_header

-- `buf[0..(header.msg_len() - Header::LEN)]`: the difference and the index both can panic.
unfoldable pub deserialize_body : {M : Type 0} → Header → Des M → List ℕ → Result M
deserialize_body header des buf =
    let len = header.msg_len - header_len in
    if leb header_len header.msg_len
    then (if leb len (length buf)
        then (do (msg, d) ← des (Deserializer.with_header (take len buf) header); finish d; ok msg)
        else panicked)
    else panicked

unfoldable pub deserialize : {M : Type 0} → Des M → List ℕ → Result M
unfolding deserialize_header deserialize_body
deserialize des buf =
    if leb header_len (length buf)
    then (do
      header ← deserialize_header (take header_len buf)
      deserialize_body header des (drop header_len buf))
    else panicked
