-- ===== src/Conn/Transfer.antt =====
-- A message from `serialize` on one node through a stream to the handler on the other (shared/src/bee_msg.rs,
-- shared/src/conn/incoming.rs, shared/src/conn/msg_dispatch.rs).
use native.Mathlib.Nat.{mod-eq_of_lt}
use beegfs_rust.Prelude.{
  ℕ, ◌+◌, ◌^◌, ◌%◌, ◌≡◌, refl, ◌∙◌, ap, sym, ◌≤◌, ◌<◌, ◌&&◌, not, ◌==◌, ◌-◌, leb, Bool, true, false,
  List, ◌++◌, length, take, drop, arith, length-append, take-append_of, drop-append_of,
  append_assoc, subst,
}
use beegfs_rust.Result.{ok}
use beegfs_rust.Serde.Header.{Header}
use beegfs_rust.Serde.Serializer.{Ser}
use beegfs_rust.Serde.Deserializer.{Des}
use beegfs_rust.Serde.RoundTrip.{RoundTrips}
use beegfs_rust.Serde.Format.{MessageType}
use beegfs_rust.Message.Registry.{Registered, Registered-Sound, id-lt}
use beegfs_rust.Message.Fields.{length-fields}
use beegfs_rust.Message.Framing.{serialize, deserialize_body}
use beegfs_rust.Message.FramingLaws.{
  header_for, header_for-InRange, framed, serialize_room, deserialize_body_lem,
}
use beegfs_rust.Message.Misc.{authenticate_channel}
use beegfs_rust.Conn.{Stream, Dispatch, read_stream, deserialize_msg}
use beegfs_rust.Conn.Delivery.{header_bytes, read_stream-header}

-- The message `m` is handed to the dispatcher, and the stream goes on with `rest`.
pub record HandedOver {M : Type 0} (id : ℕ) (des : Des M) (m : M) (required : Bool)
    (dispatch : Dispatch) (s : Stream) (rest buf : List ℕ) : Type 0 where
  pub header : Header
  pub content : List ℕ
  pub dispatched :
      read_stream required dispatch s buf ≡ dispatch header (record s { input = rest }) content
  pub same_id : header.msg_id ≡ id
  pub same_message : deserialize_msg des header content ≡ ok m

module _ {M : Type 0} {ser : Ser} {des : Des M} {m : M} (t : RoundTrips ser des m) (id : ℕ)
    (small_id : id < 2 ^ 16) where
  abbrev sent_header : Header
  sent_header = header_for id (length t.wire)

  abbrev sent_header_bytes : List ℕ
  sent_header_bytes = header_bytes sent_header (header_for-InRange id (length t.wire) small_id)

  length-sent : length sent_header_bytes ≡ 40
  length-sent = length-fields sent_header (header_for-InRange id (length t.wire) small_id)

  -- The first `n` bytes of the buffer, for the length `n` that `serialize` returns.
  sent :
      (buf : List ℕ) {n : ℕ} {out : List ℕ}
      → length buf < 2 ^ 32
      → serialize id ser buf ≡ ok (n, out)
      → (n ≡ length t.wire + 40) × ((n ≤ length buf) × (take n out ≡ sent_header_bytes ++ t.wire))
  sent buf {n = n} {out = out} small e =
      let room = serialize_room t id small_id buf e in
      let all = framed t id small_id buf room (omega arith) in
      let tail = drop (length t.wire) (drop 40 buf) in
      let size : n ≡ length t.wire + 40 = cc in
      let content : out ≡ sent_header_bytes ++ (t.wire ++ tail) = cc in
      (
        size,
        (
          omega arith,
          subst (λ o. take n o ≡ sent_header_bytes ++ t.wire)
              (sym (content ∙ sym (append_assoc sent_header_bytes t.wire tail)))
              (take-append_of n (sent_header_bytes ++ t.wire) tail
                (omega (arith, length-sent, length-append sent_header_bytes t.wire))),
        ),
      )

  delivered :
      (required : Bool) (dispatch : Dispatch) (s : Stream) (rest : List ℕ) (buf : List ℕ)
      → length t.wire + 40 ≤ length buf
      → length t.wire + 40 < 2 ^ 32
      → s.input ≡ sent_header_bytes ++ (t.wire ++ rest)
      → (required && not s.authenticated && not (id == authenticate_channel.id)) ≡ false
      → read_stream required dispatch s buf
        ≡ dispatch sent_header
            (record s { input = rest })
            (sent_header_bytes ++ t.wire ++ drop (length t.wire + 40) buf)
  delivered required dispatch s rest buf room fits e allowed =
      let whole =
        read_stream-header required dispatch s buf sent_header
          (header_for-InRange id (length t.wire) small_id) (t.wire ++ rest) refl (omega arith) e in
      let n : (length t.wire + 40) % 2 ^ 32 ≡ length t.wire + 40 = mod-eq_of_lt fits in
      let body : length t.wire + 40 - 40 ≡ length t.wire = omega arith in
      let inside : (leb 40 (length t.wire + 40) && leb (length t.wire + 40) (length buf)) ≡ true =
        ground (arith, room) in
      let enough : leb (length t.wire) (length (t.wire ++ rest)) ≡ true =
        ground (arith, length-append t.wire rest) in
      whole
      ∙ rw
          (
            allowed,
            n,
            body,
            inside,
            enough,
            take-append_of (length t.wire) t.wire rest refl,
            drop-append_of (length t.wire) t.wire rest refl,
          )
          refl

  handed :
      (rest : List ℕ)
      → length t.wire + 40 < 2 ^ 32
      → deserialize_msg des sent_header (sent_header_bytes ++ t.wire ++ rest) ≡ ok m
  unfolding deserialize_msg
  handed rest fits =
      ap (λ b. deserialize_body sent_header des (drop 40 b))
        (append_assoc sent_header_bytes t.wire rest)
      ∙ (ap (deserialize_body sent_header des)
            (drop-append_of 40 sent_header_bytes (t.wire ++ rest) length-sent)
          ∙ deserialize_body_lem t sent_header rest (mod-eq_of_lt fits))

  -- What `serialize` has written to the front of its buffer, sent over a stream that is authenticated
  -- or need not be, reaches the dispatcher as the same message.
  message_delivered :
      (buf : List ℕ) {n : ℕ} {out : List ℕ} (required : Bool) (dispatch : Dispatch) (s : Stream)
      (rest receive_buf : List ℕ)
      → length buf < 2 ^ 32
      → serialize id ser buf ≡ ok (n, out)
      → n ≤ length receive_buf
      → s.input ≡ take n out ++ rest
      → (required && not s.authenticated && not (id == authenticate_channel.id)) ≡ false
      → HandedOver id des m required dispatch s rest receive_buf
  message_delivered buf {n = n} {out = out} required dispatch s rest receive_buf small e room input
        allowed =
      let (size, (within, front)) = sent buf small e in
      let there : s.input ≡ sent_header_bytes ++ (t.wire ++ rest) =
        input ∙ (ap (λ b. b ++ rest) front ∙ append_assoc sent_header_bytes t.wire rest) in
      let behind = drop (length t.wire + 40) receive_buf in
      record {
        header = sent_header;
        content = sent_header_bytes ++ t.wire ++ behind;
        dispatched =
            delivered required dispatch s rest receive_buf (omega arith) (omega arith) there
              allowed;
        same_id = refl;
        same_message = handed behind (omega arith);
      }

-- A message of a known type, its fields in range: what `serialize` has put to the front of a buffer of
-- less than 4 GiB, once it is the next input of a stream with a buffer that is long enough, is handed to
-- the dispatcher, unless authentication is required, missing and not what the message is for. The
-- dispatcher gets the id and can deserialize the message, and the stream goes on behind it.
pub request_delivered :
    {M : Type 0} {t : MessageType M} {P : M → Type 0} (r : Registered M t P) (m : M) (buf : List ℕ)
    {n : ℕ} {out : List ℕ} (required : Bool) (dispatch : Dispatch) (s : Stream)
    (rest receive_buf : List ℕ)
    → P m
    → length buf < 2 ^ 32
    → serialize t.id (t.format.serialize m) buf ≡ ok (n, out)
    → n ≤ length receive_buf
    → s.input ≡ take n out ++ rest
    → (required && not s.authenticated && not (t.id == authenticate_channel.id)) ≡ false
    → HandedOver t.id t.format.deserialize m required dispatch s rest receive_buf
request_delivered {t = t} r m buf required dispatch s rest receive_buf fits =
    message_delivered (Registered-Sound r m fits) t.id (id-lt r) buf required dispatch s rest
      receive_buf
