-- ===== src/Message/FramingLaws.antt =====
-- A framed message is read back from its buffer, and a buffer that is too small is refused.
use native.Mathlib.Nat.{mod-eq_of_lt}
use beegfs_rust.Prelude.{
  ℕ, ◌+◌, ◌-◌, ◌%◌, ◌^◌, ◌≤◌, ◌<◌, leb, if◌then◌else◌, List, [], ◌++◌, length, take, drop, ◌≡◌, ◌∙◌,
  subst, arith, length-append, length-drop, length-take, take-append, append-nil, drop_all,
  take_all, take-append_of, drop-append_of,
}
use beegfs_rust.Result.{ok, err, panicked, buffer_full}
use beegfs_rust.Serde.Header.{Header, header_len, default_header}
use beegfs_rust.Serde.Serializer.{Ser}
use beegfs_rust.Serde.Deserializer.{Des, finish}
use beegfs_rust.Serde.RoundTrip.{RoundTrips}
use beegfs_rust.Message.Fields.{InRange, RoundTrips-fields, length-fields}
use beegfs_rust.Message.Framing.{
  serialize_body, serialize_header, serialize, deserialize_header, deserialize_body, deserialize,
}

-- The header of a message of type `id` with a body of `n` bytes.
abbrev pub header_for : ℕ → ℕ → Header
header_for id n = record default_header { msg_len = (n + header_len) % 2 ^ 32; msg_id = id }

pub header_for-InRange : (id n : ℕ) → id < 2 ^ 16 → InRange (header_for id n)
header_for-InRange id n h = omega arith

module _ (id : ℕ) (small_id : id < 2 ^ 16) where
  abbrev header_wire : ℕ → List ℕ
  header_wire n = (RoundTrips-fields (header_for id n) (header_for-InRange id n small_id)).wire

  length-header_wire : (n : ℕ) → length (header_wire n) ≡ 40
  length-header_wire n = length-fields (header_for id n) (header_for-InRange id n small_id)

  serialize_header_lem :
      (n : ℕ) (buf : List ℕ)
      → length buf ≡ 40
      → serialize_header (header_for id n) buf ≡ ok (40, header_wire n)
  unfolding serialize_header
  serialize_header_lem n buf e =
      let t = RoundTrips-fields (header_for id n) (header_for-InRange id n small_id) in
      ground (
        arith,
        t.writes.run [] buf default_header,
        length-header_wire n,
        drop_all 40 buf (omega arith),
        append-nil t.wire,
      )

module _ {M : Type 0} {ser : Ser} {des : Des M} {m : M} (t : RoundTrips ser des m) where
  serialize_body_lem :
      (buf : List ℕ)
      → length t.wire ≤ length buf
      → serialize_body ser buf
        ≡ ok (length t.wire, default_header, t.wire ++ drop (length t.wire) buf)
  unfolding serialize_body
  serialize_body_lem buf h = ground (arith, t.writes.run [] buf default_header)

  pub deserialize_body_lem :
      (header : Header) (rest : List ℕ)
      → header.msg_len ≡ length t.wire + 40
      → deserialize_body header des (t.wire ++ rest) ≡ ok m
  unfolding deserialize_body finish
  deserialize_body_lem header rest e =
      ground (arith, len, length-append t.wire rest, take-append t.wire rest, whole)
    where
      len : header.msg_len - 40 ≡ length t.wire
      len = omega arith

      whole :
          des (record { source_buf = t.wire; header = header })
          ≡ ok (m, record { source_buf = []; header = header })
      whole = rw append-nil at (t.reads.run [] header)

-- What `serialize` returns: the length, and a buffer that holds header, body and what was behind.
pub framed :
    {M : Type 0} {ser : Ser} {des : Des M} {m : M} (t : RoundTrips ser des m) (id : ℕ)
    (small_id : id < 2 ^ 16) (buf : List ℕ)
    → length t.wire + 40 ≤ length buf
    → length t.wire + 40 < 2 ^ 32
    → serialize id ser buf
      ≡ ok (
        length t.wire + 40,
        header_wire id small_id (length t.wire) ++ (t.wire ++ drop (length t.wire) (drop 40 buf)),
      )
unfolding serialize
framed t id small_id buf room fits = ground (
  arith,
  serialize_body_lem t (drop 40 buf) (omega (arith, length-drop 40 buf)),
  serialize_header_lem id small_id (length t.wire) (take 40 buf) (length-take 40 buf (omega arith)),
  mod-eq_of_lt fits,
)

deserialize_header_lem :
    (id n : ℕ) (small_id : id < 2 ^ 16)
    → deserialize_header (header_wire id small_id n) ≡ ok (header_for id n)
unfolding deserialize_header finish
deserialize_header_lem id n small_id =
    let t = RoundTrips-fields (header_for id n) (header_for-InRange id n small_id) in
    ground (
      arith,
      length-header_wire id small_id n,
      append-nil t.wire,
      t.reads.run [] default_header,
      take_all 40 (header_wire id small_id n) (omega (arith, length-header_wire id small_id n)),
    )

-- `deserialize` is `deserialize_header` on the first 40 bytes and `deserialize_body` on the others.
pub deserialize_split :
    {M : Type 0} (des : Des M) (front tail : List ℕ) (header : Header)
    → length front ≡ 40
    → deserialize_header front ≡ ok header
    → deserialize des (front ++ tail) ≡ deserialize_body header des tail
unfolding deserialize
deserialize_split des front tail header e h = ground (
  arith,
  h,
  length-append front tail,
  take-append_of 40 front tail e,
  drop-append_of 40 front tail e,
)

module _ {M : Type 0} {ser : Ser} {des : Des M} {m : M} (t : RoundTrips ser des m) (id : ℕ)
    (small_id : id < 2 ^ 16) (buf : List ℕ) where
  -- A message whose body round trips is written with its header to the front of a buffer with room,
  -- the returned length covers both, and `deserialize` reads the message back from that buffer,
  -- whatever else is in it.
  pub deserialize-serialize :
      length t.wire + 40 ≤ length buf
      → length t.wire + 40 < 2 ^ 32
      → (out : List ℕ) × (serialize id ser buf ≡ ok (length t.wire + 40, out))
        × (length out ≡ length buf)
        × (deserialize des out ≡ ok m)
  deserialize-serialize room fits =
      let n = length t.wire in
      let hw = header_wire id small_id n in
      let tail = t.wire ++ drop n (drop 40 buf) in
      (
        hw ++ tail,
        framed t id small_id buf room fits,
        omega (
          arith,
          length-append hw tail,
          length-append t.wire (drop n (drop 40 buf)),
          length-header_wire id small_id n,
          length-drop n (drop 40 buf),
          length-drop 40 buf,
        ),
        deserialize_split des hw tail (header_for id n) (length-header_wire id small_id n)
              (deserialize_header_lem id n small_id)
            ∙ deserialize_body_lem t (header_for id n) (drop n (drop 40 buf)) (mod-eq_of_lt fits),
      )

  -- With too little room for the body behind the header, `serialize` returns an error; with no room
  -- for the header itself it panics.
  pub serialize_no_room :
      length buf < length t.wire + 40
      → serialize id ser buf ≡ (if leb 40 (length buf) then err buffer_full else panicked)
  unfolding serialize serialize_body
  serialize_no_room small =
      ground (arith, t.writes.run [] (drop 40 buf) default_header, length-drop 40 buf)

  -- Only a buffer with enough room is serialized to.
  pub serialize_room :
      {n : ℕ} {out : List ℕ} → serialize id ser buf ≡ ok (n, out) → length t.wire + 40 ≤ length buf
  serialize_room e = ground (arith, serialize_no_room)

  -- What a successful `serialize` leaves in a buffer of less than 4 GiB is read back as the message.
  pub deserialize-serialize_ok :
      {n : ℕ} {out : List ℕ}
      → length buf < 2 ^ 32
      → serialize id ser buf ≡ ok (n, out)
      → (deserialize des out ≡ ok m) × (n ≤ length buf) × (length out ≡ length buf)
  deserialize-serialize_ok {n = n} {out = out} small e =
      let room = serialize_room e in
      let (out', e', same, back) = deserialize-serialize room (omega arith) in
      let here : out' ≡ out = cc in
      let size : length t.wire + 40 ≡ n = cc in
      (
        subst (λ o. deserialize des o ≡ ok m) here back,
        omega arith,
        subst (λ o. length o ≡ length buf) here same,
      )
