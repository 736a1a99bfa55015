-- ===== src/Conn/Guard.antt =====
-- The authentication check of `read_stream` (shared/src/conn/incoming.rs).
use beegfs_rust.Prelude.{
  ℕ, zero, suc, ◌≡◌, refl, sym, ◌-◌, take, drop, ◌++◌, ◌==◌, Bool-cases, true, false, List, inl,
  inr, arith,
}
use beegfs_rust.Result.{ok, Result-cases}
use beegfs_rust.Serde.Header.{Header}
use beegfs_rust.Message.Framing.{deserialize_header}
use beegfs_rust.Message.Misc.{authenticate_channel}
use beegfs_rust.Conn.{Stream, Dispatch, read_exact, read_stream, stream_loop}
use beegfs_rust.Conn.Loop.{read_stream_ok}

-- Two dispatchers that handle `AuthenticateChannel` alike and reject every secret, whatever they do
-- with the other messages.
pub record SameRejection (d e : Dispatch) : Type 0 where
  pub same :
      (h : Header) (s : Stream) (buf : List ℕ)
      → (h.msg_id == authenticate_channel.id) ≡ true
      → d h s buf ≡ e h s buf
  pub rejected :
      (h : Header) (s : Stream) (buf : List ℕ) {s' : Stream} {buf' : List ℕ}
      → (h.msg_id == authenticate_channel.id) ≡ true
      → s.authenticated ≡ false
      → d h s buf ≡ ok (s', buf')
      → s'.authenticated ≡ false

read_exact-authenticated :
    (s : Stream) (n : ℕ) {bs : List ℕ} {s' : Stream}
    → read_exact s n ≡ ok (bs, s')
    → s'.authenticated ≡ s.authenticated
unfolding read_exact
read_exact-authenticated s n e = ground arith

module _ {d e : Dispatch} (r : SameRejection d e) where
  read_stream-same :
      (s : Stream) (buf : List ℕ)
      → s.authenticated ≡ false
      → read_stream true d s buf ≡ read_stream true e s buf
  unfolding read_stream read_exact
  read_stream-same s buf h = elim (Result-cases (deserialize_header (take 40 s.input))) [
    | inl p ↦ ground arith
    | inr (inl (q, p)) ↦ ground arith
    | inr (inr (header, p)) ↦ elim (Bool-cases (header.msg_id == authenticate_channel.id)) [
      | inl is ↦ ground (
        arith,
        r.same header (record s { input = drop (header.msg_len - 40) (drop 40 s.input) })
            (take 40 s.input
              ++ take (header.msg_len - 40) (drop 40 s.input)
              ++ drop header.msg_len buf)
            is,
      )
      | inr other ↦ ground arith
    ]
  ]

  read_stream-rejected :
      (s : Stream) (buf : List ℕ) {s' : Stream} {buf' : List ℕ}
      → s.authenticated ≡ false
      → read_stream true d s buf ≡ ok (s', buf')
      → s'.authenticated ≡ false
  read_stream-rejected s buf h eq =
      let x = read_stream_ok true d s buf eq in
      r.rejected x.header x.after_body _ (ground (arith, x.allowed))
        (ground (
          arith,
          read_exact-authenticated s 40 x.head_read,
          read_exact-authenticated x.after_head (x.header.msg_len - 40) x.body_read,
        ))
        (sym x.called)

  -- Where authentication is required, the handlers of the other messages have no effect on a stream
  -- that is not authenticated: as long as its handler rejects every secret, the loop ends the same
  -- way whatever is done with messages that are not `AuthenticateChannel`.
  pub stream_loop-unauthenticated :
      (fuel : ℕ) (s : Stream) (buf : List ℕ)
      → s.authenticated ≡ false
      → stream_loop fuel true d s buf ≡ stream_loop fuel true e s buf
  unfolding stream_loop
  stream_loop-unauthenticated zero s buf h = refl
  stream_loop-unauthenticated (suc fuel) s buf h = elim (Result-cases (read_stream true d s buf)) [
    | inl p ↦ ground (arith, p, read_stream-same s buf h)
    | inr (inl (q, p)) ↦ ground (arith, p, read_stream-same s buf h)
    | inr (inr ((s', buf'), p)) ↦ ground (
      arith,
      p,
      read_stream-same s buf h,
      stream_loop-unauthenticated fuel s' buf' (read_stream-rejected s buf h p),
    )
  ]
