-- ===== src/Conn/Loop.antt =====
-- `stream_loop` (shared/src/conn/incoming.rs): it ends, and it guards what is dispatched.
use beegfs_rust.Prelude.{
  ℕ, zero, suc, ◌+◌, ◌-◌, ◌≤◌, ◌<◌, ◌≡◌, ◌≢◌, Bool, false, List, ◌++◌, ◌&&◌, not, ◌==◌, sym, length,
  inl, inr, take, drop, arith, length-drop,
}
use beegfs_rust.Result.{Result, ok, Result-cases}
use beegfs_rust.Serde.Header.{Header, header_len}
use beegfs_rust.Message.Framing.{deserialize_header}
use beegfs_rust.Message.Misc.{authenticate_channel}
use beegfs_rust.Conn.{Stream, Dispatch, running, read_exact, read_stream, stream_loop}

-- The dispatcher does not put back what was read.
pub record Consumes (dispatch : Dispatch) : Type 0 where
  pub input :
      (h : Header) (s : Stream) (buf : List ℕ) {s' : Stream} {buf' : List ℕ}
      → dispatch h s buf ≡ ok (s', buf')
      → length s'.input ≤ length s.input

read_exact-input :
    (s : Stream) (n : ℕ) {bs : List ℕ} {s' : Stream}
    → read_exact s n ≡ ok (bs, s')
    → length s.input ≡ n + length s'.input
unfolding read_exact
read_exact-input s n e = ground (arith, length-drop n s.input)

-- What `read_stream` has done when it has called the dispatcher.
pub record Dispatched (required : Bool) (dispatch : Dispatch) (s : Stream) (buf : List ℕ)
    (result : Result (Stream × List ℕ)) : Type 0 where
  pub head : List ℕ
  pub body : List ℕ
  pub header : Header
  pub after_head : Stream
  pub after_body : Stream
  pub head_read : read_exact s header_len ≡ ok (head, after_head)
  pub parsed : deserialize_header head ≡ ok header
  pub allowed :
      (required && not s.authenticated && not (header.msg_id == authenticate_channel.id)) ≡ false
  pub body_read : read_exact after_head (header.msg_len - header_len) ≡ ok (body, after_body)
  pub called : result ≡ dispatch header after_body (head ++ body ++ drop header.msg_len buf)

pub read_stream_ok :
    (required : Bool) (dispatch : Dispatch) (s : Stream) (buf : List ℕ) {r : Stream × List ℕ}
    → read_stream required dispatch s buf ≡ ok r
    → Dispatched required dispatch s buf (ok r)
unfolding read_stream read_exact
read_stream_ok required dispatch s buf e =
    elim (Result-cases (deserialize_header (take 40 s.input))) [
      | inl p ↦ absurd (ground arith)
      | inr (inl (r, p)) ↦ absurd (ground arith)
      | inr (inr (header, p)) ↦ record {
        head = take 40 s.input;
        body = take (header.msg_len - 40) (drop 40 s.input);
        header = header;
        after_head = record s { input = drop 40 s.input };
        after_body = record s { input = drop (header.msg_len - 40) (drop 40 s.input) };
        head_read = ground arith;
        parsed = p;
        allowed = ground arith;
        body_read = ground arith;
        called = ground arith;
      }
    ]

module _ {dispatch : Dispatch} (c : Consumes dispatch) (required : Bool) where
  -- A request that is handled takes at least a header off the input.
  read_stream-input :
      (s : Stream) (buf : List ℕ) {s' : Stream} {buf' : List ℕ}
      → read_stream required dispatch s buf ≡ ok (s', buf')
      → length s'.input < length s.input
  read_stream-input s buf e =
      let d = read_stream_ok required dispatch s buf e in
      omega (
        arith,
        read_exact-input s 40 d.head_read,
        read_exact-input d.after_head (d.header.msg_len - 40) d.body_read,
        c.input d.header d.after_body _ (sym d.called),
      )

  -- With a dispatcher that puts no input back, the loop of a stream ends before the fuel does if that
  -- is greater than the number of bytes that the peer sends.
  pub stream_loop-ends :
      (fuel : ℕ) (s : Stream) (buf : List ℕ)
      → length s.input < fuel
      → stream_loop fuel required dispatch s buf ≢ running
  unfolding stream_loop
  stream_loop-ends zero s buf h = omega arith
  stream_loop-ends (suc fuel) s buf h = elim (Result-cases (read_stream required dispatch s buf)) [
    | inl p ↦ λ q. cc
    | inr (inl (r, p)) ↦ λ q. cc
    | inr (inr ((s', buf'), p)) ↦
        λ q. stream_loop-ends fuel s' buf' (omega (arith, read_stream-input s buf p)) (cc)
  ]
