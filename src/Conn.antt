-- ===== src/Conn.antt =====
-- Connections to other nodes (shared/src/conn.rs, shared/src/conn/stream.rs, shared/src/conn/incoming.rs,
-- shared/src/conn/msg_dispatch.rs), without the async runtime.
pub mod Loop
pub mod Guard
pub mod Delivery
pub mod Transfer
pub mod Datagrams
pub mod Queue
pub mod Store
pub mod Outgoing
use beegfs_rust.Prelude.{
  ℕ, zero, suc, ◌+◌, ◌-◌, ◌*◌, ◌==◌, leb, not, ◌&&◌, ◌||◌, if◌then◌else◌, Bool, true, false, List,
  [], ◌++◌, length, take, drop, replicate,
}
use beegfs_rust.Result.{
  Result, Error, ok, err, panicked, unauthenticated, unexpected_eof, ◌>>=◌, ◌>>◌, ensure,
}
use beegfs_rust.Serde.Header.{Header, header_len}
use beegfs_rust.Serde.Serializer.{Ser}
use beegfs_rust.Serde.Deserializer.{Des}
use beegfs_rust.Message.Framing.{serialize, deserialize_header, deserialize_body}
use beegfs_rust.Message.Misc.{authenticate_channel}

unfoldable pub tcp_buf_len : ℕ
tcp_buf_len = 4 * 1024 * 1024

-- A stream: what the peer has sent and is not read yet, what was written to it, and the flag.
pub record Stream : Type 0 where
  pub input : List ℕ
  pub output : List ℕ
  pub authenticated : Bool

-- `From<TcpStream>`: an accepted stream is not authenticated.
abbrev pub accepted : List ℕ → Stream
accepted input = record { input = input; output = []; authenticated = false }

-- A peer that sends too little closes the connection or runs into the timeout: an error both ways.
unfoldable pub read_exact : Stream → ℕ → Result (List ℕ × Stream)
read_exact stream n =
    if leb n (length stream.input)
    then ok (take n stream.input, record stream { input = drop n stream.input })
    else err unexpected_eof

unfoldable pub write_all : Stream → List ℕ → Stream
write_all stream bytes = record stream { output = stream.output ++ bytes }

-- `dispatch_request` on a `StreamRequest`: it may change the stream and the buffer.
abbrev pub Dispatch : Type 0
Dispatch = Header → Stream → List ℕ → Result (Stream × List ℕ)

-- The methods of `StreamRequest`.
unfoldable pub respond : ℕ → Ser → Stream → List ℕ → Result (Stream × List ℕ)
respond id msg stream buf = do
  (msg_len, buf') ← serialize id msg buf
  ok (write_all stream (take msg_len buf'), buf')

abbrev pub authenticate_connection : Stream → Stream
authenticate_connection stream = record stream { authenticated = true }

unfoldable pub deserialize_msg : {M : Type 0} → Des M → Header → List ℕ → Result M
deserialize_msg des header buf = deserialize_body header des (drop header_len buf)

-- The slices `buf[0..Header::LEN]` and `buf[Header::LEN..header.msg_len()]` can panic.
unfoldable pub read_stream : Bool → Dispatch → Stream → List ℕ → Result (Stream × List ℕ)
unfolding read_exact
read_stream stream_authentication_required dispatch stream buf =
    if leb header_len (length buf)
    then (do
      (head, stream) ← read_exact stream header_len
      header ← deserialize_header head
      ensure
          (not (
            stream_authentication_required
            && not stream.authenticated
            && not (header.msg_id == authenticate_channel.id)))
          unauthenticated
      (if leb header_len header.msg_len && leb header.msg_len (length buf)
          then (do
            (body, stream) ← read_exact stream (header.msg_len - header_len)
            dispatch header stream (head ++ body ++ drop header.msg_len buf))
          else panicked))
    else panicked

-- How the loop of a stream ends: `running` where the fuel has run out.
pub data Ended : Type 0 where
  closed : Error → Ended
  task_panicked running : Ended

-- `stream_loop` without the shutdown signal: it ends by an error or a panic of `read_stream`.
unfoldable pub stream_loop : ℕ → Bool → Dispatch → Stream → List ℕ → Ended
unfolding read_stream
stream_loop zero required dispatch stream buf = running
stream_loop (suc fuel) required dispatch stream buf =
    elim (read_stream required dispatch stream buf) [
      | ok (stream', buf') ↦ stream_loop fuel required dispatch stream' buf'
      | err e ↦ closed e
      | panicked ↦ task_panicked
    ]

unfoldable pub udp_buf_len : ℕ
udp_buf_len = 65536

-- `recv_datagram`: a fresh buffer of zeros, with the datagram, cut off to the buffer, at its front.
unfoldable pub recv_datagram : {A : Type 0} → (Header → List ℕ → Result A) → List ℕ → Result A
unfolding udp_buf_len
recv_datagram dispatch datagram = do
  let received = take udp_buf_len datagram
  let buf = received ++ replicate (udp_buf_len - length received) 0
  header ← deserialize_header (take header_len buf)
  dispatch header buf
