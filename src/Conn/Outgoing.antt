-- ===== src/Conn/Outgoing.antt =====
-- Requests to other nodes (shared/src/conn/outgoing.rs). Writing to a stream and connecting are the
-- runtime's: parameters. What the other tasks do to the store while this one waits is one as well.
pub mod Permits
pub mod Requests
pub mod Turns
use beegfs_rust.Prelude.{
  ℕ, zero, suc, ◌+◌, ◌-◌, ◌==◌, leb, not, ◌&&◌, ◌||◌, if◌then◌else◌, Bool, true, false, Option,
  none, some, List, [], ◌∷◌, ◌++◌, length, take, drop,
}
use beegfs_rust.Result.{Result, ok, err, panicked, no_address, no_connection, timed_out, ◌>>=◌}
use beegfs_rust.Serde.Header.{Header, header_len, default_header}
use beegfs_rust.Message.Framing.{serialize, deserialize_header}
use beegfs_rust.Message.Misc.{authenticate_channel}
use beegfs_rust.Conn.{Stream, read_exact}
use beegfs_rust.Conn.Queue.{Notify, AsyncQueue}
use beegfs_rust.Conn.Store.{
  Semaphore, StoredStream, Store, entry_of, try_pop_stream, try_acquire_permit, push_stream,
  drop_permit, get_node_addrs, pop_buf_or_create, push_buf,
}
use beegfs_rust.Conn.Store.Wait.{pop_stream}

-- A buffer after reading at most `n` bytes to the place `at`: a read that fails leaves what it has got.
unfoldable pub fill_buf : ℕ → ℕ → Stream → List ℕ → List ℕ
fill_buf at n stream buf =
    let got = take n stream.input in take at buf ++ got ++ drop (at + length got) buf

-- The end of an exchange: what it returns, and the buffer it leaves.
abbrev pub Exchange : Type 0 → Type 0
Exchange T = Result T × List ℕ

unfoldable pub read_body : Header → Stream → List ℕ → Exchange (Header × Stream)
unfolding fill_buf read_exact
read_body header stream buf =
    if leb header_len header.msg_len && leb header.msg_len (length buf)
    then (
      (do (_, stream') ← read_exact stream (header.msg_len - header_len); ok (header, stream')),
      fill_buf header_len (header.msg_len - header_len) stream buf,
    )
    else (panicked, buf)

unfoldable pub read_response : Stream → List ℕ → Exchange (Header × Stream)
unfolding fill_buf read_exact read_body
read_response stream buf =
    if leb header_len (length buf)
    then (let buf' = fill_buf 0 header_len stream buf in
        let start : Result (Header × Stream) = (do
          (head, stream') ← read_exact stream header_len
          header ← deserialize_header head
          ok (header, stream')) in
        elim start as (λ x. Exchange (Header × Stream)) [
          | panicked ↦ (panicked, buf')
          | err e ↦ (err e, buf')
          | ok (header, stream') ↦ read_body header stream' buf'
        ])
    else (panicked, buf)

-- `write_and_read_stream` up to the last step.
unfoldable pub exchange :
    (Stream → List ℕ → Result Stream) → List ℕ → Stream → ℕ → Bool → Exchange (Header × Stream)
unfolding read_response
exchange write_all buf stream send_len expect_response =
    if leb send_len (length buf)
    then elim (write_all stream (take send_len buf)) as (λ x. Exchange (Header × Stream)) [
      | panicked ↦ (panicked, buf)
      | err e ↦ (err e, buf)
      | ok stream' ↦
          if expect_response then read_response stream' buf else (ok (default_header, stream'), buf)
    ]
    else (panicked, buf)

-- What a call leaves.
pub record Comm (N S A : Type 0) : Type 0 where
  pub result : Result Header
  pub buf : List ℕ
  pub store : Store N S Stream A

-- The first part of `comm_stream`: it has an answer, or no stream is left.
pub data Tried (N S A : Type 0) : Type 0 where
  answered : Comm N S A → Tried N S A
  none_left : List ℕ → Store N S Stream A → Tried N S A

-- The runtime: writing, connecting, the kind of an address, and what the other tasks do to the store, one
-- after the other, while this one waits for a stream, until the timeout.
pub record Runtime (N S A : Type 0) : Type 0 where
  pub notify : Notify N
  pub semaphore : Semaphore S
  pub write_all : Stream → List ℕ → Result Stream
  pub connect_tcp : A → Result Stream
  pub is_ipv6 : A → Bool
  pub meanwhile : List (Store N S Stream A → Store N S Stream A)

module _ {N S A : Type 0} (rt : Runtime N S A) where
  -- After an exchange the stream goes back to the store; when it failed, it is dropped with its permit.
  unfoldable pub after_exchange :
      StoredStream Stream → Store N S Stream A → Exchange (Header × Stream) → Comm N S A
  unfolding push_stream drop_permit
  after_exchange stream store (panicked, buf) = record {
    result = panicked;
    buf = buf;
    store = drop_permit rt.notify rt.semaphore stream.key store;
  }
  after_exchange stream store (err e, buf) = record {
    result = err e;
    buf = buf;
    store = drop_permit rt.notify rt.semaphore stream.key store;
  }
  after_exchange stream store (ok (header, after), buf) = record {
    result = ok header;
    buf = buf;
    store = push_stream rt.notify rt.semaphore (record stream { stream = after }) store;
  }

  unfoldable pub write_and_read_stream :
      List ℕ → StoredStream Stream → ℕ → Bool → Store N S Stream A → Comm N S A
  unfolding exchange after_exchange
  write_and_read_stream buf stream send_len expect_response store =
      after_exchange stream store (exchange rt.write_all buf stream.stream send_len expect_response)

  -- 1. The stored streams, as long as they fail. The fuel is the number of turns.
  unfoldable pub after_turn : (List ℕ → Store N S Stream A → Tried N S A) → Comm N S A → Tried N S A
  after_turn next comm = elim comm.result as (λ x. Tried N S A) [
    | ok header ↦ answered comm
    | panicked ↦ answered comm
    | err e ↦ next comm.buf comm.store
  ]

  unfoldable pub after_pop :
      (List ℕ → Store N S Stream A → Tried N S A)
      → List ℕ
      → ℕ
      → Bool
      → Option (StoredStream Stream) × Store N S Stream A
      → Tried N S A
  unfolding write_and_read_stream after_turn
  after_pop next buf send_len expect_response (none, store) = none_left buf store
  after_pop next buf send_len expect_response (some stream, store) =
      after_turn next (write_and_read_stream buf stream send_len expect_response store)

  unfoldable pub try_stored : ℕ → ℕ → List ℕ → ℕ → Bool → Store N S Stream A → Tried N S A
  unfolding try_pop_stream after_pop
  try_stored zero node_uid buf send_len expect_response store = none_left buf store
  try_stored (suc fuel) node_uid buf send_len expect_response store =
      after_pop (λ buf' store'. try_stored fuel node_uid buf' send_len expect_response store') buf
        send_len expect_response (try_pop_stream rt.notify rt.semaphore node_uid store)

  -- A new stream: the secret goes first, in a buffer of its own.
  unfoldable pub after_sent : Store N S Stream A → Result (Stream × List ℕ) → Store N S Stream A
  unfolding push_buf
  after_sent store (ok (stream, auth_buf)) = push_buf auth_buf store
  after_sent store _ = store

  unfoldable pub authenticate :
      Option ℕ → Stream → Store N S Stream A → Result Stream × Store N S Stream A
  unfolding pop_buf_or_create after_sent serialize
  authenticate none stream store = (ok stream, store)
  authenticate (some auth_secret) stream store =
      let (auth_buf, store') = pop_buf_or_create store in
      let sent : Result (Stream × List ℕ) = (do
        (msg_len, auth_buf') ←
            serialize authenticate_channel.id
              (authenticate_channel.format.serialize (record { auth_secret = auth_secret }))
              auth_buf
        stream' ← rt.write_all stream (take msg_len auth_buf')
        ok (stream', auth_buf')) in
      ((sent >>= λ r. ok r.0), after_sent store' sent)

  -- The permit is dropped when there is no stream to hold it.
  unfoldable pub give_up : Result Header → ℕ → List ℕ → Store N S Stream A → Comm N S A
  unfolding drop_permit
  give_up result permit buf store = record {
    result = result;
    buf = buf;
    store = drop_permit rt.notify rt.semaphore permit store;
  }

  unfoldable pub after_authenticate :
      ℕ → List ℕ → ℕ → Bool → Result Stream × Store N S Stream A → Comm N S A
  unfolding give_up write_and_read_stream
  after_authenticate permit buf send_len expect_response (panicked, store) =
      give_up panicked permit buf store
  after_authenticate permit buf send_len expect_response (err e, store) =
      give_up (err e) permit buf store
  after_authenticate permit buf send_len expect_response (ok stream, store) =
      write_and_read_stream buf (record { stream = stream; key = permit }) send_len expect_response
        store

  -- 2. A new stream to the first address that answers, with the permit of the node.
  unfoldable pub after_connect :
      Option ℕ
      → ℕ
      → List ℕ
      → ℕ
      → Bool
      → Store N S Stream A
      → Comm N S A
      → Result Stream
      → Comm N S A
  unfolding give_up authenticate after_authenticate
  after_connect auth_secret permit buf send_len expect_response store rest panicked =
      give_up panicked permit buf store
  after_connect auth_secret permit buf send_len expect_response store rest (err e) = rest
  after_connect auth_secret permit buf send_len expect_response store rest (ok stream) =
      after_authenticate permit buf send_len expect_response (authenticate auth_secret stream store)

  unfoldable pub connect :
      Bool → Option ℕ → ℕ → List ℕ → ℕ → Bool → Store N S Stream A → List A → Comm N S A
  unfolding give_up after_connect
  connect use_ipv6 auth_secret permit buf send_len expect_response store [] =
      give_up (err no_connection) permit buf store
  connect use_ipv6 auth_secret permit buf send_len expect_response store (addr ∷ addrs) =
      let rest = connect use_ipv6 auth_secret permit buf send_len expect_response store addrs in
      if rt.is_ipv6 addr && not use_ipv6
      then rest
      else after_connect auth_secret permit buf send_len expect_response store rest
          (rt.connect_tcp addr)

  -- 3. Waiting for a stream.
  unfoldable pub after_wait :
      List ℕ → ℕ → Bool → Option (StoredStream Stream) × Store N S Stream A → Comm N S A
  unfolding write_and_read_stream
  after_wait buf send_len expect_response (none, store) = record {
    result = err timed_out;
    buf = buf;
    store = store;
  }
  after_wait buf send_len expect_response (some stream, store) =
      write_and_read_stream buf stream send_len expect_response store

  unfoldable pub wait_stream : ℕ → List ℕ → ℕ → Bool → Store N S Stream A → Comm N S A
  unfolding pop_stream after_wait
  wait_stream node_uid buf send_len expect_response store =
      after_wait buf send_len expect_response
        (pop_stream rt.notify rt.semaphore node_uid rt.meanwhile store)

  unfoldable pub after_acquire :
      Bool → Option ℕ → ℕ → List ℕ → ℕ → Bool → Option ℕ × Store N S Stream A → Comm N S A
  unfolding get_node_addrs connect wait_stream give_up
  after_acquire use_ipv6 auth_secret node_uid buf send_len expect_response (none, store) =
      wait_stream node_uid buf send_len expect_response store
  after_acquire use_ipv6 auth_secret node_uid buf send_len expect_response (some permit, store) =
      elim (get_node_addrs node_uid store) as (λ x. Comm N S A) [
        | none ↦ give_up (err no_address) permit buf store
        | some addrs ↦ connect use_ipv6 auth_secret permit buf send_len expect_response store addrs
      ]

  unfoldable pub after_stored : Bool → Option ℕ → ℕ → ℕ → Bool → Tried N S A → Comm N S A
  unfolding try_acquire_permit after_acquire
  after_stored use_ipv6 auth_secret node_uid send_len expect_response (answered comm) = comm
  after_stored use_ipv6 auth_secret node_uid send_len expect_response (none_left buf store) =
      after_acquire use_ipv6 auth_secret node_uid buf send_len expect_response
        (try_acquire_permit rt.notify rt.semaphore node_uid store)

  -- Every turn of the first part takes a stream, so one more turn than there are streams finds none.
  unfoldable pub comm_stream :
      Bool → Option ℕ → ℕ → List ℕ → ℕ → Bool → Store N S Stream A → Comm N S A
  unfolding entry_of try_stored after_stored
  comm_stream use_ipv6 auth_secret node_uid buf send_len expect_response store =
      let turns = suc (length (entry_of rt.notify rt.semaphore node_uid store).queue.queue) in
      after_stored use_ipv6 auth_secret node_uid send_len expect_response
        (try_stored turns node_uid buf send_len expect_response store)
