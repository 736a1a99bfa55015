-- ===== src/Conn/Outgoing/Requests.antt =====
-- `request`, `send` and `broadcast_datagram` (shared/src/conn/outgoing.rs), around `comm_stream`.
use beegfs_rust.Prelude.{
  ℕ, suc, leb, ◌==◌, ◌&&◌, ◌||◌, not, if◌then◌else◌, Bool, true, false, Option, none, some, List,
  [], ◌∷◌, ◌++◌, length, take, drop,
}
use beegfs_rust.Result.{Result, ok, err, panicked, ◌>>=◌}
use beegfs_rust.Serde.Header.{Header, header_len}
use beegfs_rust.Serde.Serializer.{Ser}
use beegfs_rust.Serde.Deserializer.{Des}
use beegfs_rust.Message.Framing.{serialize, deserialize_body}
use beegfs_rust.Conn.{Stream}
use beegfs_rust.Conn.Queue.{front}
use beegfs_rust.Conn.Store.{
  SemaphoreLaws, Store, get_node_addrs, pop_buf, pop_buf_or_create, push_buf, entry_of,
  new_streams_entry,
}
use beegfs_rust.Conn.Store.Limit.{Balanced}
use beegfs_rust.Conn.Outgoing.{Comm, Runtime, comm_stream}
use beegfs_rust.Conn.Store.Wait.{AtSome-map, at_once}
use beegfs_rust.Conn.Outgoing.Permits.{Kept, Others, KeptAtSome, comm_stream-Balanced}

-- The response is in the buffer behind the header.
unfoldable pub response : {R : Type 0} → Des R → Header → List ℕ → Result R
unfolding deserialize_body
response des header buf =
    if leb header_len (length buf)
    then deserialize_body header des (drop header_len buf)
    else panicked

module _ {N S A : Type 0} (rt : Runtime N S A) (use_ipv6 : Bool) (auth_secret : Option ℕ) where
  -- The buffer goes back to the store only after a success.
  unfoldable pub keep_buf :
      {R : Type 0} → List ℕ → Store N S Stream A → Result R → Store N S Stream A
  unfolding push_buf
  keep_buf buf store (ok r) = push_buf buf store
  keep_buf buf store _ = store

  unfoldable pub after_comm :
      {R : Type 0} → (Header → List ℕ → Result R) → Comm N S A → Result R × Store N S Stream A
  unfolding keep_buf
  after_comm read comm =
      let result = comm.result >>= λ header. read header comm.buf in
      (result, keep_buf comm.buf comm.store result)

  -- What `request` and `send` share: `serialize` writes the message, `comm_stream` exchanges it.
  unfoldable pub communicate :
      {R : Type 0}
      → (Header → List ℕ → Result R)
      → Bool
      → ℕ
      → Result (ℕ × List ℕ)
      → Store N S Stream A
      → Result R × Store N S Stream A
  unfolding comm_stream after_comm
  communicate read expect node_uid panicked store = (panicked, store)
  communicate read expect node_uid (err e) store = (err e, store)
  communicate read expect node_uid (ok (msg_len, buf)) store =
      after_comm read (comm_stream rt use_ipv6 auth_secret node_uid buf msg_len expect store)

  unfoldable pub request :
      {R : Type 0} → ℕ → ℕ → Ser → Des R → Store N S Stream A → Result R × Store N S Stream A
  unfolding pop_buf_or_create serialize communicate response
  request node_uid id ser des store =
      let (buf, store') = pop_buf_or_create store in
      communicate (response des) true node_uid (serialize id ser buf) store'

  unfoldable pub send : ℕ → ℕ → Ser → Store N S Stream A → Result (Unit {0}) × Store N S Stream A
  unfolding pop_buf_or_create serialize communicate
  send node_uid id ser store =
      let (buf, store') = pop_buf_or_create store in
      communicate (λ header buf. ok tt) false node_uid (serialize id ser buf) store'

-- The datagrams: `send_to` is the socket's. The number of addresses of a node where sending failed.
unfoldable pub send_errors : {A : Type 0} → (A → Result (Unit {0})) → (A → Bool) → Bool → List A → ℕ
send_errors send_to is_ipv6 use_ipv6 [] = 0
send_errors send_to is_ipv6 use_ipv6 (addr ∷ addrs) =
    let rest = send_errors send_to is_ipv6 use_ipv6 addrs in
    if is_ipv6 addr && not use_ipv6
    then rest
    else elim (send_to addr) as (λ x. ℕ) [ ok u ↦ rest | err e ↦ suc rest | panicked ↦ suc rest ]

module _ {N S A : Type 0} (send_to : List ℕ → A → Result (Unit {0})) (is_ipv6 : A → Bool)
    (use_ipv6 : Bool) where
  -- The nodes for which an error is logged.
  unfoldable pub broadcast_errors : List ℕ → List ℕ → Store N S Stream A → List ℕ
  unfolding send_errors get_node_addrs
  broadcast_errors [] bytes store = []
  broadcast_errors (node_uid ∷ peers) bytes store =
      let rest = broadcast_errors peers bytes store in
      elim (get_node_addrs node_uid store) as (λ x. List ℕ) [
        | none ↦ node_uid ∷ rest
        | some addrs ↦
            if length addrs == 0
              || send_errors (send_to bytes) is_ipv6 use_ipv6 addrs == length addrs
            then node_uid ∷ rest
            else rest
      ]

  unfoldable pub after_serialize :
      List ℕ → Store N S Stream A → Result (ℕ × List ℕ) → Result (List ℕ) × Store N S Stream A
  unfolding broadcast_errors push_buf
  after_serialize peers store panicked = (panicked, store)
  after_serialize peers store (err e) = (err e, store)
  after_serialize peers store (ok (msg_len, buf)) =
      (ok (broadcast_errors peers (take msg_len buf) store), push_buf buf store)

  unfoldable pub broadcast_datagram :
      List ℕ → ℕ → Ser → Store N S Stream A → Result (List ℕ) × Store N S Stream A
  unfolding pop_buf_or_create serialize after_serialize
  broadcast_datagram peers id ser store =
      let (buf, store') = pop_buf_or_create store in
      after_serialize peers store' (serialize id ser buf)

-- The permits are in balance after a request as well, whether the message or the response is bad or not.
module _ {N S A : Type 0} (rt : Runtime N S A) (limit : ℕ) (out : ℕ → ℕ) (outs : List (ℕ → ℕ))
    (laws : SemaphoreLaws rt.semaphore) (others : Others rt limit out outs) (use_ipv6 : Bool)
    (secret : Option ℕ) where
  keep_buf-Balanced :
      {R : Type 0} (buf : List ℕ) (store : Store N S Stream A) (r : Result R)
      → KeptAtSome rt limit out outs store
      → KeptAtSome rt limit out outs (keep_buf rt use_ipv6 secret buf store r)
  unfolding keep_buf push_buf entry_of new_streams_entry
  keep_buf-Balanced buf store (ok r) b =
      AtSome-map (λ o. Kept rt limit o store)
        (λ o. Kept rt limit o (record store { bufs = store.bufs ++ (buf ∷ []) })) out outs
        (λ o k. k) b
  keep_buf-Balanced buf store (err e) b = b
  keep_buf-Balanced buf store panicked b = b

  communicate-Balanced :
      {R : Type 0} (read : Header → List ℕ → Result R) (expect : Bool) (node_uid : ℕ)
      (sent : Result (ℕ × List ℕ)) (store : Store N S Stream A)
      → Balanced rt.notify rt.semaphore limit out store
      → KeptAtSome rt limit out outs
          (communicate rt use_ipv6 secret read expect node_uid sent store).1
  unfolding communicate after_comm
  communicate-Balanced read expect node_uid panicked store b =
      at_once (λ o. Kept rt limit o store) out outs b
  communicate-Balanced read expect node_uid (err e) store b =
      at_once (λ o. Kept rt limit o store) out outs b
  communicate-Balanced read expect node_uid (ok (msg_len, buf)) store b = keep_buf-Balanced _ _ _ (
      comm_stream-Balanced rt limit out outs use_ipv6 secret node_uid buf msg_len expect store laws
        others b)

  pub request-Balanced :
      {R : Type 0} (node_uid id : ℕ) (ser : Ser) (des : Des R) (store : Store N S Stream A)
      → Balanced rt.notify rt.semaphore limit out store
      → KeptAtSome rt limit out outs (request rt use_ipv6 secret node_uid id ser des store).1
  unfolding request pop_buf_or_create pop_buf entry_of new_streams_entry
  request-Balanced node_uid id ser des store b =
      communicate-Balanced (response des) true node_uid _
        (record store { bufs = (front store.bufs).1 }) b
