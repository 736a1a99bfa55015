-- ===== src/Conn/Outgoing/Permits.antt =====
-- What `comm_stream` (shared/src/conn/outgoing.rs) does with the permits and the streams of the store.
use beegfs_rust.Prelude.{
  ℕ, zero, suc, not, ◌&&◌, Bool, Option, none, some, List, [], ◌∷◌, ◌++◌, length, ◌≡◌, refl, sym,
  subst, Bool-cases, Option-cases, inl, inr,
}
use beegfs_rust.Result.{Result, ok, err, panicked}
use beegfs_rust.Serde.Header.{Header}
use beegfs_rust.Conn.{Stream}
use beegfs_rust.Conn.Queue.{front}
use beegfs_rust.Conn.Store.{
  SemaphoreLaws, StoredStream, Store, entry_of, new_streams_entry, try_pop_stream,
  try_acquire_permit, drop_permit, get_node_addrs, pop_buf, pop_buf_or_create, push_buf,
}
use beegfs_rust.Conn.Store.Limit.{
  lend, Balanced, try_pop_stream-some, try_pop_stream-none, try_acquire_permit-some,
  try_acquire_permit-none, push_stream-Balanced, drop_permit-Balanced,
}
use beegfs_rust.Conn.Store.Wait.{Meanwhile, AtSome, at_once, AtSome-map, Waited, pop_stream-Waited}
use beegfs_rust.Conn.Outgoing.{
  Exchange, exchange, after_exchange, after_turn, after_pop, after_sent, after_authenticate,
  after_wait, give_up, after_connect, after_acquire, after_stored, Comm, Tried, answered, none_left,
  Runtime, write_and_read_stream, try_stored, authenticate, connect, wait_stream, comm_stream,
}

module _ {N S A : Type 0} (rt : Runtime N S A) (limit : ℕ) where
  abbrev pub Kept : (ℕ → ℕ) → Store N S Stream A → Type 0
  Kept = Balanced rt.notify rt.semaphore limit

  -- The other tasks hold `out` of the permits when the call starts, and then `outs`.
  abbrev pub Others : (ℕ → ℕ) → List (ℕ → ℕ) → Type 0
  Others out outs = Meanwhile rt.notify rt.semaphore limit out rt.meanwhile outs

  -- The balance, with what the other tasks hold at the start or at a time of the wait.
  abbrev pub KeptAtSome : (ℕ → ℕ) → List (ℕ → ℕ) → Store N S Stream A → Type 0
  KeptAtSome out outs store = AtSome (λ o. Kept o store) out outs

module _ {N S A : Type 0} (rt : Runtime N S A) (limit : ℕ) (laws : SemaphoreLaws rt.semaphore)
    (out : ℕ → ℕ) (node_uid : ℕ) where
  -- The stream comes back into the store, or its permit does.
  after_exchange-Kept :
      (stream : StoredStream Stream) (store : Store N S Stream A) (x : Exchange (Header × Stream))
      → Kept rt limit (lend stream.key out) store
      → Kept rt limit out (after_exchange rt stream store x).store
  unfolding after_exchange
  after_exchange-Kept stream store (panicked, buf) b =
      drop_permit-Balanced rt.notify rt.semaphore laws limit out stream.key store b
  after_exchange-Kept stream store (err e, buf) b =
      drop_permit-Balanced rt.notify rt.semaphore laws limit out stream.key store b
  after_exchange-Kept stream store (ok (header, after), buf) b =
      push_stream-Balanced rt.notify rt.semaphore laws limit out (record stream { stream = after })
        store b

  exchange-Kept :
      (buf : List ℕ) (stream : StoredStream Stream) (n : ℕ) (expect : Bool)
      (store : Store N S Stream A)
      → stream.key ≡ node_uid
      → Kept rt limit (lend node_uid out) store
      → Kept rt limit out (write_and_read_stream rt buf stream n expect store).store
  unfolding write_and_read_stream
  exchange-Kept buf stream n expect store k b =
      after_exchange-Kept stream store (exchange rt.write_all buf stream.stream n expect)
        (subst (λ i. Kept rt limit (lend i out) store) (sym k) b)

  TriedKept : Tried N S A → Type 0
  TriedKept (answered comm) = Kept rt limit out comm.store
  TriedKept (none_left buf store) = Kept rt limit out store

  after_turn-Kept :
      (next : List ℕ → Store N S Stream A → Tried N S A) (comm : Comm N S A) (r : Result Header)
      → ((buf : List ℕ) (store : Store N S Stream A)
          → Kept rt limit out store
          → TriedKept (next buf store))
      → comm.result ≡ r
      → Kept rt limit out comm.store
      → TriedKept (after_turn rt next comm)
  unfolding after_turn TriedKept
  after_turn-Kept next comm panicked step e b = rw (after_turn, e) b
  after_turn-Kept next comm (ok header) step e b = rw (after_turn, e) b
  after_turn-Kept next comm (err x) step e b = rw (after_turn, e) (step comm.buf comm.store b)

  after_pop-Kept :
      (next : List ℕ → Store N S Stream A → Tried N S A) (buf : List ℕ) (n : ℕ) (expect : Bool)
      (store : Store N S Stream A) (popped : Option (StoredStream Stream) × Store N S Stream A)
      → ((buf : List ℕ) (store : Store N S Stream A)
          → Kept rt limit out store
          → TriedKept (next buf store))
      → try_pop_stream rt.notify rt.semaphore node_uid store ≡ popped
      → Kept rt limit out store
      → TriedKept (after_pop rt next buf n expect popped)
  unfolding after_pop TriedKept
  after_pop-Kept next buf n expect store (none, store') step e b =
      try_pop_stream-none rt.notify rt.semaphore laws limit out node_uid store store' b e
  after_pop-Kept next buf n expect store (some stream, store') step e b =
      let (own, lent) =
        try_pop_stream-some rt.notify rt.semaphore laws limit out node_uid store store' b e in
      let comm = write_and_read_stream rt buf stream n expect store' in
      after_turn-Kept next comm comm.result step refl
        (exchange-Kept buf stream n expect store' own lent)

  tried_kept :
      (fuel : ℕ) (buf : List ℕ) (n : ℕ) (expect : Bool) (store : Store N S Stream A)
      → Kept rt limit out store
      → TriedKept (try_stored rt fuel node_uid buf n expect store)
  unfolding try_stored TriedKept
  tried_kept zero buf n expect store b = b
  tried_kept (suc fuel) buf n expect store b =
      after_pop-Kept (λ buf' store'. try_stored rt fuel node_uid buf' n expect store') buf n expect
        store (try_pop_stream rt.notify rt.semaphore node_uid store)
        (λ buf' store' b'. tried_kept fuel buf' n expect store' b') refl b

  -- The buffers are no part of the balance.
  bufs-Kept :
      (bufs : List (List ℕ)) (held : ℕ → ℕ) (store : Store N S Stream A)
      → Kept rt limit held store
      → Kept rt limit held (record store { bufs = bufs })
  unfolding entry_of new_streams_entry
  bufs-Kept bufs held store b = b

  after_sent-Kept :
      (store : Store N S Stream A) (held : ℕ → ℕ) (sent : Result (Stream × List ℕ))
      → Kept rt limit held store
      → Kept rt limit held (after_sent rt store sent)
  unfolding after_sent push_buf
  after_sent-Kept store held (ok (stream, buf)) b =
      bufs-Kept (store.bufs ++ (buf ∷ [])) held store b
  after_sent-Kept store held (err e) b = b
  after_sent-Kept store held panicked b = b

  authenticate-Kept :
      (secret : Option ℕ) (stream : Stream) (store : Store N S Stream A) (held : ℕ → ℕ)
      → Kept rt limit held store
      → Kept rt limit held (authenticate rt secret stream store).1
  unfolding authenticate pop_buf_or_create pop_buf
  authenticate-Kept none stream store held b = b
  authenticate-Kept (some secret) stream store held b =
      after_sent-Kept _ held _ (bufs-Kept (front store.bufs).1 held store b)

  after_authenticate-Kept :
      (permit : ℕ) (buf : List ℕ) (n : ℕ) (expect : Bool) (x : Result Stream × Store N S Stream A)
      → permit ≡ node_uid
      → Kept rt limit (lend node_uid out) x.1
      → Kept rt limit out (after_authenticate rt permit buf n expect x).store
  unfolding after_authenticate give_up
  after_authenticate-Kept permit buf n expect (panicked, store) k b =
      drop_permit-Balanced rt.notify rt.semaphore laws limit out permit store
        (subst (λ i. Kept rt limit (lend i out) store) (sym k) b)
  after_authenticate-Kept permit buf n expect (err e, store) k b =
      drop_permit-Balanced rt.notify rt.semaphore laws limit out permit store
        (subst (λ i. Kept rt limit (lend i out) store) (sym k) b)
  after_authenticate-Kept permit buf n expect (ok stream, store) k b =
      exchange-Kept buf (record { stream = stream; key = permit }) n expect store k b

  after_connect-Kept :
      (secret : Option ℕ) (permit : ℕ) (buf : List ℕ) (n : ℕ) (expect : Bool)
      (store : Store N S Stream A) (rest : Comm N S A) (r : Result Stream)
      → permit ≡ node_uid
      → Kept rt limit (lend node_uid out) store
      → Kept rt limit out rest.store
      → Kept rt limit out (after_connect rt secret permit buf n expect store rest r).store
  unfolding after_connect give_up
  after_connect-Kept secret permit buf n expect store rest panicked k b c =
      drop_permit-Balanced rt.notify rt.semaphore laws limit out permit store
        (subst (λ i. Kept rt limit (lend i out) store) (sym k) b)
  after_connect-Kept secret permit buf n expect store rest (err e) k b c = c
  after_connect-Kept secret permit buf n expect store rest (ok stream) k b c =
      after_authenticate-Kept permit buf n expect (authenticate rt secret stream store) k
        (authenticate-Kept secret stream store (lend node_uid out) b)

  connect-Kept :
      (use_ipv6 : Bool) (secret : Option ℕ) (permit : ℕ) (buf : List ℕ) (n : ℕ) (expect : Bool)
      (store : Store N S Stream A) (addrs : List A)
      → permit ≡ node_uid
      → Kept rt limit (lend node_uid out) store
      → Kept rt limit out (connect rt use_ipv6 secret permit buf n expect store addrs).store
  unfolding connect give_up
  connect-Kept use_ipv6 secret permit buf n expect store [] k b =
      drop_permit-Balanced rt.notify rt.semaphore laws limit out permit store
        (subst (λ i. Kept rt limit (lend i out) store) (sym k) b)
  connect-Kept use_ipv6 secret permit buf n expect store (addr ∷ addrs) k b =
      let rest = connect rt use_ipv6 secret permit buf n expect store addrs in
      let kept = connect-Kept use_ipv6 secret permit buf n expect store addrs k b in
      elim (Bool-cases (rt.is_ipv6 addr && not use_ipv6)) [
        | inl p ↦ rw p kept
        | inr p ↦ rw p (
            after_connect-Kept secret permit buf n expect store rest (rt.connect_tcp addr) k b kept)
      ]

module _ {N S A : Type 0} (rt : Runtime N S A) (limit : ℕ) (laws : SemaphoreLaws rt.semaphore)
    (out : ℕ → ℕ) (outs : List (ℕ → ℕ)) (others : Others rt limit out outs) (node_uid : ℕ) where
  abbrev End : Store N S Stream A → Type 0
  End = KeptAtSome rt limit out outs

  ended : (store : Store N S Stream A) → Kept rt limit out store → End store
  ended store b = at_once (λ o. Kept rt limit o store) out outs b

  wait-End :
      (buf : List ℕ) (n : ℕ) (expect : Bool)
      (got : Option (StoredStream Stream) × Store N S Stream A)
      → Waited rt.notify rt.semaphore limit node_uid out outs got
      → End (after_wait rt buf n expect got).store
  unfolding after_wait
  wait-End buf n expect (none, store) w = w
  wait-End buf n expect (some stream, store) w =
      AtSome-map (λ o. Kept rt limit (lend node_uid o) store)
        (λ o. Kept rt limit o (write_and_read_stream rt buf stream n expect store).store) out outs
        (λ o b. exchange-Kept rt limit laws o node_uid buf stream n expect store w.0 b) w.1

  after_acquire-End :
      (use_ipv6 : Bool) (secret : Option ℕ) (buf : List ℕ) (n : ℕ) (expect : Bool)
      (store : Store N S Stream A) (x : Option ℕ × Store N S Stream A)
      → try_acquire_permit rt.notify rt.semaphore node_uid store ≡ x
      → Kept rt limit out store
      → End (after_acquire rt use_ipv6 secret node_uid buf n expect x).store
  unfolding after_acquire give_up wait_stream
  after_acquire-End use_ipv6 secret buf n expect store (none, store') e b =
      wait-End buf n expect _ (
        pop_stream-Waited rt.notify rt.semaphore laws limit node_uid rt.meanwhile out outs store'
          others
          (try_acquire_permit-none rt.notify rt.semaphore laws limit out node_uid store store' b e))
  after_acquire-End use_ipv6 secret buf n expect store (some permit, store') e b =
      let (own, lent) =
        try_acquire_permit-some rt.notify rt.semaphore laws limit out node_uid store store' b e in
      elim (Option-cases (get_node_addrs node_uid store')) [
        | inl p ↦
            rw (after_acquire, p)
              (ended (drop_permit rt.notify rt.semaphore permit store') (
                drop_permit-Balanced rt.notify rt.semaphore laws limit out permit store'
                  (subst (λ i. Kept rt limit (lend i out) store') (sym own) lent)))
        | inr (addrs, p) ↦
            rw (after_acquire, p)
              (ended (connect rt use_ipv6 secret permit buf n expect store' addrs).store (
                connect-Kept rt limit laws out node_uid use_ipv6 secret permit buf n expect store'
                  addrs own lent))
      ]

  after_stored-End :
      (use_ipv6 : Bool) (secret : Option ℕ) (n : ℕ) (expect : Bool) (x : Tried N S A)
      → TriedKept rt limit laws out node_uid x
      → End (after_stored rt use_ipv6 secret node_uid n expect x).store
  unfolding after_stored TriedKept
  after_stored-End use_ipv6 secret n expect (answered comm) b = ended comm.store b
  after_stored-End use_ipv6 secret n expect (none_left buf store) b =
      after_acquire-End use_ipv6 secret buf n expect store
        (try_acquire_permit rt.notify rt.semaphore node_uid store) refl b

-- A call of `comm_stream` gives back what it takes, however it ends: with an answer of a stored stream, of
-- a new one or of one that it has waited for, with an error of any of them, of all addresses or of the
-- authentication, a timeout or a panic. For every node the permits that are available, in stored streams and
-- with other tasks are the limit before and after it, where the other tasks may take and give back permits
-- while it waits.
pub comm_stream-Balanced :
    {N S A : Type 0} (rt : Runtime N S A) (limit : ℕ) (out : ℕ → ℕ) (outs : List (ℕ → ℕ))
    (use_ipv6 : Bool) (secret : Option ℕ) (node_uid : ℕ) (buf : List ℕ) (n : ℕ) (expect : Bool)
    (store : Store N S Stream A)
    → SemaphoreLaws rt.semaphore
    → Others rt limit out outs
    → Balanced rt.notify rt.semaphore limit out store
    → KeptAtSome rt limit out outs
        (comm_stream rt use_ipv6 secret node_uid buf n expect store).store
unfolding comm_stream
comm_stream-Balanced rt limit out outs use_ipv6 secret node_uid buf n expect store laws others b =
    after_stored-End rt limit laws out outs others node_uid use_ipv6 secret n expect _ (
      tried_kept rt limit laws out node_uid
        (suc (length (entry_of rt.notify rt.semaphore node_uid store).queue.queue)) buf n expect
        store b)
