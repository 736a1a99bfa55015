-- ===== src/Conn/Outgoing/Turns.antt =====
-- The turns that `comm_stream` (shared/src/conn/outgoing.rs) makes over the stored streams of a node.
use beegfs_rust.Prelude.{
  ℕ, zero, suc, ◌<◌, ◌==◌, if◌then◌else◌, Bool, true, Option, none, some, List, [], ◌∷◌, length,
  ◌≡◌, refl, sym, ap, ◌∙◌, arith, Bool-cases, inl, inr, All,
}
use beegfs_rust.Result.{ok, err, panicked}
use beegfs_rust.Serde.Header.{Header}
use beegfs_rust.Conn.{Stream}
use beegfs_rust.Conn.Queue.{front, try_pop}
use beegfs_rust.Conn.Store.{StoredStream, Entry, Store, entry_of, try_pop_stream, drop_permit}
use beegfs_rust.Conn.Store.Limit.{front-taken, popped_queue, entry_of-put_entry}
use beegfs_rust.Conn.Outgoing.{
  Exchange, exchange, after_exchange, write_and_read_stream, after_turn, after_pop, try_stored,
  Tried, Runtime,
}

module _ {N S A : Type 0} (rt : Runtime N S A) (node_uid : ℕ) where
  -- The stored streams of the node.
  abbrev pub left : Store N S Stream A → ℕ
  left store = length (entry_of rt.notify rt.semaphore node_uid store).queue.queue

  left-popped :
      (store store' : Store N S Stream A) {stream : StoredStream Stream}
      → try_pop_stream rt.notify rt.semaphore node_uid store ≡ (some stream, store')
      → left store ≡ suc (left store')
  unfolding try_pop_stream
  left-popped store store' {stream = stream} e =
      let old = entry_of rt.notify rt.semaphore node_uid store in
      let (item, rest) = popped_queue rt.notify old.queue in
      let taken : (front old.queue.queue).0.0 ≡ some stream = ap (λ r. r.0) e in
      let q = (try_pop rt.notify old.queue).1 in
      let (n, _) = front-taken (λ x. Unit {0}) old.queue.queue taken (anything old.queue.queue) in
      let now : entry_of rt.notify rt.semaphore node_uid store' ≡ record old { queue = q } =
        ap (λ r. entry_of rt.notify rt.semaphore node_uid r.1) (sym e)
        ∙ (entry_of-put_entry rt.notify rt.semaphore node_uid node_uid (record old { queue = q })
              store
            ∙ same (record old { queue = q }) old) in
      n ∙ ap suc (ap length (sym rest) ∙ ap (λ x. length x.queue.queue) (sym now))
    where
      anything : (xs : List (StoredStream Stream)) → All (λ x. Unit {0}) xs
      anything [] = tt
      anything (x ∷ xs) = (tt, anything xs)

      same : (a b : Entry N S Stream) → (if node_uid == node_uid then a else b) ≡ a
      same a b = let own : (node_uid == node_uid) ≡ true = ground arith in rw own refl

  -- Dropping a permit leaves the queues alone.
  left-dropped :
      (key : ℕ) (store : Store N S Stream A)
      → left (drop_permit rt.notify rt.semaphore key store) ≡ left store
  unfolding drop_permit
  left-dropped key store =
      let old = entry_of rt.notify rt.semaphore key store in
      let new = record old { semaphore = rt.semaphore.add_permit old.semaphore } in
      ap (λ x. length x.queue.queue)
        (entry_of-put_entry rt.notify rt.semaphore node_uid key new store)
      ∙ elim (Bool-cases (key == node_uid)) [
        | inl p ↦
            let at : key ≡ node_uid = ground (arith, p) in
            rw p (ap (λ k. length (entry_of rt.notify rt.semaphore k store).queue.queue) at)
        | inr p ↦ rw p refl
      ]

  turn_same :
      (m n : List ℕ → Store N S Stream A → Tried N S A) (k : ℕ) (stream : StoredStream Stream)
      (store : Store N S Stream A) (x : Exchange (Header × Stream))
      → ((buf : List ℕ) (s : Store N S Stream A) → left s ≡ k → m buf s ≡ n buf s)
      → left store ≡ k
      → after_turn rt m (after_exchange rt stream store x)
        ≡ after_turn rt n (after_exchange rt stream store x)
  unfolding after_turn after_exchange
  turn_same m n k stream store (panicked, buf) h e = refl
  turn_same m n k stream store (err r, buf) h e =
      h buf (drop_permit rt.notify rt.semaphore stream.key store)
        (left-dropped stream.key store ∙ e)
  turn_same m n k stream store (ok (header, after), buf) h e = refl

  pop_same :
      (m n : List ℕ → Store N S Stream A → Tried N S A) (buf : List ℕ) (len : ℕ) (expect : Bool)
      (store : Store N S Stream A) (popped : Option (StoredStream Stream) × Store N S Stream A)
      → ((buf : List ℕ) (s : Store N S Stream A) → suc (left s) ≡ left store → m buf s ≡ n buf s)
      → try_pop_stream rt.notify rt.semaphore node_uid store ≡ popped
      → after_pop rt m buf len expect popped ≡ after_pop rt n buf len expect popped
  unfolding after_pop write_and_read_stream
  pop_same m n buf len expect store (none, store') h e = refl
  pop_same m n buf len expect store (some stream, store') h e =
      turn_same m n (left store') stream store' (exchange rt.write_all buf stream.stream len expect)
        (λ b s q. h b s (ap suc q ∙ sym (left-popped store store' e))) refl

  -- The turns do not run out: any two numbers of turns that are greater than that of the stored streams
  -- of the node give the same result.
  pub enough_turns :
      (fuel more : ℕ) (buf : List ℕ) (len : ℕ) (expect : Bool) (store : Store N S Stream A)
      → left store < fuel
      → left store < more
      → try_stored rt fuel node_uid buf len expect store
        ≡ try_stored rt more node_uid buf len expect store
  unfolding try_stored
  enough_turns zero more buf len expect store h k = absurd (omega arith)
  enough_turns (suc fuel) zero buf len expect store h k = absurd (omega arith)
  enough_turns (suc fuel) (suc more) buf len expect store h k =
      pop_same (λ b s. try_stored rt fuel node_uid b len expect s)
        (λ b s. try_stored rt more node_uid b len expect s) buf len expect store
        (try_pop_stream rt.notify rt.semaphore node_uid store)
        (λ b s q. enough_turns fuel more b len expect s (omega arith) (omega arith)) refl
