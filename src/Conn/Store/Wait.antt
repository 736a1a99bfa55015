-- ===== src/Conn/Store/Wait.antt =====
-- Waiting for a stream: `Store::pop_stream` (shared/src/conn/store.rs) and the loop of `AsyncQueue::pop`
-- (shared/src/conn/async_queue.rs) on the queue of a node.
use beegfs_rust.Prelude.{
  ℕ, Option, none, some, List, [], ◌∷◌, ◌≡◌, refl, ◌⊎◌, inl, inr, Option-cases,
}
use beegfs_rust.Conn.Queue.{Notify}
use beegfs_rust.Conn.Store.{
  Semaphore, SemaphoreLaws, StoredStream, Store, entry_of, put_entry, try_pop_stream,
}
use beegfs_rust.Conn.Store.Limit.{
  lend, Balanced, put_entry-Balanced, try_pop_stream-some, try_pop_stream-none,
}

module _ {N S X A : Type 0} (notify : Notify N) (semaphore : Semaphore S) where
  -- `notified`: none while there is no notification.
  unfoldable pub notified_stream : ℕ → Store N S X A → Option (Store N S X A)
  unfolding entry_of put_entry
  notified_stream key store =
      let e = entry_of notify semaphore key store in
      elim (notify.notified e.queue.notification) as (λ x. Option (Store N S X A)) [
        | none ↦ none
        | some n ↦ some (
            put_entry notify semaphore key
              (record e { queue = record e.queue { notification = n } }) store)
      ]

  -- One turn of the loop: it ends with a stream, or the wait goes on.
  unfoldable pub wait_turn :
      (Store N S X A → Option (StoredStream X) × Store N S X A)
      → ℕ
      → Store N S X A
      → Option (StoredStream X) × Store N S X A
  unfolding notified_stream try_pop_stream
  wait_turn go_on key store =
      elim (notified_stream key store) as (λ x. Option (StoredStream X) × Store N S X A) [
        | none ↦ go_on store
        | some woken ↦
            let (item, left) = try_pop_stream notify semaphore key woken in
            elim item as (λ x. Option (StoredStream X) × Store N S X A) [
              | none ↦ go_on left
              | some stream ↦ (some stream, left)
            ]
      ]

  -- What the other tasks do to the store while this one waits, until the timeout.
  unfoldable pub pop_turns :
      ℕ
      → List (Store N S X A → Store N S X A)
      → Store N S X A
      → Option (StoredStream X) × Store N S X A
  unfolding wait_turn
  pop_turns key [] store = wait_turn (λ s. (none, s)) key store
  pop_turns key (others ∷ meanwhile) store =
      wait_turn (λ s. pop_turns key meanwhile (others s)) key store

  -- The entry is made first; none is the timeout.
  unfoldable pub pop_stream :
      ℕ
      → List (Store N S X A → Store N S X A)
      → Store N S X A
      → Option (StoredStream X) × Store N S X A
  unfolding entry_of put_entry pop_turns
  pop_stream key meanwhile store =
      pop_turns key meanwhile
        (put_entry notify semaphore key (entry_of notify semaphore key store) store)

-- With what the other tasks hold at some time of the wait.
abbrev pub AtSome : ((ℕ → ℕ) → Type 0) → (ℕ → ℕ) → List (ℕ → ℕ) → Type 0
AtSome Holds out [] = Holds out
AtSome Holds out (out' ∷ outs) = Holds out ⊎ AtSome Holds out' outs

pub at_once :
    (Holds : (ℕ → ℕ) → Type 0) (out : ℕ → ℕ) (outs : List (ℕ → ℕ))
    → Holds out
    → AtSome Holds out outs
at_once Holds out [] h = h
at_once Holds out (out' ∷ outs) h = inl h

pub AtSome-map :
    (P Q : (ℕ → ℕ) → Type 0) (out : ℕ → ℕ) (outs : List (ℕ → ℕ))
    → ((o : ℕ → ℕ) → P o → Q o)
    → AtSome P out outs
    → AtSome Q out outs
AtSome-map P Q out [] f h = f out h
AtSome-map P Q out (out' ∷ outs) f (inl h) = inl (f out h)
AtSome-map P Q out (out' ∷ outs) f (inr h) = inr (AtSome-map P Q out' outs f h)

module _ {N S X A : Type 0} (notify : Notify N) (semaphore : Semaphore S) (limit : ℕ) where
  abbrev Kept : (ℕ → ℕ) → Store N S X A → Type 0
  Kept = Balanced notify semaphore limit

  -- The other tasks take and give back permits: they turn a balance with what they hold into one with
  -- what they hold then.
  abbrev pub Meanwhile : (ℕ → ℕ) → List (Store N S X A → Store N S X A) → List (ℕ → ℕ) → Type 0
  Meanwhile out [] [] = Unit {0}
  Meanwhile out (others ∷ meanwhile) (out' ∷ outs) =
      ((store : Store N S X A) → Kept out store → Kept out' (others store))
      × Meanwhile out' meanwhile outs
  Meanwhile out _ _ = ⊥

  abbrev pub Waited : ℕ → (ℕ → ℕ) → List (ℕ → ℕ) → Option (StoredStream X) × Store N S X A → Type 0
  Waited key out outs (none, s) = AtSome (λ o. Kept o s) out outs
  Waited key out outs (some stream, s) =
      (stream.key ≡ key) × AtSome (λ o. Kept (lend key o) s) out outs

module _ {N S X A : Type 0} (notify : Notify N) (semaphore : Semaphore S)
    (laws : SemaphoreLaws semaphore) (limit : ℕ) where
  wait_turn_lem :
      (out : ℕ → ℕ) (Ends : Option (StoredStream X) × Store N S X A → Type 0)
      (go_on : Store N S X A → Option (StoredStream X) × Store N S X A) (key : ℕ)
      (store : Store N S X A)
      → ((s : Store N S X A) → Balanced notify semaphore limit out s → Ends (go_on s))
      → ((stream : StoredStream X) (s : Store N S X A)
          → stream.key ≡ key
          → Balanced notify semaphore limit (lend key out) s
          → Ends (some stream, s))
      → Balanced notify semaphore limit out store
      → Ends (wait_turn notify semaphore go_on key store)
  unfolding wait_turn notified_stream
  wait_turn_lem out Ends go_on key store next done b =
      let e = entry_of notify semaphore key store in
      elim (Option-cases (notify.notified e.queue.notification)) [
        | inl p ↦ rw (wait_turn, notified_stream, p) (next store b)
        | inr (n, p) ↦
            let woken : Store N S X A =
              put_entry notify semaphore key
                (record e { queue = record e.queue { notification = n } }) store in
            let kept : Balanced notify semaphore limit out woken =
              put_entry-Balanced notify semaphore limit out out key
                (record e { queue = record e.queue { notification = n } }) store b (b.1 key)
                (λ j q. refl) in
            rw (wait_turn, notified_stream, p)
              (taken woken kept (try_pop_stream notify semaphore key woken) refl)
      ]
    where
      taken :
          (woken : Store N S X A)
          → Balanced notify semaphore limit out woken
          → (popped : Option (StoredStream X) × Store N S X A)
          → try_pop_stream notify semaphore key woken ≡ popped
          → Ends (elim popped.0 as (λ x. Option (StoredStream X) × Store N S X A) [
            | none ↦ go_on popped.1
            | some stream ↦ (some stream, popped.1)
          ])
      taken woken kept (none, left) q =
          next left (try_pop_stream-none notify semaphore laws limit out key woken left kept q)
      taken woken kept (some stream, left) q =
          let (own, lent) =
            try_pop_stream-some notify semaphore laws limit out key woken left kept q in
          done stream left own lent

  later :
      (key : ℕ) (out out' : ℕ → ℕ) (outs : List (ℕ → ℕ))
      (r : Option (StoredStream X) × Store N S X A)
      → Waited notify semaphore limit key out' outs r
      → Waited notify semaphore limit key out (out' ∷ outs) r
  later key out out' outs (none, s) h = inr h
  later key out out' outs (some stream, s) h = (h.0, inr h.1)

  pop_turns-Waited :
      (key : ℕ) (meanwhile : List (Store N S X A → Store N S X A)) (out : ℕ → ℕ)
      (outs : List (ℕ → ℕ)) (store : Store N S X A)
      → Meanwhile notify semaphore limit out meanwhile outs
      → Balanced notify semaphore limit out store
      → Waited notify semaphore limit key out outs (pop_turns notify semaphore key meanwhile store)
  unfolding pop_turns
  pop_turns-Waited key [] out [] store m b =
      wait_turn_lem out (Waited notify semaphore limit key out []) (λ s. (none, s)) key store
        (λ s k. k) (λ stream s own k. (own, k)) b
  pop_turns-Waited key (others ∷ meanwhile) out (out' ∷ outs) store m b =
      wait_turn_lem out (Waited notify semaphore limit key out (out' ∷ outs))
        (λ s. pop_turns notify semaphore key meanwhile (others s)) key store
        (λ s k.
          later key out out' outs (pop_turns notify semaphore key meanwhile (others s))
            (pop_turns-Waited key meanwhile out' outs (others s) m.1 (m.0 s k)))
        (λ stream s own k. (own, inl k)) b
  pop_turns-Waited key [] out (out' ∷ outs) store m b = absurd m
  pop_turns-Waited key (others ∷ meanwhile) out [] store m b = absurd m

  -- The wait takes a stream of the node, or ends with the timeout and takes nothing.
  pub pop_stream-Waited :
      (key : ℕ) (meanwhile : List (Store N S X A → Store N S X A)) (out : ℕ → ℕ)
      (outs : List (ℕ → ℕ)) (store : Store N S X A)
      → Meanwhile notify semaphore limit out meanwhile outs
      → Balanced notify semaphore limit out store
      → Waited notify semaphore limit key out outs (pop_stream notify semaphore key meanwhile store)
  unfolding pop_stream
  pop_stream-Waited key meanwhile out outs store m b = pop_turns-Waited key meanwhile out outs _ m (
      put_entry-Balanced notify semaphore limit out out key (entry_of notify semaphore key store)
        store b (b.1 key) (λ j q. refl))
