-- ===== src/Conn/Store/Limit.antt =====
-- The store (shared/src/conn/store.rs) never has more streams to a node than the connection limit, open
-- permits included.
use beegfs_rust.Prelude.{
  ℕ, suc, ◌+◌, ◌==◌, ◌≡◌, if◌then◌else◌, true, false, none, some, List, [], ◌∷◌, ◌++◌, All, length,
  refl, sym, ap, ◌∙◌, subst, arith, Bool-cases, Option-cases, inl, inr, length-append,
}
use beegfs_rust.Conn.Queue.{
  Notify, AsyncQueue, front, push, try_pop, push_back, notify_one, pop_front,
}
use beegfs_rust.Conn.Queue
use beegfs_rust.Conn.Store.{
  Semaphore, SemaphoreLaws, StoredStream, Entry, Store, lookup, put, new, new_streams_entry,
  entry_of, put_entry, try_pop_stream, try_acquire_permit, push_stream, drop_permit,
}

lookup-put :
    {A : Type 0} (j k : ℕ) (a : A) (es : List (ℕ × A))
    → lookup j (put k a es) ≡ (if k == j then some a else lookup j es)
unfolding lookup put
lookup-put j k a [] = refl
lookup-put j k a (e ∷ es) = ground (arith, lookup-put j k a es)

-- One more permit of a key that is held outside of the store.
abbrev pub lend : ℕ → (ℕ → ℕ) → ℕ → ℕ
lend key out j = if key == j then suc (out j) else out j

module _ {N S X : Type 0} (semaphore : Semaphore S) where
  -- Every permit is available, in a stream of the queue, or outside, and the streams of a queue have the
  -- key of its entry.
  abbrev pub Fits : ℕ → ℕ → ℕ → Entry N S X → Type 0
  Fits limit n key e =
      (semaphore.available_permits e.semaphore + length e.queue.queue + n ≡ limit)
      × All (λ x. (x.key == key) ≡ true) e.queue.queue

module _ {N S X A : Type 0} (notify : Notify N) (semaphore : Semaphore S) where
  abbrev pub Balanced : ℕ → (ℕ → ℕ) → Store N S X A → Type 0
  Balanced limit out store =
      (store.connection_limit ≡ limit)
      × ((j : ℕ) → Fits semaphore limit (out j) j (entry_of notify semaphore j store))

  pub entry_of-put_entry :
      (j k : ℕ) (e : Entry N S X) (store : Store N S X A)
      → entry_of notify semaphore j (put_entry notify semaphore k e store)
        ≡ (if k == j then e else entry_of notify semaphore j store)
  unfolding entry_of put_entry new_streams_entry
  entry_of-put_entry j k e store = elim (Bool-cases (k == j)) [
    | inl p ↦ rw (entry_of, lookup-put j k e store.streams) (rw p refl)
    | inr p ↦ rw (entry_of, lookup-put j k e store.streams) (rw p refl)
  ]

  -- Only the entry of one key changes.
  pub put_entry-Balanced :
      (limit : ℕ) (out out' : ℕ → ℕ) (k : ℕ) (e : Entry N S X) (store : Store N S X A)
      → Balanced limit out store
      → Fits semaphore limit (out' k) k e
      → ((j : ℕ) → (k == j) ≡ false → out' j ≡ out j)
      → Balanced limit out' (put_entry notify semaphore k e store)
  unfolding put_entry
  put_entry-Balanced limit out out' k e store b f same = (
    b.0,
    λ j.
        subst (Fits semaphore limit (out' j) j) (sym (entry_of-put_entry j k e store))
          (elim (Bool-cases (k == j)) [
            | inl p ↦ rw p (
                let at : k ≡ j = ground (arith, p) in
                subst (λ i. Fits semaphore limit (out' i) i e) at f)
            | inr p ↦ rw (p, same j p) (b.1 j)
          ]),
  )

-- A new store has no streams.
pub new-Balanced :
    {N S : Type 0} (X A : Type 0) (notify : Notify N) (semaphore : Semaphore S)
    → SemaphoreLaws semaphore
    → (limit : ℕ)
    → Balanced notify semaphore limit (λ _. 0) (new {X = X} {A = A} notify semaphore limit)
unfolding new entry_of lookup new_streams_entry Queue.new
new-Balanced X A notify semaphore laws limit =
    (refl, λ j. (ground (arith, laws.available-new limit), tt))

pub front-taken :
    {T : Type 0} (P : T → Type 0) (items : List T) {item : T}
    → (front items).0.0 ≡ some item
    → All P items
    → (length items ≡ suc (length (front items).1)) × (P item × All P (front items).1)
unfolding front
front-taken P [] e h = absurd (ground (arith, e))
front-taken P (x ∷ []) {item = item} e h =
    let same : x ≡ item = ground (arith, e) in (refl, (subst P same h.0, tt))
front-taken P (x ∷ y ∷ rest) {item = item} e h =
    let same : x ≡ item = ground (arith, e) in (refl, (subst P same h.0, h.1))

front-none : {T : Type 0} (items : List T) → (front items).0.0 ≡ none → (front items).1 ≡ items
unfolding front
front-none [] e = refl
front-none (x ∷ []) e = absurd (ground (arith, e))
front-none (x ∷ y ∷ rest) e = absurd (ground (arith, e))

All-snoc :
    {T : Type 0} (P : T → Type 0) (items : List T) (item : T)
    → All P items
    → P item
    → All P (items ++ (item ∷ []))
All-snoc P [] item h p = (p, tt)
All-snoc P (x ∷ items) item h p = (h.0, All-snoc P items item h.1 p)

-- What is popped is left of the queue, whatever is notified.
pub popped_queue :
    {N T : Type 0} (notify : Notify N) (q : AsyncQueue N T)
    → ((try_pop notify q).0 ≡ (front q.queue).0.0)
      × ((try_pop notify q).1.queue ≡ (front q.queue).1)
unfolding try_pop pop_front notify_one
popped_queue notify q =
    (refl, elim (Bool-cases (front q.queue).0.1) [ inl p ↦ rw p refl | inr p ↦ rw p refl ])

module _ {N S X A : Type 0} (notify : Notify N) (semaphore : Semaphore S)
    (laws : SemaphoreLaws semaphore) (limit : ℕ) (out : ℕ → ℕ) where
  pub try_pop_stream-some :
      (key : ℕ) (store store' : Store N S X A) {stream : StoredStream X}
      → Balanced notify semaphore limit out store
      → try_pop_stream notify semaphore key store ≡ (some stream, store')
      → (stream.key ≡ key) × Balanced notify semaphore limit (lend key out) store'
  unfolding try_pop_stream
  try_pop_stream-some key store store' {stream = stream} b e =
      let old = entry_of notify semaphore key store in
      let (item, left) = popped_queue notify old.queue in
      let is : (front old.queue.queue).0.0 ≡ some stream = ap (λ r. r.0) e in
      let (n, (own, all)) =
        front-taken (λ x. (x.key == key) ≡ true) old.queue.queue is (b.1 key).1 in
      let q = (try_pop notify old.queue).1 in
      let fits : Fits semaphore limit (lend key out key) key (record old { queue = q }) = (
        rw left (ground (arith, n, (b.1 key).0)),
        subst (All (λ x. (x.key == key) ≡ true)) (sym left) all,
      ) in
      (
        ground (arith, own),
        subst (Balanced notify semaphore limit (lend key out)) (ap (λ r. r.1) e) (
            put_entry-Balanced notify semaphore limit out (lend key out) key
              (record old { queue = q }) store b fits (λ j p. rw p refl)),
      )

  pub try_pop_stream-none :
      (key : ℕ) (store store' : Store N S X A)
      → Balanced notify semaphore limit out store
      → try_pop_stream notify semaphore key store ≡ (none, store')
      → Balanced notify semaphore limit out store'
  unfolding try_pop_stream
  try_pop_stream-none key store store' b e =
      let old = entry_of notify semaphore key store in
      let (item, left) = popped_queue notify old.queue in
      let is : (front old.queue.queue).0.0 ≡ none = ap (λ r. r.0) e in
      let same = left ∙ front-none old.queue.queue is in
      let q = (try_pop notify old.queue).1 in
      let fits : Fits semaphore limit (out key) key (record old { queue = q }) =
        subst
          (λ items.
            (semaphore.available_permits old.semaphore + length items + out key ≡ limit)
            × All (λ x. (x.key == key) ≡ true) items)
          (sym same) (b.1 key) in
      subst (Balanced notify semaphore limit out) (ap (λ r. r.1) e) (
        put_entry-Balanced notify semaphore limit out out key (record old { queue = q }) store b
          fits (λ j p. refl))

  pub try_acquire_permit-some :
      (key : ℕ) (store store' : Store N S X A) {permit : ℕ}
      → Balanced notify semaphore limit out store
      → try_acquire_permit notify semaphore key store ≡ (some permit, store')
      → (permit ≡ key) × Balanced notify semaphore limit (lend key out) store'
  unfolding try_acquire_permit
  try_acquire_permit-some key store store' {permit = permit} b e =
      let old = entry_of notify semaphore key store in
      elim (Option-cases (semaphore.try_acquire old.semaphore)) [
        | inl p ↦ absurd (ground (arith, e, p))
        | inr (s, p) ↦
            let fits : Fits semaphore limit (lend key out key) key (record old { semaphore = s }) =
              (
                ground (arith, laws.available-acquired old.semaphore s p, (b.1 key).0),
                (b.1 key).1,
              ) in
            let is : permit ≡ key = ground (arith, e, p) in
            let end : put_entry notify semaphore key (record old { semaphore = s }) store ≡ store' =
              ground (arith, e, p) in
            (
              is,
              subst (Balanced notify semaphore limit (lend key out)) end (
                  put_entry-Balanced notify semaphore limit out (lend key out) key
                    (record old { semaphore = s }) store b fits (λ j p. rw p refl)),
            )
      ]

  pub try_acquire_permit-none :
      (key : ℕ) (store store' : Store N S X A)
      → Balanced notify semaphore limit out store
      → try_acquire_permit notify semaphore key store ≡ (none, store')
      → Balanced notify semaphore limit out store'
  unfolding try_acquire_permit
  try_acquire_permit-none key store store' b e =
      let old = entry_of notify semaphore key store in
      elim (Option-cases (semaphore.try_acquire old.semaphore)) [
        | inr (s, p) ↦ absurd (ground (arith, e, p))
        | inl p ↦
            let end : put_entry notify semaphore key old store ≡ store' = ground (arith, e, p) in
            subst (Balanced notify semaphore limit out) end (
              put_entry-Balanced notify semaphore limit out out key old store b (b.1 key)
                (λ j p. refl))
      ]

  -- Giving back: a stream into the queue, or a permit.
  pub push_stream-Balanced :
      (stream : StoredStream X) (store : Store N S X A)
      → Balanced notify semaphore limit (lend stream.key out) store
      → Balanced notify semaphore limit out (push_stream notify semaphore stream store)
  unfolding push_stream push push_back notify_one
  push_stream-Balanced stream store b =
      let old = entry_of notify semaphore stream.key store in
      put_entry-Balanced notify semaphore limit (lend stream.key out) out stream.key
        (record old { queue = push notify stream old.queue }) store b
        (
          ground (arith, (b.1 stream.key).0, length-append old.queue.queue (stream ∷ [])),
          All-snoc (λ x. (x.key == stream.key) ≡ true) old.queue.queue stream (b.1 stream.key).1
              (ground arith),
        )
        (λ j p. rw p refl)

  pub drop_permit-Balanced :
      (key : ℕ) (store : Store N S X A)
      → Balanced notify semaphore limit (lend key out) store
      → Balanced notify semaphore limit out (drop_permit notify semaphore key store)
  unfolding drop_permit
  drop_permit-Balanced key store b =
      let old = entry_of notify semaphore key store in
      put_entry-Balanced notify semaphore limit (lend key out) out key
        (record old { semaphore = semaphore.add_permit old.semaphore }) store b
        (ground (arith, (b.1 key).0, laws.available-added old.semaphore), (b.1 key).1)
        (λ j p. rw p refl)
