-- ===== src/Conn/Store/Runs.antt =====
-- Tasks that take streams and permits from the store (shared/src/conn/store.rs) and give them back.
use beegfs_rust.Prelude.{ℕ, ◌+◌, ◌==◌, ◌≤◌, ◌≡◌, true, none, some, All, length, arith}
use beegfs_rust.Conn.Queue.{Notify}
use beegfs_rust.Conn.Store.{
  Semaphore, SemaphoreLaws, StoredStream, Store, new, entry_of, try_pop_stream, try_acquire_permit,
  push_stream, drop_permit,
}
use beegfs_rust.Conn.Store.Limit.{
  lend, Balanced, new-Balanced, try_pop_stream-some, try_pop_stream-none, try_acquire_permit-some,
  try_acquire_permit-none, push_stream-Balanced, drop_permit-Balanced,
}

module _ {N S X A : Type 0} (notify : Notify N) (semaphore : Semaphore S) where
  -- The runs from a new store, with the number of the permits of each key that tasks hold, alone or in a
  -- stream. Only a permit that is held makes a stream.
  pub data Run (limit : ℕ) : (ℕ → ℕ) → Store N S X A → Type 0 where
    start : Run limit (λ _. 0) (new notify semaphore limit)
    popped :
        (key : ℕ) {out : ℕ → ℕ} {store store' : Store N S X A} {stream : StoredStream X}
        → Run limit out store
        → try_pop_stream notify semaphore key store ≡ (some stream, store')
        → Run limit (lend key out) store'
    not_popped :
        (key : ℕ) {out : ℕ → ℕ} {store store' : Store N S X A}
        → Run limit out store
        → try_pop_stream notify semaphore key store ≡ (none, store')
        → Run limit out store'
    acquired :
        (key : ℕ) {out : ℕ → ℕ} {store store' : Store N S X A} {permit : ℕ}
        → Run limit out store
        → try_acquire_permit notify semaphore key store ≡ (some permit, store')
        → Run limit (lend key out) store'
    not_acquired :
        (key : ℕ) {out : ℕ → ℕ} {store store' : Store N S X A}
        → Run limit out store
        → try_acquire_permit notify semaphore key store ≡ (none, store')
        → Run limit out store'
    pushed :
        (stream : StoredStream X) {out : ℕ → ℕ} {store : Store N S X A}
        → Run limit (lend stream.key out) store
        → Run limit out (push_stream notify semaphore stream store)
    dropped :
        (key : ℕ) {out : ℕ → ℕ} {store : Store N S X A}
        → Run limit (lend key out) store
        → Run limit out (drop_permit notify semaphore key store)

  Run-Balanced :
      (laws : SemaphoreLaws semaphore) {limit : ℕ} {out : ℕ → ℕ} {store : Store N S X A}
      → Run limit out store
      → Balanced notify semaphore limit out store
  Run-Balanced laws {limit = limit} start = new-Balanced X A notify semaphore laws limit
  Run-Balanced laws {limit = limit} (popped key {out = out} {store = store} {store' = store'} r e) =
      (try_pop_stream-some notify semaphore laws limit out key store store' (Run-Balanced laws r)
        e).1
  Run-Balanced laws {limit = limit}
        (not_popped key {out = out} {store = store} {store' = store'} r e) =
      try_pop_stream-none notify semaphore laws limit out key store store' (Run-Balanced laws r) e
  Run-Balanced laws {limit = limit}
        (acquired key {out = out} {store = store} {store' = store'} r e) =
      (try_acquire_permit-some notify semaphore laws limit out key store store'
        (Run-Balanced laws r) e).1
  Run-Balanced laws {limit = limit}
        (not_acquired key {out = out} {store = store} {store' = store'} r e) =
      try_acquire_permit-none notify semaphore laws limit out key store store' (Run-Balanced laws r)
        e
  Run-Balanced laws {limit = limit} (pushed stream {out = out} {store = store} r) =
      push_stream-Balanced notify semaphore laws limit out stream store (Run-Balanced laws r)
  Run-Balanced laws {limit = limit} (dropped key {out = out} {store = store} r) =
      drop_permit-Balanced notify semaphore laws limit out key store (Run-Balanced laws r)

  -- Whatever tasks do with the store, for each node the streams in the store, those that tasks use and the
  -- permits for streams that are being opened are together at most the connection limit, and each stream in
  -- the queue of a node was opened with a permit of that node.
  pub open_streams :
      (key : ℕ) {limit : ℕ} {out : ℕ → ℕ} {store : Store N S X A}
      → SemaphoreLaws semaphore
      → Run limit out store
      → (out key + length (entry_of notify semaphore key store).queue.queue ≤ limit)
        × All (λ x. (x.key == key) ≡ true) (entry_of notify semaphore key store).queue.queue
  open_streams key laws r =
      let fits = (Run-Balanced laws r).1 key in (ground (arith, fits.0), fits.1)
