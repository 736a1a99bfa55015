-- ===== src/Conn/Store.antt =====
-- The store of open streams (shared/src/conn/store.rs). The keys are uids, as the management uses it;
-- tokio's `Notify` and `Semaphore` are parameters. The methods hold the lock on the map throughout.
pub mod Limit
pub mod Runs
pub mod Wait
use beegfs_rust.Prelude.{
  ℕ, zero, suc, ◌+◌, ◌==◌, ◌≤◌, ◌≡◌, if◌then◌else◌, Bool, true, false, Option, none, some, List, [],
  ◌∷◌, ◌++◌, replicate,
}
use beegfs_rust.Conn.{tcp_buf_len}
use beegfs_rust.Conn.Queue.{Notify, AsyncQueue, front, push, try_pop}
use beegfs_rust.Conn.Queue

-- `tokio::sync::Semaphore`: dropping a permit adds it again.
pub record Semaphore (S : Type 0) : Type 0 where
  pub new : ℕ → S
  pub try_acquire : S → Option S
  pub add_permit : S → S
  pub available_permits : S → ℕ

pub record SemaphoreLaws {S : Type 0} (semaphore : Semaphore S) : Type 0 where
  pub available-new : (n : ℕ) → semaphore.available_permits (semaphore.new n) ≡ n
  pub available-acquired :
      (s s' : S)
      → semaphore.try_acquire s ≡ some s'
      → semaphore.available_permits s ≡ suc (semaphore.available_permits s')
  pub available-added :
      (s : S)
      → semaphore.available_permits (semaphore.add_permit s) ≡ suc (semaphore.available_permits s)

-- `StoredStream`, with the key of its `StoredStreamPermit`.
pub record StoredStream (X : Type 0) : Type 0 where
  pub stream : X
  pub key : ℕ

pub record Entry (N S X : Type 0) : Type 0 where
  pub queue : AsyncQueue N (StoredStream X)
  pub semaphore : S

pub record Store (N S X A : Type 0) : Type 0 where
  pub streams : List (ℕ × Entry N S X)
  pub bufs : List (List ℕ)
  pub addrs : List (ℕ × List A)
  pub connection_limit : ℕ

module _ {A : Type 0} where
  unfoldable pub lookup : ℕ → List (ℕ × A) → Option A
  lookup key [] = none
  lookup key (e ∷ es) = if e.0 == key then some e.1 else lookup key es

  unfoldable pub put : ℕ → A → List (ℕ × A) → List (ℕ × A)
  put key a [] = (key, a) ∷ []
  put key a (e ∷ es) = if e.0 == key then (key, a) ∷ es else e ∷ put key a es

-- The buffers and the addresses.
module _ {N S X A : Type 0} where
  unfoldable pub pop_buf : Store N S X A → Option (List ℕ) × Store N S X A
  unfolding front
  pop_buf store = let (taken, bufs) = front store.bufs in (taken.0, record store { bufs = bufs })

  unfoldable pub pop_buf_or_create : Store N S X A → List ℕ × Store N S X A
  unfolding pop_buf tcp_buf_len
  pop_buf_or_create store =
      let (found, store') = pop_buf store in
      (elim found as (λ x. List ℕ) [ none ↦ replicate tcp_buf_len 0 | some buf ↦ buf ], store')

  unfoldable pub push_buf : List ℕ → Store N S X A → Store N S X A
  push_buf buf store = record store { bufs = store.bufs ++ (buf ∷ []) }

  unfoldable pub get_node_addrs : ℕ → Store N S X A → Option (List A)
  unfolding lookup
  get_node_addrs key store = lookup key store.addrs

  unfoldable pub replace_node_addrs : ℕ → List A → Store N S X A → Store N S X A
  unfolding put
  replace_node_addrs key new_addrs store = record store { addrs = put key new_addrs store.addrs }

module _ {N S X A : Type 0} (notify : Notify N) (semaphore : Semaphore S) where
  unfoldable pub new : ℕ → Store N S X A
  new connection_limit = record {
    streams = [];
    bufs = [];
    addrs = [];
    connection_limit = connection_limit;
  }

  unfoldable pub new_streams_entry : Store N S X A → Entry N S X
  unfolding Queue.new
  new_streams_entry store = record {
    queue = Queue.new notify;
    semaphore = semaphore.new store.connection_limit;
  }

  -- `entry(key).or_insert_with(…)`: every method writes back what it has made of the entry.
  unfoldable pub entry_of : ℕ → Store N S X A → Entry N S X
  unfolding lookup new_streams_entry
  entry_of key store = elim (lookup key store.streams) as (λ x. Entry N S X) [
    | none ↦ new_streams_entry store
    | some e ↦ e
  ]

  unfoldable pub put_entry : ℕ → Entry N S X → Store N S X A → Store N S X A
  unfolding put
  put_entry key e store = record store { streams = put key e store.streams }

  unfoldable pub try_pop_stream : ℕ → Store N S X A → Option (StoredStream X) × Store N S X A
  unfolding entry_of put_entry try_pop
  try_pop_stream key store =
      let e = entry_of key store in
      let (item, queue) = try_pop notify e.queue in
      (item, put_entry key (record e { queue = queue }) store)

  -- The permit is that of the key, or none.
  unfoldable pub try_acquire_permit : ℕ → Store N S X A → Option ℕ × Store N S X A
  unfolding entry_of put_entry
  try_acquire_permit key store =
      let e = entry_of key store in
      elim (semaphore.try_acquire e.semaphore) as (λ x. Option ℕ × Store N S X A) [
        | none ↦ (none, put_entry key e store)
        | some s ↦ (some key, put_entry key (record e { semaphore = s }) store)
      ]

  unfoldable pub push_stream : StoredStream X → Store N S X A → Store N S X A
  unfolding entry_of put_entry push
  push_stream stream store =
      let e = entry_of stream.key store in
      put_entry stream.key (record e { queue = push notify stream e.queue }) store

  -- Dropping a permit, alone or in a stream.
  unfoldable pub drop_permit : ℕ → Store N S X A → Store N S X A
  unfolding entry_of put_entry
  drop_permit key store =
      let e = entry_of key store in
      put_entry key (record e { semaphore = semaphore.add_permit e.semaphore }) store
