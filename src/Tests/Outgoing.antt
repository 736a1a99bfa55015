-- ===== src/Tests/Outgoing.antt =====
-- Runs of the queue, the store and a request (shared/src/conn/async_queue.rs, store.rs and outgoing.rs),
-- with a notification that is a Boolean and a semaphore that is a number.
use beegfs_rust.Prelude.{
  ℕ, zero, suc, ◌+◌, ◌≤◌, ◌==◌, if◌then◌else◌, Bool, true, false, none, some, [], ◌∷◌, ◌++◌, All,
  length, replicate, ◌≡◌, refl, arith,
}
use beegfs_rust.Result.{timed_out, ok, err, unexpected_eof}
use beegfs_rust.Conn.{Stream, accepted, read_exact}
use beegfs_rust.Conn.Queue.{
  Notify, NotifyLaws, AsyncQueue, front, notify_one, push_back, pop_front, push, try_pop, pop_turn,
}
use beegfs_rust.Conn.Queue
use beegfs_rust.Conn.Queue.Wakeups.{System, popped_in_order, pop_turn-item}
use beegfs_rust.Conn.Queue.Wakeups
use beegfs_rust.Conn.Store.{
  get_node_addrs, Semaphore, SemaphoreLaws, Store, lookup, put, new_streams_entry, entry_of,
  put_entry, new, try_acquire_permit, push_stream, StoredStream, try_pop_stream,
}
use beegfs_rust.Conn.Store.Limit.{
  Balanced, lend, new-Balanced, try_acquire_permit-some, push_stream-Balanced,
}
use beegfs_rust.Conn.Store.Wait.{pop_stream, pop_turns, wait_turn, notified_stream}
use beegfs_rust.Conn.Store.Runs.{open_streams}
use beegfs_rust.Conn.Store.Runs
use beegfs_rust.Serde.Header.{default_header}
use beegfs_rust.Conn.Outgoing.{
  Runtime, comm_stream, exchange, read_response, fill_buf, try_stored, after_stored, after_pop,
  after_acquire, wait_stream, after_wait, write_and_read_stream, after_exchange,
}
use beegfs_rust.Conn.Outgoing.Requests.{broadcast_errors, send_errors}
use beegfs_rust.Conn.Outgoing.Turns.{left, enough_turns}
use beegfs_rust.Conn.Outgoing.Permits.{KeptAtSome, comm_stream-Balanced}

abbrev flag : Notify Bool
flag = record {
  new = false;
  notify_one = λ n. true;
  notified = λ n. if n then some false else none;
}

flag_laws : NotifyLaws flag
flag_laws = record { stored = λ n. refl }

abbrev counter : Semaphore ℕ
counter = record {
  new = λ n. n;
  try_acquire = elim [ zero ↦ none | suc n ↦ some n ];
  add_permit = λ n. suc n;
  available_permits = λ n. n;
}

counter_laws : SemaphoreLaws counter
counter_laws = record {
  available-new = λ n. refl;
  available-acquired = elim [
    | zero ↦ λ s e. absurd (ground (arith, e))
    | suc n ↦ λ s e. ground (arith, e)
  ];
  available-added = λ n. refl;
}

-- Two pushes at the same time: both tasks notify after both have pushed, and one item is popped.
abbrev pushed_two : System Bool ℕ
pushed_two = record {
  queue = record { queue = 7 ∷ 8 ∷ []; notification = false };
  notifying = 2;
  awake = 0;
}

abbrev popped_one : System Bool ℕ
popped_one = record {
  queue = record { queue = 8 ∷ []; notification = true };
  notifying = 0;
  awake = 0;
}

two_pushes : Wakeups.Run flag (7 ∷ 8 ∷ []) [] pushed_two
unfolding push_back Queue.new
two_pushes = Wakeups.push_locked 8 (Wakeups.push_locked 7 Wakeups.start)

one_pop : Wakeups.Run flag (7 ∷ 8 ∷ []) (7 ∷ []) popped_one
unfolding push_back Queue.new notify_one pop_front front
one_pop = Wakeups.notified_one (
    Wakeups.pop_locked {q = record { queue = 7 ∷ 8 ∷ []; notification = false }} {notifying = 0}
      {awake = 0} (Wakeups.woken (Wakeups.notified_one (Wakeups.notified_one two_pushes)) refl))

popped_in_order_example : 7 ∷ popped_one.queue.queue ≡ 7 ∷ 8 ∷ []
popped_in_order_example = popped_in_order flag one_pop

pop_turn-item_example :
    (q : AsyncQueue Bool ℕ) × ((pop_turn flag popped_one.queue ≡ some (some 8, q)) × (q.queue ≡ []))
pop_turn-item_example = pop_turn-item flag flag_laws one_pop refl refl refl

-- The store for two streams to a node: one permit is taken, and its stream pushed.
abbrev empty : Store Bool ℕ ℕ ℕ
unfolding new
empty = new flag counter 2

abbrev acquired : Store Bool ℕ ℕ ℕ
unfolding try_acquire_permit
acquired = (try_acquire_permit flag counter 5 empty).1

abbrev stored : Store Bool ℕ ℕ ℕ
unfolding push_stream
stored = push_stream flag counter (record { stream = 99; key = 5 }) acquired

open_streams_example :
    (0 + length (entry_of flag counter 5 stored).queue.queue ≤ 2)
    × All (λ x. (x.key == 5) ≡ true) (entry_of flag counter 5 stored).queue.queue
unfolding new try_acquire_permit entry_of put_entry lookup put new_streams_entry stored push_stream
open_streams_example = open_streams flag counter 5 counter_laws (
    Runs.pushed (record { stream = 99; key = 5 }) {out = λ _. 0} {store = acquired}
      (Runs.acquired 5 {store = empty} {store' = acquired} {permit = 5} Runs.start refl))

-- A runtime where every write and every connection succeeds; while this task waits, another one pushes the
-- stream that it has used.
abbrev used : StoredStream Stream
used = record { stream = accepted []; key = 5 }

abbrev runtime : Runtime Bool ℕ ℕ
runtime = record {
  notify = flag;
  semaphore = counter;
  write_all = λ stream bytes. ok (record stream { output = stream.output ++ bytes });
  connect_tcp = λ addr. ok (accepted []);
  is_ipv6 = λ addr. false;
  meanwhile = (λ store. push_stream flag counter used store) ∷ [];
}

abbrev one_allowed : Store Bool ℕ Stream ℕ
unfolding new
one_allowed = new flag counter 1

-- The other task has the only permit of the node 5.
abbrev one_held : Store Bool ℕ Stream ℕ
unfolding try_acquire_permit
one_held = (try_acquire_permit flag counter 5 one_allowed).1

one_held-Balanced : Balanced flag counter 1 (lend 5 (λ _. 0)) one_held
unfolding new try_acquire_permit entry_of put_entry lookup new_streams_entry one_held
one_held-Balanced =
    (try_acquire_permit-some flag counter counter_laws 1 (λ _. 0) 5 one_allowed one_held
      {permit = 5} (new-Balanced Stream ℕ flag counter counter_laws 1) refl).1

-- The call waits, and gets an answer with the stream of the other task.
waited : (comm_stream runtime false none 5 (4 ∷ 4 ∷ []) 2 false one_held).result ≡ ok default_header
unfolding comm_stream try_stored try_pop_stream try_pop pop_front front try_acquire_permit entry_of
    put_entry lookup put new_streams_entry Queue.new after_stored after_pop after_acquire
    wait_stream pop_stream pop_turns wait_turn notified_stream push_stream push push_back notify_one
    after_wait write_and_read_stream exchange after_exchange one_allowed
waited = refl

comm_stream-Balanced_example :
    KeptAtSome runtime 1
      (lend 5 (λ _. 0))
      ((λ _. 0) ∷ [])
      (comm_stream runtime false none 5 (4 ∷ 4 ∷ []) 2 false one_held).store
comm_stream-Balanced_example =
    comm_stream-Balanced runtime 1 (lend 5 (λ _. 0)) ((λ _. 0) ∷ []) false none 5 (4 ∷ 4 ∷ []) 2
      false one_held counter_laws
      (λ store b. push_stream-Balanced flag counter counter_laws 1 (λ _. 0) used store b, tt)
      one_held-Balanced

-- With one stream in the store, two turns are enough.
abbrev one_stored : Store Bool ℕ Stream ℕ
unfolding push_stream
one_stored = push_stream flag counter used one_held

one_left : left runtime 5 one_stored ≡ 1
unfolding entry_of put_entry lookup put new_streams_entry Queue.new try_acquire_permit push_stream
    push push_back notify_one one_allowed one_held one_stored
one_left = refl

enough_turns_example :
    try_stored runtime 2 5 (4 ∷ 4 ∷ []) 2 true one_stored
    ≡ try_stored runtime 7 5 (4 ∷ 4 ∷ []) 2 true one_stored
enough_turns_example =
    enough_turns runtime 5 2 7 (4 ∷ 4 ∷ []) 2 true one_stored (omega (arith, one_left))
      (omega (arith, one_left))

-- A peer that closes the connection after the first byte of its response: the byte is in the buffer, in
-- the place of the first byte of the message, which the next stream is sent.
failed_exchange :
    exchange runtime.write_all (1 ∷ replicate 39 0) (accepted (9 ∷ [])) 2 true
    ≡ (err unexpected_eof, 9 ∷ replicate 39 0)
unfolding exchange read_response fill_buf read_exact
failed_exchange = refl

-- A node with the IPv4 address 4 and the IPv6 address 6, IPv6 being off: no address works, and no error is
-- logged; with the IPv4 address alone it is.
abbrev two_addresses : Store Bool ℕ Stream ℕ
two_addresses = record {
  streams = [];
  bufs = [];
  addrs = (5, 4 ∷ 6 ∷ []) ∷ (7, 4 ∷ []) ∷ [];
  connection_limit = 1;
}

skipped_not_logged :
    broadcast_errors
      (λ bytes addr. err timed_out)
      (λ addr. addr == 6)
      false
      (5 ∷ 7 ∷ [])
      []
      two_addresses
    ≡ 7 ∷ []
unfolding broadcast_errors send_errors get_node_addrs lookup
skipped_not_logged = refl
