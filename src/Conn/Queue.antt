-- ===== src/Conn/Queue.antt =====
-- The queue that async tasks share (shared/src/conn/async_queue.rs). tokio's `Notify` is a parameter.
pub mod Wakeups
use beegfs_rust.Prelude.{
  ℕ, ◌&&◌, not, if◌then◌else◌, Bool, true, false, Option, none, some, List, [], ◌∷◌, ◌++◌, ◌≡◌,
}

-- `tokio::sync::Notify`: `notified` takes a stored permit, or there is none and the caller waits.
pub record Notify (N : Type 0) : Type 0 where
  pub new : N
  pub notify_one : N → N
  pub notified : N → Option N

abbrev pub is_some {ℓ} : {A : Type ℓ} → Option A → Bool
is_some none = false
is_some (some a) = true

-- Its documentation: after `notify_one` the next `notified` completes.
pub record NotifyLaws {N : Type 0} (notify : Notify N) : Type 0 where
  pub stored : (n : N) → is_some (notify.notified (notify.notify_one n)) ≡ true

pub record AsyncQueue (N T : Type 0) : Type 0 where
  pub queue : List T
  pub notification : N

-- `VecDeque::pop_front`, and whether others are left after an item.
unfoldable pub front : {T : Type 0} → List T → (Option T × Bool) × List T
front [] = ((none, false), [])
front (item ∷ []) = ((some item, false), [])
front (item ∷ other ∷ rest) = ((some item, true), other ∷ rest)

module _ {N T : Type 0} (notify : Notify N) where
  unfoldable pub new : AsyncQueue N T
  new = record { queue = []; notification = notify.new }

  unfoldable pub notify_one : AsyncQueue N T → AsyncQueue N T
  notify_one q = record q { notification = notify.notify_one q.notification }

  -- Under the lock: the item goes to the end.
  unfoldable pub push_back : T → AsyncQueue N T → AsyncQueue N T
  push_back item q = record q { queue = q.queue ++ (item ∷ []) }

  unfoldable pub push : T → AsyncQueue N T → AsyncQueue N T
  unfolding push_back notify_one
  push item q = notify_one (push_back item q)

  -- Under the lock: the item, and whether it is one and others are left.
  unfoldable pub pop_front : AsyncQueue N T → (Option T × Bool) × AsyncQueue N T
  unfolding front
  pop_front q = let (taken, rest) = front q.queue in (taken, record q { queue = rest })

  unfoldable pub try_pop : AsyncQueue N T → Option T × AsyncQueue N T
  unfolding pop_front notify_one
  try_pop q = let ((item, more), q') = pop_front q in (item, if more then notify_one q' else q')

  -- One turn of the loop of `pop`: it waits (none), or it takes the notification and tries.
  unfoldable pub pop_turn : AsyncQueue N T → Option (Option T × AsyncQueue N T)
  unfolding try_pop
  pop_turn q = elim (notify.notified q.notification) as (λ x. Option (Option T × AsyncQueue N T)) [
    | none ↦ none
    | some n ↦ some (try_pop (record q { notification = n }))
  ]
