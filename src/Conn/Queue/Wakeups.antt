-- ===== src/Conn/Queue/Wakeups.antt =====
-- Tasks that push and pop at the same time (shared/src/conn/async_queue.rs): every part of an operation
-- that runs under the lock, or on the notification, is a step of its own.
use beegfs_rust.Prelude.{
  ℕ, suc, ltb, ◌||◌, if◌then◌else◌, Bool, true, false, Option, none, some, List, [], ◌∷◌, ◌++◌, ◌≡◌,
  refl, sym, ap, ◌∙◌, arith, append_assoc, append-nil, Option-cases, Bool-cases, inl, inr, ◌⊎◌,
}
use beegfs_rust.Conn.Queue.{
  Notify, is_some, NotifyLaws, AsyncQueue, front, new, notify_one, push_back, pop_front, try_pop,
  pop_turn,
}

-- The queue, the tasks that have changed it and will call `notify_one` next, and the tasks in `pop` whose
-- `notified` has completed and that will take the lock next.
pub record System (N T : Type 0) : Type 0 where
  pub queue : AsyncQueue N T
  pub notifying : ℕ
  pub awake : ℕ

abbrev pub item_list {ℓ} : {A : Type ℓ} → Option A → List A
item_list none = []
item_list (some a) = a ∷ []

-- After `pop_front`, the task notifies if items are left.
abbrev pub popped_system : {N T : Type 0} → (Option T × Bool) × AsyncQueue N T → ℕ → ℕ → System N T
popped_system r notifying awake = record {
  queue = r.1;
  notifying = if r.0.1 then suc notifying else notifying;
  awake = awake;
}

module _ {N T : Type 0} (notify : Notify N) where
  -- The runs from a new queue, with the items that were pushed and those that were popped.
  pub data Run : List T → List T → System N T → Type 0 where
    start : Run [] [] (record { queue = new notify; notifying = 0; awake = 0 })
    push_locked :
        (item : T) {pushed popped : List T} {s : System N T}
        → Run pushed popped s
        → Run
            (pushed ++ (item ∷ []))
            popped
            (record s { queue = push_back notify item s.queue; notifying = suc s.notifying })
    notified_one :
        {pushed popped : List T} {q : AsyncQueue N T} {notifying awake : ℕ}
        → Run pushed popped (record { queue = q; notifying = suc notifying; awake = awake })
        → Run pushed popped
            (record { queue = notify_one notify q; notifying = notifying; awake = awake })
    woken :
        {pushed popped : List T} {s : System N T} {n : N}
        → Run pushed popped s
        → notify.notified s.queue.notification ≡ some n
        → Run pushed popped
            (record s { queue = record s.queue { notification = n }; awake = suc s.awake })
    pop_locked :
        {pushed popped : List T} {q : AsyncQueue N T} {notifying awake : ℕ}
        → Run pushed popped (record { queue = q; notifying = notifying; awake = suc awake })
        → Run pushed
            (popped ++ item_list (pop_front notify q).0.0)
            (popped_system (pop_front notify q) notifying awake)
    try_pop_locked :
        {pushed popped : List T} {s : System N T}
        → Run pushed popped s
        → Run pushed
            (popped ++ item_list (pop_front notify s.queue).0.0)
            (popped_system (pop_front notify s.queue) s.notifying s.awake)

front_order :
    {T : Type 0} (popped items : List T)
    → popped ++ item_list (front items).0.0 ++ (front items).1 ≡ popped ++ items
unfolding front
front_order popped [] = append-nil (popped ++ [])
front_order popped (item ∷ []) = append-nil (popped ++ (item ∷ []))
front_order popped (item ∷ other ∷ rest) = append_assoc popped (item ∷ []) (other ∷ rest)

front_item :
    {T : Type 0} (item : T) (rest : List T)
    → ((front (item ∷ rest)).0.0 ≡ some item) × ((front (item ∷ rest)).1 ≡ rest)
unfolding front
front_item item [] = (refl, refl)
front_item item (other ∷ rest) = (refl, refl)

front_more : {T : Type 0} (items : List T) → (front items).0.1 ≡ false → (front items).1 ≡ []
unfolding front
front_more [] e = refl
front_more (item ∷ []) e = refl
front_more (item ∷ other ∷ rest) e = absurd (ground (arith, e))

module _ {N T : Type 0} (notify : Notify N) where
  -- However the tasks interleave, the items are popped in the order in which they were pushed, each once,
  -- and those that are not popped are in the queue.
  pub popped_in_order :
      {pushed popped : List T} {s : System N T}
      → Run notify pushed popped s
      → popped ++ s.queue.queue ≡ pushed
  unfolding new push_back notify_one pop_front
  popped_in_order start = refl
  popped_in_order (push_locked item {popped = popped} {s = s} r) =
      sym (append_assoc popped s.queue.queue (item ∷ []))
      ∙ ap (λ x. x ++ (item ∷ [])) (popped_in_order r)
  popped_in_order (notified_one r) = popped_in_order r
  popped_in_order (woken r e) = popped_in_order r
  popped_in_order (pop_locked {popped = popped} {q = q} r) =
      front_order popped q.queue ∙ popped_in_order r
  popped_in_order (try_pop_locked {popped = popped} {s = s} r) =
      front_order popped s.queue.queue ∙ popped_in_order r

  -- Items are in the queue only when some task will notify or take the lock, or a permit is stored.
  abbrev Served : System N T → Type 0
  Served s =
      (s.queue.queue ≡ [])
      ⊎ ((ltb 0 s.notifying || (ltb 0 s.awake || is_some (notify.notified s.queue.notification)))
          ≡ true)

  served :
      NotifyLaws notify
      → {pushed popped : List T} {s : System N T} → Run notify pushed popped s
      → Served s
  unfolding new push_back notify_one pop_front
  served laws start = inl refl
  served laws (push_locked item r) = inr (ground arith)
  served laws (notified_one {q = q} r) = inr (ground (arith, laws.stored q.notification))
  served laws (woken r e) = inr (ground arith)
  served laws (pop_locked {q = q} r) = elim (Bool-cases (front q.queue).0.1) [
    | inl p ↦ inr (rw p (ground arith))
    | inr p ↦ inl (front_more q.queue p)
  ]
  served laws (try_pop_locked {s = s} r) = elim (Bool-cases (front s.queue.queue).0.1) [
    | inl p ↦ inr (rw p (ground arith))
    | inr p ↦ inl (front_more s.queue.queue p)
  ]

  -- A `try_pop` on a queue with items gives the first.
  try_pop_lem :
      (q : AsyncQueue N T) (item : T) (rest : List T)
      → q.queue ≡ item ∷ rest
      → ((try_pop notify q).0 ≡ some item) × ((try_pop notify q).1.queue ≡ rest)
  unfolding try_pop pop_front notify_one
  try_pop_lem q item rest e =
      let (a, b) = front_item item rest in
      let taken : (front q.queue).0.0 ≡ some item = ap (λ x. (front x).0.0) e ∙ a in
      let left : (front q.queue).1 ≡ rest = ap (λ x. (front x).1) e ∙ b in
      (taken, elim (Bool-cases (front q.queue).0.1) [ inl p ↦ rw p left | inr p ↦ rw p left ])

  -- No wake-up is lost: in every state that interleaved pushes and pops lead to, if an item is in the queue
  -- and no task is between two parts of an operation, a `pop` does not wait and returns the first item.
  pub pop_turn-item :
      {pushed popped : List T} {s : System N T} {item : T} {rest : List T}
      → NotifyLaws notify
      → Run notify pushed popped s
      → s.queue.queue ≡ item ∷ rest
      → s.notifying ≡ 0
      → s.awake ≡ 0
      → (q : AsyncQueue N T) × ((pop_turn notify s.queue ≡ some (some item, q)) × (q.queue ≡ rest))
  unfolding pop_turn
  pop_turn-item {s = s} {item = item} {rest = rest} laws r e n a =
      elim (Option-cases (notify.notified s.queue.notification)) [
        | inl p ↦ absurd (elim (served laws r) [
          | inl z ↦ ground (arith, e, z)
          | inr z ↦ ground (arith, n, a, p, z)
        ])
        | inr (permit, p) ↦
            let waiting : AsyncQueue N T = record s.queue { notification = permit } in
            let (taken, left) = try_pop_lem waiting item rest e in
            (
              (try_pop notify waiting).1,
              (rw (pop_turn, p) (ap (λ x. some (x, (try_pop notify waiting).1)) taken), left),
            )
      ]
