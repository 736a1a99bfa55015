-- ===== src/Db/Misc/NewId.antt =====
-- What `find_new_id` (mgmtd/src/db/misc.rs) returns.
use beegfs_rust.Prelude.{
  ℕ, zero, suc, ◌+◌, ◌==◌, ◌≤◌, ◌≡◌, ◌≢◌, true, false, Bool-cases, Option-cases, ◌⊎◌, inl, inr,
  none, some, List, [], ◌∷◌, arith,
}
use beegfs_rust.Result.{ok, err, no_free_id}
use beegfs_rust.Db.Misc.{member, min_successor, find_new_id}

module _ (all : List ℕ) (min max : ℕ) where
  -- An unused id in the range.
  pub record Free (n : ℕ) : Type 0 where
    pub low : min ≤ n
    pub high : n ≤ max
    pub unused : member n all ≡ false

  successor-Free : (ids : List ℕ) {n : ℕ} → min_successor all min max ids ≡ some n → Free n
  unfolding min_successor
  successor-Free [] e = absurd (cc)
  successor-Free (i ∷ ids) {n = n} e = elim (Option-cases (min_successor all min max ids)) [
    | inl p ↦ record {
      low = ground (arith, p);
      high = ground (arith, p);
      unused = ground (arith, p);
    }
    | inr (m, p) ↦
        let f = successor-Free ids p in
        record {
          low = ground (arith, p, f.low);
          high = ground (arith, p, f.high);
          unused = ground (arith, p, f.unused);
        }
  ]

  successor_found :
      (ids : List ℕ) (i : ℕ)
      → member i ids ≡ true
      → Free (suc i)
      → min_successor all min max ids ≢ none
  unfolding min_successor member
  successor_found [] i h f = absurd (cc)
  successor_found (j ∷ ids) i h f = elim (Bool-cases (member i ids)) [
    | inl p ↦ elim (Option-cases (min_successor all min max ids)) [
      | inl q ↦ absurd (successor_found ids i p f q)
      | inr (m, q) ↦ ground (arith, q)
    ]
    | inr p ↦
        let same : j ≡ i = ground (arith, p) in
        elim (Option-cases (min_successor all min max ids)) [
          | inl q ↦ ground (arith, q, same, f.low, f.high, f.unused)
          | inr (m, q) ↦ ground (arith, q, same, f.low, f.high, f.unused)
        ]
  ]

  successor_least :
      (ids : List ℕ) (i : ℕ) {n : ℕ}
      → member i ids ≡ true
      → Free (suc i)
      → min_successor all min max ids ≡ some n
      → n ≤ suc i
  unfolding min_successor member
  successor_least [] i h f e = absurd (cc)
  successor_least (j ∷ ids) i h f e = elim (Bool-cases (member i ids)) [
    | inl p ↦ elim (Option-cases (min_successor all min max ids)) [
      | inl q ↦ absurd (successor_found ids i p f q)
      | inr (m, q) ↦ ground (arith, q, successor_least ids i p f q)
    ]
    | inr p ↦
        let same : j ≡ i = ground (arith, p) in
        elim (Option-cases (min_successor all min max ids)) [
          | inl q ↦ ground (arith, q, same, f.low, f.high, f.unused)
          | inr (m, q) ↦ ground (arith, q, same, f.low, f.high, f.unused)
        ]
  ]

  used_up :
      min_successor all min max all ≡ none
      → member min all ≡ true
      → (k : ℕ) → min + k ≤ max
      → member (min + k) all ≡ true
  used_up e h zero le = ground (arith, h)
  used_up e h (suc k) le = elim (Bool-cases (member (suc (min + k)) all)) [
    | inl p ↦ ground (arith, p)
    | inr p ↦ absurd (
        successor_found all (min + k) (used_up e h k (omega arith))
          (record { low = omega arith; high = omega arith; unused = p }) e)
  ]

  -- On a range that is not empty, the result is an unused id of the range, and it is an error only if
  -- every id of the range is used.
  pub find_new_id-outcome :
      min ≤ max
      → ((n : ℕ) × ((find_new_id all min max ≡ ok n) × Free n))
        ⊎ ((find_new_id all min max ≡ err no_free_id)
            × ((k : ℕ) → min + k ≤ max → member (min + k) all ≡ true))
  unfolding find_new_id
  find_new_id-outcome le = elim (Option-cases (min_successor all min max all)) [
    | inr (n, p) ↦ inl (n, (ground (arith, p), successor-Free all p))
    | inl p ↦ elim (Bool-cases (member min all)) [
      | inl q ↦ inr (ground (arith, p, q), used_up p q)
      | inr q ↦
          inl (min, (ground (arith, p, q), record { low = omega arith; high = le; unused = q }))
    ]
  ]

  after_used :
      (ids : List ℕ) {n : ℕ}
      → min_successor all min max ids ≡ some n
      → (j : ℕ) × ((n ≡ suc j) × (member j ids ≡ true))
  unfolding min_successor member
  after_used [] e = absurd (cc)
  after_used (i ∷ ids) {n = n} e = elim (Option-cases (min_successor all min max ids)) [
    | inl p ↦ (i, (ground (arith, p), ground arith))
    | inr (m, p) ↦
        let (j, (same, used)) = after_used ids p in
        elim (Bool-cases (n == m)) [
          | inl q ↦ (j, (ground (arith, q, same), ground (arith, used)))
          | inr q ↦ (i, (ground (arith, p, q), ground arith))
        ]
  ]

  -- If a used id is followed by an unused one of the range, the result follows a used id too, is an
  -- unused id of the range, and is at most that one.
  pub find_new_id_least :
      (i : ℕ)
      → member i all ≡ true
      → Free (suc i)
      → (j : ℕ) × ((find_new_id all min max ≡ ok (suc j))
          × ((member j all ≡ true) × (Free (suc j) × (suc j ≤ suc i))))
  unfolding find_new_id
  find_new_id_least i h f = elim (Option-cases (min_successor all min max all)) [
    | inl p ↦ absurd (successor_found all i h f p)
    | inr (n, p) ↦
        let (j, (same, used)) = after_used all p in
        let found : min_successor all min max all ≡ some (suc j) = ground (arith, p, same) in
        (
          j,
          (
            ground (arith, found),
            (used, (successor-Free all found, successor_least all i h f found)),
          ),
        )
  ]
