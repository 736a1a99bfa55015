-- ===== src/Db/Target/Ids.antt =====
-- `validate_ids` (mgmtd/src/db/target.rs): what the comparison of two counts says of the ids.
use beegfs_rust.Prelude.{
  ℕ, ◌+◌, ◌≤◌, ◌≡◌, refl, ap, ◌↔◌, ◌==◌, if◌then◌else◌, Bool-cases, inl, inr, true, false, List, [],
  ◌∷◌, All, length, arith,
}
use beegfs_rust.Result.{ok}
use beegfs_rust.Types.{NodeTypeServer}
use beegfs_rust.Db.Tables.{Target, has_target_id}
use beegfs_rust.Db.Target.{selected, count, validate_ids}
use beegfs_rust.Db.Misc.{member}

-- `UNIQUE (node_type, target_id)`
abbrev pub UniqueTargets : List Target → Type 0
UniqueTargets [] = Unit {0}
UniqueTargets (t ∷ ts) =
    All (λ u. has_target_id t.node_type t.target_id u ≡ false) ts × UniqueTargets ts

abbrev pub Distinct : List ℕ → Type 0
Distinct [] = Unit {0}
Distinct (i ∷ ids) = (member i ids ≡ false) × Distinct ids

module _ (ty : NodeTypeServer) where
  -- The number of targets with the id `i`.
  abbrev pub matches : ℕ → List Target → ℕ
  matches i = count (has_target_id ty i)

  matches_absent :
      (i : ℕ) (t : Target) (ts : List Target)
      → All (λ u. has_target_id t.node_type t.target_id u ≡ false) ts
      → has_target_id ty i t ≡ true
      → matches i ts ≡ 0
  unfolding count
  matches_absent i t [] h e = refl
  matches_absent i t (u ∷ ts) h e = ground (arith, h.0, matches_absent i t ts h.1 e)

  matches_unique : (i : ℕ) (ts : List Target) → UniqueTargets ts → matches i ts ≤ 1
  unfolding count
  matches_unique i [] u = omega arith
  matches_unique i (t ∷ ts) u = elim (Bool-cases (has_target_id ty i t)) [
    | inl p ↦ ground (arith, p, matches_absent i t ts u.0 p)
    | inr p ↦ ground (arith, p, matches_unique i ts u.1)
  ]

  none_selected : (ts : List Target) → count (selected ty []) ts ≡ 0
  unfolding count member
  none_selected [] = refl
  none_selected (t ∷ ts) = ground (arith, none_selected ts)

  -- One more id: its targets are added, unless it was in the list already.
  selected_more :
      (i : ℕ) (ids : List ℕ) (ts : List Target)
      → count (selected ty (i ∷ ids)) ts
        ≡ (if member i ids then 0 else matches i ts) + count (selected ty ids) ts
  unfolding count member
  selected_more i ids [] = ground arith
  selected_more i ids (t ∷ ts) = elim (Bool-cases (i == t.target_id)) [
    | inl p ↦
        let same : i ≡ t.target_id = ground (arith, p) in
        ground (arith, p, ap (λ n. member n ids) same, selected_more i ids ts)
    | inr p ↦ ground (arith, p, selected_more i ids ts)
  ]

  selected_at_most :
      (ids : List ℕ) (ts : List Target) → UniqueTargets ts → count (selected ty ids) ts ≤ length ids
  selected_at_most [] ts u = omega (arith, none_selected ts)
  selected_at_most (i ∷ ids) ts u =
      ground (arith, selected_more i ids ts, selected_at_most ids ts u, matches_unique i ts u)

  all_matched :
      (ids : List ℕ) (ts : List Target)
      → UniqueTargets ts
      → length ids ≤ count (selected ty ids) ts
      → Distinct ids × All (λ i. matches i ts ≡ 1) ids
  all_matched [] ts u h = (tt, tt)
  all_matched (i ∷ ids) ts u h =
      let rest =
        all_matched ids ts u (ground (arith, selected_more i ids ts, matches_unique i ts u)) in
      (
        (ground (arith, selected_more i ids ts, selected_at_most ids ts u), rest.0),
        (
          ground (arith, selected_more i ids ts, selected_at_most ids ts u, matches_unique i ts u),
          rest.1,
        ),
      )

  all_counted :
      (ids : List ℕ) (ts : List Target)
      → Distinct ids
      → All (λ i. matches i ts ≡ 1) ids
      → count (selected ty ids) ts ≡ length ids
  all_counted [] ts d m = none_selected ts
  all_counted (i ∷ ids) ts d m =
      ground (arith, d.0, m.0, selected_more i ids ts, all_counted ids ts d.1 m.1)

-- With unique targets, a list of ids is valid exactly if no id is in it twice and each is that of one
-- target of the node type.
pub validate_ids-Distinct :
    (ts : List Target) (ids : List ℕ) (ty : NodeTypeServer)
    → UniqueTargets ts
    → (validate_ids ts ids ty ≡ ok tt) ↔ (Distinct ids × All (λ i. matches ty i ts ≡ 1) ids)
unfolding validate_ids
validate_ids-Distinct ts ids ty u = (
  λ e. all_matched ty ids ts u (ground arith),
  λ h. ground (arith, all_counted ty ids ts h.0 h.1),
)
