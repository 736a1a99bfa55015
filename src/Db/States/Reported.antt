-- ===== src/Db/States/Reported.antt =====
-- What `get_targets_with_states` (mgmtd/src/bee_msg/common.rs) reports.
use beegfs_rust.Prelude.{
  ℕ, zero, suc, ◌*◌, ◌≡◌, ◌==◌, ◌&&◌, ltb, Bool, Bool-cases, true, subst, List, [], ◌∷◌, ◌++◌, All,
  replicate, arith, inl, inr,
}
use beegfs_rust.Result.{Result, ok, both_ok, ◌>>=◌}
use beegfs_rust.Types.{NodeTypeServer}
use beegfs_rust.Db.Tables.{Node, Target, BuddyGroup, sql_variant}
use beegfs_rust.Db.States.{
  State, primary_in, secondary_in, nodes_of, joined, row_state, get_targets_with_states,
}

All-append : {A : Type 0} (P : A → Type 0) (xs ys : List A) → All P xs → All P ys → All P (xs ++ ys)
All-append P [] ys h k = k
All-append P (x ∷ xs) ys h k = (h.0, All-append P xs ys h.1 k)

All-replicate : {A : Type 0} (P : A → Type 0) (n : ℕ) (a : A) → P a → All P (replicate n a)
All-replicate P zero a h = tt
All-replicate P (suc n) a h = (h, All-replicate P n a h)

module _ (now : ℕ) (pre_shutdown : Bool) (ty : NodeTypeServer) (timeout : ℕ) (nodes : List Node)
    (groups : List BuddyGroup) (P : State → Type 0) where
  abbrev pub RowHolds : Target → Type 0
  RowHolds t =
      (s : State)
      → (sql_variant t.node_type == sql_variant ty) ≡ true
      → row_state now pre_shutdown timeout groups t ≡ ok s
      → P s

  -- What holds of every row's state holds of every reported state.
  pub reported_all :
      (ts : List Target) {states : List State}
      → All RowHolds ts
      → get_targets_with_states now pre_shutdown ty timeout nodes groups ts ≡ ok states
      → All P states
  unfolding get_targets_with_states
  reported_all [] {states = states} h e = subst (All P) {x = []} {y = states} (ground arith) tt
  reported_all (t ∷ ts) {states = states} h e =
      elim (Bool-cases (sql_variant t.node_type == sql_variant ty && ltb 0 (nodes_of t nodes))) [
        | inr q ↦ reported_all ts h.1 (ground (arith, q))
        | inl q ↦
            let n : ℕ =
              nodes_of t nodes * (joined (primary_in t groups) * joined (secondary_in t groups)) in
            let others_of : Result (List State) =
              get_targets_with_states now pre_shutdown ty timeout nodes groups ts in
            let step : State → List State → Result (List State) =
              λ s rest. ok (replicate n s ++ rest) in
            let (s, (row, next)) =
              both_ok (row_state now pre_shutdown timeout groups t)
                (λ s. others_of >>= λ rest. step s rest) states (ground (arith, q)) in
            let (rest, (others, last)) = both_ok others_of (λ rest. step s rest) states next in
            let whole : replicate n s ++ rest ≡ states = ground (arith, last) in
            subst (All P) whole (
              All-append P (replicate n s) rest
                (All-replicate P n s (h.0 s (ground (arith, q)) row)) (reported_all ts h.1 others))
      ]
