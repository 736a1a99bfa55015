-- ===== src/Db/Invariant/Once.antt =====
-- What the invariant gives to `get_targets_with_states` (mgmtd/src/bee_msg/common.rs), which joins every
-- target with the groups that it is primary or secondary of.
use beegfs_rust.Prelude.{
  ℕ, ◌+◌, ◌-◌, ◌*◌, leb, ltb, ◌==◌, ◌&&◌, if◌then◌else◌, Bool, true, Bool-cases, inl, inr, List, [],
  ◌∷◌, ◌++◌, All, map, suc, Option, none, some, Option-cases, ◌||◌, false, ap, ◌∙◌, ◌≡◌, subst, sym,
  refl, arith, ◌≤◌, replicate,
}
use beegfs_rust.Result.{Result, ok, both_ok, ◌>>=◌}
use beegfs_rust.Types.{NodeTypeServer}
use beegfs_rust.Db.Tables.{Target, BuddyGroup, Node, sql_variant, node_sql_variant, has_target_id}
use beegfs_rust.Db.Target.{owns}
use beegfs_rust.Db.Target.Ids.{UniqueTargets}
use beegfs_rust.Db.States.{
  State, reachability, groups_with, primary_in, secondary_in, joined, nodes_of, row_state,
  get_targets_with_states,
}
use beegfs_rust.Db.Store.{Store, has_member, has_node_id}
use beegfs_rust.Db.Invariant.{Disjoint, apart}
use beegfs_rust.Db.Invariant.Steps.{Reach, Reach-Inv}

-- The groups apart from one that has the target do not have it.
nowhere :
    (t : Target) (g : BuddyGroup) (gs : List BuddyGroup)
    → has_member t.node_type t.target_id g ≡ true
    → All (λ h. apart g h ≡ true) gs
    → primary_in t gs + secondary_in t gs ≡ 0
unfolding groups_with
nowhere t g [] m a = refl
nowhere t g (h ∷ gs) m a = ground (arith, m, a.0, nowhere t g gs m a.1)

-- A target is in one group at most, and there in one role.
pub one_role :
    (t : Target) (gs : List BuddyGroup) → Disjoint gs → primary_in t gs + secondary_in t gs ≤ 1
unfolding groups_with
one_role t [] d = omega arith
one_role t (g ∷ gs) d = elim (Bool-cases (has_member t.node_type t.target_id g)) [
  | inl p ↦ ground (arith, p, d.0, nowhere t g gs p d.1.0)
  | inr p ↦ ground (arith, p, one_role t gs d.1.1)
]

-- `UNIQUE (node_type, node_id)`
abbrev same_node : Node → Node → Bool
same_node n m =
    node_sql_variant n.node_type == node_sql_variant m.node_type && n.node_id == m.node_id

abbrev pub UniqueNodes : List Node → Type 0
UniqueNodes [] = Unit {0}
UniqueNodes (n ∷ ns) = All (λ m. same_node n m ≡ false) ns × UniqueNodes ns

no_other_node :
    (t : Target) (n : Node) (ns : List Node)
    → owns n t ≡ true
    → All (λ m. same_node n m ≡ false) ns
    → nodes_of t ns ≡ 0
unfolding nodes_of
no_other_node t n [] o h = refl
no_other_node t n (m ∷ ns) o h = elim (Option-cases t.node_id) [
  | inl p ↦ absurd (ground (arith, o, p))
  | inr (i, p) ↦ ground (arith, o, p, h.0, no_other_node t n ns o h.1)
]

one_node : (t : Target) (ns : List Node) → UniqueNodes ns → nodes_of t ns ≤ 1
unfolding nodes_of
one_node t [] u = omega arith
one_node t (n ∷ ns) u = elim (Bool-cases (owns n t)) [
  | inl p ↦ rw p (ground (arith, no_other_node t n ns p u.0))
  | inr p ↦ rw p (one_node t ns u.1)
]

-- The targets of the type that are on a node.
abbrev mapped_ids : NodeTypeServer → List Node → List Target → List ℕ
mapped_ids ty nodes [] = []
mapped_ids ty nodes (t ∷ ts) =
    if sql_variant t.node_type == sql_variant ty && ltb 0 (nodes_of t nodes)
    then t.target_id ∷ mapped_ids ty nodes ts
    else mapped_ids ty nodes ts

state_id :
    (now : ℕ) (pre : Bool) (timeout : ℕ) (gs : List BuddyGroup) (t : Target) {s : State}
    → row_state now pre timeout gs t ≡ ok s
    → s.0 ≡ t.target_id
unfolding row_state
state_id now pre timeout gs t e = ground (arith, e)

module _ (now : ℕ) (pre : Bool) (ty : NodeTypeServer) (timeout : ℕ) (nodes : List Node)
    (gs : List BuddyGroup) (un : UniqueNodes nodes) (d : Disjoint gs) where
  reported_ids :
      (ts : List Target) {states : List State}
      → get_targets_with_states now pre ty timeout nodes gs ts ≡ ok states
      → map (λ s. s.0) states ≡ mapped_ids ty nodes ts
  unfolding get_targets_with_states
  reported_ids [] {states = states} e =
      let none_left : [] ≡ states = ground (arith, e) in rw (sym none_left) refl
  reported_ids (t ∷ ts) {states = states} e =
      elim (Bool-cases (sql_variant t.node_type == sql_variant ty && ltb 0 (nodes_of t nodes))) [
        | inr q ↦ rw q (reported_ids ts (ground (arith, q, e)))
        | inl q ↦
            let n : ℕ =
              nodes_of t nodes * (joined (primary_in t gs) * joined (secondary_in t gs)) in
            let others_of : Result (List State) =
              get_targets_with_states now pre ty timeout nodes gs ts in
            let step : State → List State → Result (List State) =
              λ s rest. ok (replicate n s ++ rest) in
            let one_group : joined (primary_in t gs) * joined (secondary_in t gs) ≡ 1 =
              ground (arith, one_role t gs d) in
            let one : nodes_of t nodes ≡ 1 = ground (arith, q, one_node t nodes un) in
            let once : n ≡ 1 = rw (one, one_group) refl in
            let (s, (row, next)) =
              both_ok (row_state now pre timeout gs t) (λ s. others_of >>= λ rest. step s rest)
                states (ground (arith, q, e)) in
            let (rest, (others, last)) = both_ok others_of (λ rest. step s rest) states next in
            let whole : s ∷ rest ≡ states =
              subst (λ k. replicate k s ++ rest ≡ states) once (ground (arith, last)) in
            rw (sym whole) (rw q (cc (state_id now pre timeout gs t row, reported_ids ts others)))
      ]

-- No target was updated in the future: then the list is produced.
pub states_exist :
    (now : ℕ) (pre : Bool) (ty : NodeTypeServer) (timeout : ℕ) (nodes : List Node)
    (gs : List BuddyGroup) (ts : List Target)
    → All (λ t. leb t.last_update now ≡ true) ts
    → (states : List State) × (get_targets_with_states now pre ty timeout nodes gs ts ≡ ok states)
unfolding get_targets_with_states row_state
states_exist now pre ty timeout nodes gs [] h = ([], refl)
states_exist now pre ty timeout nodes gs (t ∷ ts) h =
    let (states, e) = states_exist now pre ty timeout nodes gs ts h.1 in
    let reach =
      reachability pre (ltb 0 (primary_in t gs)) (ltb 0 (secondary_in t gs)) (now - t.last_update)
        timeout in
    elim (Bool-cases (sql_variant t.node_type == sql_variant ty && ltb 0 (nodes_of t nodes))) [
      | inl q ↦ (
        replicate (nodes_of t nodes * (joined (primary_in t gs) * joined (secondary_in t gs)))
              (t.target_id, (t.consistency, reach))
            ++ states,
        ground (arith, q, e, h.0),
      )
      | inr q ↦ (states, ground (arith, q, e))
    ]

-- A target with the id is in the table, and its node is too.
abbrev is_on : NodeTypeServer → List Node → Option ℕ → Bool
is_on ty nodes none = false
is_on ty nodes (some n) = has_node_id ty n nodes

abbrev pub on_node : NodeTypeServer → ℕ → List Node → List Target → Bool
on_node ty i nodes [] = false
on_node ty i nodes (t ∷ ts) =
    (has_target_id ty i t && is_on ty nodes t.node_id) || on_node ty i nodes ts

abbrev pub times : ℕ → List ℕ → ℕ
times i [] = 0
times i (j ∷ js) = if i == j then suc (times i js) else times i js

is_on_lem :
    (ty : NodeTypeServer) (nodes : List Node) (t : Target)
    → (sql_variant t.node_type == sql_variant ty) ≡ true
    → ltb 0 (nodes_of t nodes) ≡ is_on ty nodes t.node_id
unfolding nodes_of has_node_id
is_on_lem ty [] t e = elim (Option-cases t.node_id) [ inl p ↦ rw p refl | inr (i, p) ↦ rw p refl ]
is_on_lem ty (n ∷ ns) t e =
    let same : sql_variant t.node_type ≡ sql_variant ty = ground (arith, e) in
    elim (Option-cases t.node_id) [
      | inl p ↦ ground (arith, p, same, is_on_lem ty ns t e)
      | inr (i, p) ↦ ground (arith, p, same, is_on_lem ty ns t e)
    ]

module _ (ty : NodeTypeServer) (i : ℕ) (nodes : List Node) where
  elsewhere :
      (t : Target) (ts : List Target)
      → has_target_id ty i t ≡ true
      → All (λ u. has_target_id t.node_type t.target_id u ≡ false) ts
      → (times i (mapped_ids ty nodes ts) ≡ 0) × (on_node ty i nodes ts ≡ false)
  elsewhere t [] e h = (refl, refl)
  elsewhere t (u ∷ ts) e h =
      let (a, b) = elsewhere t ts e h.1 in
      let not_here : has_target_id ty i u ≡ false = ground (arith, e, h.0) in
      (ground (arith, a, not_here), rw not_here b)

  times-mapped_ids :
      (ts : List Target)
      → UniqueTargets ts
      → times i (mapped_ids ty nodes ts) ≡ (if on_node ty i nodes ts then 1 else 0)
  times-mapped_ids [] u = refl
  times-mapped_ids (t ∷ ts) u = elim (Bool-cases (has_target_id ty i t)) [
    | inl p ↦
        let (a, b) = elsewhere t ts p u.0 in
        ground (arith, p, a, b, is_on_lem ty nodes t (ground (arith, p)))
    | inr p ↦ ground (arith, p, times-mapped_ids ts u.1)
  ]

-- In every store that the transactions lead to, with unique nodes and when no target was updated in the
-- future, a list of target states is produced, and an id is in it exactly once if the target of the node type
-- with the id is on a node of the table, and not at all if there is no such target.
pub reported_once :
    (now : ℕ) (pre : Bool) (ty : NodeTypeServer) (timeout : ℕ) {s : Store}
    → Reach s
    → UniqueNodes s.nodes
    → All (λ t. leb t.last_update now ≡ true) s.targets
    → (states : List State) × ((get_targets_with_states now pre ty timeout s.nodes s.groups
            s.targets
          ≡ ok states)
        × ((i : ℕ)
            → times i (map (λ x. x.0) states) ≡ (if on_node ty i s.nodes s.targets then 1 else 0)))
reported_once now pre ty timeout {s = s} r un h =
    let (states, e) = states_exist now pre ty timeout s.nodes s.groups s.targets h in
    let inv = Reach-Inv r in
    let ids = reported_ids now pre ty timeout s.nodes s.groups un inv.disjoint s.targets e in
    (
      states,
      (e, λ i. ap (times i) ids ∙ times-mapped_ids ty i s.nodes s.targets inv.unique_targets),
    )
