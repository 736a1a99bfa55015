-- ===== src/Db/States/Contact.antt =====
-- The reported states of primary targets and of targets that have just been in contact
-- (mgmtd/src/bee_msg/common.rs).
use beegfs_rust.Prelude.{
  ℕ, ◌+◌, ◌/◌, ◌≡◌, refl, leb, ltb, ◌==◌, ◌&&◌, ◌||◌, not, Bool, true, false, subst, List, [], ◌∷◌,
  All, map, arith,
}
use beegfs_rust.Result.{ok}
use beegfs_rust.Types.{NodeTypeServer, TargetReachabilityState}
use beegfs_rust.Db.Tables.{Node, Target, BuddyGroup, sql_variant}
use beegfs_rust.Db.Target.{selected, count, update_last_update, update_last_contact_times}
use beegfs_rust.Db.States.{
  State, reachability, groups_with, primary_in, row_state, get_targets_with_states,
}
use beegfs_rust.Db.States.Reported.{reported_all, RowHolds}
use beegfs_rust.Db.Misc.{member}

abbrev pub is_online : TargetReachabilityState → Bool
is_online TargetReachabilityState.online = true
is_online _ = false

abbrev pub is_offline : TargetReachabilityState → Bool
is_offline TargetReachabilityState.offline = true
is_offline _ = false

-- The target is the primary one of some group.
abbrev pub is_primary_id : NodeTypeServer → ℕ → List BuddyGroup → Bool
is_primary_id ty i [] = false
is_primary_id ty i (g ∷ gs) =
    (g.p_target_id == i && sql_variant g.node_type == sql_variant ty) || is_primary_id ty i gs

is_primary_id_lem :
    (ty : NodeTypeServer) (t : Target) (gs : List BuddyGroup)
    → (sql_variant t.node_type == sql_variant ty) ≡ true
    → is_primary_id ty t.target_id gs ≡ ltb 0 (primary_in t gs)
unfolding groups_with
is_primary_id_lem ty t [] e = refl
is_primary_id_lem ty t (g ∷ gs) e = ground (arith, is_primary_id_lem ty t gs e)

module _ (now : ℕ) (pre_shutdown : Bool) (ty : NodeTypeServer) (timeout : ℕ) (nodes : List Node)
    (groups : List BuddyGroup) where
  primary_rows :
      (ts : List Target)
      → All
          (RowHolds now pre_shutdown ty timeout nodes groups
            (λ s. (is_primary_id ty s.0 groups && is_offline s.1.1) ≡ false))
          ts
  unfolding row_state reachability
  primary_rows [] = tt
  primary_rows (t ∷ ts) =
      (λ s m r. ground (arith, is_primary_id_lem ty t groups m), primary_rows ts)

  -- A target that is the primary one of a buddy group is never reported as offline.
  pub primary_not_offline :
      (ts : List Target) {states : List State}
      → get_targets_with_states now pre_shutdown ty timeout nodes groups ts ≡ ok states
      → All (λ s. (is_primary_id ty s.0 groups && is_offline s.1.1) ≡ false) states
  primary_not_offline ts e =
      reported_all now pre_shutdown ty timeout nodes groups
        (λ s. (is_primary_id ty s.0 groups && is_offline s.1.1) ≡ false) ts (primary_rows ts) e

module _ (now : ℕ) (ty : NodeTypeServer) (timeout : ℕ) (ids : List ℕ)
    (groups : List BuddyGroup) where
  contact_rows :
      (nodes : List Node) (ts : List Target)
      → All
          (RowHolds now false ty timeout nodes groups
            (λ s. (member s.0 ids && not (is_online s.1.1)) ≡ false))
          (map (update_last_update now ty ids) ts)
  unfolding row_state reachability update_last_update
  contact_rows nodes [] = tt
  contact_rows nodes (t ∷ ts) = (λ s m r. ground arith, contact_rows nodes ts)

  -- After a contact, all the targets that it is about are reported as online at the time of the
  -- contact, unless the management shuts down.
  pub contacted_online :
      (nodes : List Node) (ts : List Target) {n : ℕ} {nodes' : List Node} {ts' : List Target}
      {states : List State}
      → update_last_contact_times now ids ty timeout nodes ts ≡ (n, (nodes', ts'))
      → get_targets_with_states now false ty timeout nodes' groups ts' ≡ ok states
      → All (λ s. (member s.0 ids && not (is_online s.1.1)) ≡ false) states
  unfolding update_last_contact_times
  contacted_online nodes ts {nodes' = nodes'} {ts' = ts'} {states = states} e f =
      let same : ts' ≡ map (update_last_update now ty ids) ts = ground (arith, e) in
      reported_all now false ty timeout nodes' groups
        (λ s. (member s.0 ids && not (is_online s.1.1)) ≡ false) _ (contact_rows nodes' ts)
        (subst (λ x. get_targets_with_states now false ty timeout nodes' groups x ≡ ok states) same
          f)

module _ (now : ℕ) (ty : NodeTypeServer) (timeout : ℕ) (ids : List ℕ)
    (groups : List BuddyGroup) where
  count-same :
      (p q : Target → Bool) (ts : List Target) → All (λ t. p t ≡ q t) ts → count p ts ≡ count q ts
  unfolding count
  count-same p q [] h = refl
  count-same p q (t ∷ ts) h = ground (arith, h.0, count-same p q ts h.1)

  -- The row of a target has the state online.
  abbrev pub row_online : Target → Bool
  row_online t = elim (row_state now false timeout groups t) as (λ x. Bool) [
    | ok s ↦ is_online s.1.1
    | _ ↦ false
  ]

  rows_agree :
      (ts : List Target)
      → All (λ t. leb t.last_update now ≡ true) ts
      → All
          (λ t.
            (selected ty ids t && ltb (t.last_update + timeout / 2) now)
            ≡ (selected ty ids t && not (row_online t)))
          ts
  unfolding row_state reachability
  rows_agree [] h = tt
  rows_agree (t ∷ ts) h = (ground (arith, h.0), rows_agree ts h.1)

  -- Outside of a shutdown, and when no target was updated in the future, the number that a contact
  -- returns is that of the targets of the node type with one of the ids whose state by the table before
  -- the contact was something else than online, whatever buddy groups there are.
  pub reachabilities_changed :
      (nodes : List Node) (ts : List Target)
      → All (λ t. leb t.last_update now ≡ true) ts
      → (update_last_contact_times now ids ty timeout nodes ts).0
        ≡ count (λ t. selected ty ids t && not (row_online t)) ts
  unfolding update_last_contact_times
  reachabilities_changed nodes ts h = count-same _ _ ts (rows_agree ts h)
