-- ===== src/Quota/Pushed/OverLimit.antt =====
-- The ids in the messages of `distribute_exceeded` (mgmtd/src/quota.rs) against a description of the ids that
-- are over their limit by the rows of the tables.
use beegfs_rust.Prelude.{
  ℕ, ◌+◌, ltb, ◌==◌, ◌&&◌, not, if◌then◌else◌, Bool, true, false, Option, none, some, List, [], ◌∷◌,
  map, All, ◌≡◌, refl, ap, ◌∙◌, arith, Option-cases, inl, inr,
}
use beegfs_rust.Result.{ok}
use beegfs_rust.Types.{NodeTypeServer}
use beegfs_rust.Message.Quota.{SetExceededQuota}
use beegfs_rust.Db.Tables.{Target, find_target}
use beegfs_rust.Db.Target.Ids.{Distinct}
use beegfs_rust.Db.Misc.{member}
use beegfs_rust.Quota.Exceeded.{
  Limits, same_key, joined_rows, sum_of, find_limit, find_default, limit_of, exceeds, sums_fit,
  has_key, exceeding, exceeded_keys, empty_messages, exceeded_messages,
}
use beegfs_rust.Quota.Tables.{Usage, Limit, DefaultLimit, id_variant, quota_variant}
use beegfs_rust.Quota.Pushed.{key_of, is_exceeded}
use beegfs_rust.Quota.Pushed.Fill.{add_all, empty_messages-Apart, fill_lem}
use beegfs_rust.Quota.Pushed.Messages.{HasExceeded, filled, emptied, emptied_lem}

-- What a message and an id stand for: the values of the rows that are about them.
module _ (m : SetExceededQuota) (id : ℕ) where
  abbrev in_pool : Option Target → Bool
  in_pool none = false
  in_pool (some t) = elim t.pool_id as (λ x. Bool) [ none ↦ false | some p ↦ p == m.pool_id ]

  -- The usage of the id on the targets of the pool.
  abbrev pub used : List Target → List Usage → List ℕ
  used targets [] = []
  used targets (u ∷ us) =
      if id == u.quota_id
        && (id_variant m.id_type == id_variant u.id_type
            && (quota_variant m.quota_type == quota_variant u.quota_type
                && in_pool (find_target NodeTypeServer.storage u.target_id targets)))
      then u.value ∷ used targets us
      else used targets us

  abbrev pub own_limits : List Limit → List ℕ
  own_limits [] = []
  own_limits (l ∷ ls) =
      if id == l.quota_id
        && (id_variant m.id_type == id_variant l.id_type
            && (quota_variant m.quota_type == quota_variant l.quota_type && m.pool_id == l.pool_id))
      then l.value ∷ own_limits ls
      else own_limits ls

  abbrev pub default_limits : List DefaultLimit → List ℕ
  default_limits [] = []
  default_limits (d ∷ ds) =
      if id_variant m.id_type == id_variant d.id_type
        && (quota_variant m.quota_type == quota_variant d.quota_type && m.pool_id == d.pool_id)
      then d.value ∷ default_limits ds
      else default_limits ds

abbrev pub total : List ℕ → ℕ
total [] = 0
total (v ∷ vs) = v + total vs

-- Over a limit: the first list has the own limits, the second one the default limits, one at most by the
-- keys of the tables. Without usage, or without a limit of either kind, nothing is over it.
abbrev pub over : List ℕ → List ℕ → List ℕ → Bool
over [] own default = false
over (v ∷ vs) (l ∷ own) default = ltb l (total (v ∷ vs))
over (v ∷ vs) [] (l ∷ default) = ltb l (total (v ∷ vs))
over (v ∷ vs) [] [] = false

abbrev pub first_of : List ℕ → Option ℕ
first_of [] = none
first_of (v ∷ vs) = some v

abbrev pub is_empty : List ℕ → Bool
is_empty [] = true
is_empty (v ∷ vs) = false

module _ (m : SetExceededQuota) (id : ℕ) where
  own_limits_lem : (ls : List Limit) → find_limit (key_of id m) ls ≡ first_of (own_limits m id ls)
  unfolding find_limit
  own_limits_lem [] = refl
  own_limits_lem (l ∷ ls) = ground (arith, own_limits_lem ls)

  default_limits_lem :
      (ds : List DefaultLimit) → find_default (key_of id m) ds ≡ first_of (default_limits m id ds)
  unfolding find_default
  default_limits_lem [] = refl
  default_limits_lem (d ∷ ds) = ground (arith, default_limits_lem ds)

  row_lem :
      (u : Usage) (t : Target)
      → same_key
          (record {
            quota_id = u.quota_id;
            id_type = u.id_type;
            quota_type = u.quota_type;
            pool_id = t.pool_id;
          })
          (key_of id m)
        ≡ (id == u.quota_id
            && (id_variant m.id_type == id_variant u.id_type
                && (quota_variant m.quota_type == quota_variant u.quota_type
                    && in_pool m id (some t))))
  row_lem u t = elim (Option-cases t.pool_id) [
    | inl q ↦ ground (arith, q)
    | inr (pool, q) ↦ ground (arith, q)
  ]

  total_if :
      (b : Bool) (v : ℕ) (vs : List ℕ) {n : ℕ}
      → n ≡ total vs
      → (if b then v + n else n) ≡ total (if b then v ∷ vs else vs)
  total_if true v vs e = ap (λ x. v + x) e
  total_if false v vs e = e

  used_sum :
      (targets : List Target) (us : List Usage)
      → sum_of (key_of id m) (joined_rows targets us) ≡ total (used m id targets us)
  unfolding sum_of joined_rows
  used_sum targets [] = refl
  used_sum targets (u ∷ us) =
      elim (Option-cases (find_target NodeTypeServer.storage u.target_id targets)) [
        | inl p ↦
            let away : (id == u.quota_id
                  && (id_variant m.id_type == id_variant u.id_type
                      && (quota_variant m.quota_type == quota_variant u.quota_type && false)))
                ≡ false =
              ground arith in
            rw (joined_rows, p, away) (used_sum targets us)
        | inr (t, p) ↦
            rw (joined_rows, sum_of, p, row_lem u t)
              (total_if _ u.value (used m id targets us) (used_sum targets us))
      ]

  used_rows :
      (targets : List Target) (us : List Usage)
      → has_key (key_of id m) (joined_rows targets us) ≡ not (is_empty (used m id targets us))
  unfolding has_key joined_rows
  used_rows targets [] = refl
  used_rows targets (u ∷ us) =
      elim (Option-cases (find_target NodeTypeServer.storage u.target_id targets)) [
        | inl p ↦ ground (arith, p, used_rows targets us)
        | inr (t, p) ↦ elim (Option-cases t.pool_id) [
          | inl q ↦ ground (arith, p, q, used_rows targets us)
          | inr (pool, q) ↦ ground (arith, p, q, used_rows targets us)
        ]
      ]

  over_lem :
      (targets : List Target) (us : List Usage) (ls : Limits)
      → is_exceeded ls (joined_rows targets us) (key_of id m)
        ≡ over (used m id targets us) (own_limits m id ls.limits) (default_limits m id ls.defaults)
  unfolding exceeds limit_of
  over_lem targets us ls = ground (
    arith,
    used_rows targets us,
    used_sum targets us,
    own_limits_lem ls.limits,
    default_limits_lem ls.defaults,
  )

-- The ids of a message are those over a limit.
abbrev pub HasIdsOver : List Target → List Usage → Limits → SetExceededQuota → Type 0
HasIdsOver targets usages ls m =
    (id : ℕ)
    → member id m.exceeded_quota_ids
      ≡ over (used m id targets usages) (own_limits m id ls.limits)
          (default_limits m id ls.defaults)

all_over :
    (targets : List Target) (usages : List Usage) (ls : Limits) (ms : List SetExceededQuota)
    → All (HasExceeded ls (joined_rows targets usages)) ms
    → All (HasIdsOver targets usages ls) ms
all_over targets usages ls [] h = tt
all_over targets usages ls (m ∷ ms) h =
    (λ id. h.0 id ∙ over_lem m id targets usages ls, all_over targets usages ls ms h.1)

-- When no sum of usage leaves the range of 64 bits and pool ids differ, the messages are one for each pool,
-- type of id and type of quota, in the order of the loops, and each message has an id exactly if the id has
-- rows of usage on targets of the pool and their total is over the limit of the id, or, where it has none of
-- its own, over the default limit.
pub exceeded_messages-HasIdsOver :
    (pools : List ℕ) (targets : List Target) (usages : List Usage) (ls : Limits)
    → Distinct pools
    → sums_fit (joined_rows targets usages) (joined_rows targets usages) ≡ true
    → (msges : List SetExceededQuota) × ((exceeded_messages true pools targets usages ls ≡ ok msges)
        × ((map emptied msges ≡ empty_messages pools) × All (HasIdsOver targets usages ls) msges))
unfolding exceeded_messages exceeded_keys
exceeded_messages-HasIdsOver pools targets usages ls d fits =
    let rows = joined_rows targets usages in
    let keys = exceeding ls rows rows in
    let msges : List SetExceededQuota = map (add_all keys) (empty_messages pools) in
    let whole = fill_lem keys (empty_messages pools) (empty_messages-Apart pools d) in
    (
      msges,
      (
        ground (arith, fits, whole),
        (emptied_lem keys pools, all_over targets usages ls msges (filled ls rows pools)),
      ),
    )
