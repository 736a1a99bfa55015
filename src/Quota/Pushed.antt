-- ===== src/Quota/Pushed.antt =====
-- Which ids `distribute_exceeded` (mgmtd/src/quota.rs) puts into its messages, and which ids the handler
-- of `RequestExceededQuota` (mgmtd/src/bee_msg/request_exceeded_quota.rs) answers.
pub mod Messages
pub mod Fill
pub mod OverLimit
use beegfs_rust.Prelude.{
  ℕ, zero, suc, ◌+◌, ◌^◌, leb, ltb, ◌==◌, ◌&&◌, ◌||◌, not, if◌then◌else◌, Bool, true, false, Option,
  none, some, List, [], ◌∷◌, ◌++◌, map, All, ◌≡◌, refl, sym, ap, ◌∙◌, subst, arith, Bool-cases, inl,
  inr,
}
use beegfs_rust.Types.{QuotaIdType, QuotaType}
use beegfs_rust.Message.Quota.{SetExceededQuota}
use beegfs_rust.Db.Misc.{member}
use beegfs_rust.Quota.Exceeded.{
  GroupKey, Limits, equal_pools, same_key, sum_of, limit_of, exceeds, sums_fit, has_key, exceeding,
  belongs, selected_rows,
}
use beegfs_rust.Quota.Tables.{id_variant, quota_variant}

id_type_eq : (a b : QuotaIdType) → (id_variant a == id_variant b) ≡ true → a ≡ b
id_type_eq QuotaIdType.user QuotaIdType.user e = refl
id_type_eq QuotaIdType.group QuotaIdType.group e = refl
id_type_eq QuotaIdType.user QuotaIdType.group e = absurd (ground arith)
id_type_eq QuotaIdType.group QuotaIdType.user e = absurd (ground arith)

quota_type_eq : (a b : QuotaType) → (quota_variant a == quota_variant b) ≡ true → a ≡ b
quota_type_eq QuotaType.space QuotaType.space e = refl
quota_type_eq QuotaType.inode QuotaType.inode e = refl
quota_type_eq QuotaType.space QuotaType.inode e = absurd (ground arith)
quota_type_eq QuotaType.inode QuotaType.space e = absurd (ground arith)

pool_eq : (a b : Option ℕ) → equal_pools a b ≡ true → a ≡ b
pool_eq none none e = refl
pool_eq (some p) (some q) e = ap some (ground (arith, e))
pool_eq none (some q) e = absurd (ground (arith, e))
pool_eq (some p) none e = absurd (ground (arith, e))

key_eq : (a b : GroupKey) → same_key a b ≡ true → a ≡ b
key_eq a b e =
    let i : a.quota_id ≡ b.quota_id = ground (arith, e) in
    let t = id_type_eq a.id_type b.id_type (ground (arith, e)) in
    let q = quota_type_eq a.quota_type b.quota_type (ground (arith, e)) in
    let p = pool_eq a.pool_id b.pool_id (ground (arith, e)) in cc (i, t, q, p)

-- The key of an id in the combination of a message.
abbrev pub key_of : ℕ → SetExceededQuota → GroupKey
key_of id m = record {
  quota_id = id;
  id_type = m.id_type;
  quota_type = m.quota_type;
  pool_id = some m.pool_id;
}

-- The description: the id has usage in the pool, and the sum of it is over the limit.
abbrev pub is_exceeded : Limits → List (GroupKey × ℕ) → GroupKey → Bool
is_exceeded ls rows k = has_key k rows && exceeds ls rows k

abbrev pub listed : GroupKey → List GroupKey → Bool
listed k [] = false
listed k (x ∷ ks) = same_key x k || listed k ks

module _ (ls : Limits) (all : List (GroupKey × ℕ)) where
  pub listed-exceeding :
      (k : GroupKey) (rows : List (GroupKey × ℕ))
      → listed k (exceeding ls all rows) ≡ (has_key k rows && exceeds ls all k)
  unfolding exceeding has_key
  listed-exceeding k [] = refl
  listed-exceeding k (r ∷ rows) = elim (Bool-cases (same_key r.0 k)) [
    | inl p ↦
        let same = key_eq r.0 k p in
        ground (
          arith,
          p,
          listed-exceeding k rows,
          ap (λ x. has_key x rows) same,
          ap (λ x. exceeds ls all x) same,
        )
    | inr p ↦ ground (arith, p, listed-exceeding k rows)
  ]

-- What belongs to a message, and its key, agree.
belongs_key :
    (m : SetExceededQuota) (id : ℕ) (k : GroupKey)
    → same_key k (key_of id m) ≡ (k.quota_id == id && belongs k m)
belongs_key m id k = ground arith

module _ (m : SetExceededQuota) where
  -- The ids of the keys that belong to the message.
  abbrev pub ids_for : List GroupKey → List ℕ
  ids_for [] = []
  ids_for (k ∷ ks) = if belongs k m then k.quota_id ∷ ids_for ks else ids_for ks

  pub member-ids_for :
      (id : ℕ) (ks : List GroupKey) → member id (ids_for ks) ≡ listed (key_of id m) ks
  unfolding member
  member-ids_for id [] = refl
  member-ids_for id (k ∷ ks) = ground (arith, belongs_key m id k, member-ids_for id ks)

  -- The rows of the request keep all that its keys need.
  abbrev selected : List (GroupKey × ℕ) → List (GroupKey × ℕ)
  selected = selected_rows m.id_type m.quota_type m.pool_id

  has_key-selected :
      (id : ℕ) (rows : List (GroupKey × ℕ))
      → has_key (key_of id m) (selected rows) ≡ has_key (key_of id m) rows
  unfolding has_key selected_rows
  has_key-selected id [] = refl
  has_key-selected id (r ∷ rows) = ground (arith, belongs_key m id r.0, has_key-selected id rows)

  sum_of-selected :
      (id : ℕ) (rows : List (GroupKey × ℕ))
      → sum_of (key_of id m) (selected rows) ≡ sum_of (key_of id m) rows
  unfolding sum_of selected_rows
  sum_of-selected id [] = refl
  sum_of-selected id (r ∷ rows) = ground (arith, belongs_key m id r.0, sum_of-selected id rows)

  exceeds-selected :
      (ls : Limits) (id : ℕ) (rows : List (GroupKey × ℕ))
      → exceeds ls (selected rows) (key_of id m) ≡ exceeds ls rows (key_of id m)
  unfolding exceeds
  exceeds-selected ls id rows =
      ap (λ n. elim (limit_of (key_of id m) ls) as (λ x. Bool) [ none ↦ false | some l ↦ ltb l n ])
        (sum_of-selected id rows)

  -- All keys that are found belong to the message, so the ids say it all.
  Belong : List (GroupKey × ℕ) → Type 0
  Belong rows = All (λ r. belongs r.0 m ≡ true) rows

  selected-Belong : (rows : List (GroupKey × ℕ)) → Belong (selected rows)
  unfolding selected_rows Belong
  selected-Belong [] = tt
  selected-Belong (r ∷ rows) = elim (Bool-cases (belongs r.0 m)) [
    | inl p ↦ rw p (p, selected-Belong rows)
    | inr p ↦ rw p (selected-Belong rows)
  ]

  exceeding-Belong :
      (ls : Limits) (all rows : List (GroupKey × ℕ))
      → Belong rows
      → All (λ k. belongs k m ≡ true) (exceeding ls all rows)
  unfolding exceeding Belong
  exceeding-Belong ls all [] h = tt
  exceeding-Belong ls all (r ∷ rows) h =
      elim (Bool-cases (not (has_key r.0 rows) && exceeds ls all r.0)) [
        | inl p ↦ rw p (h.0, exceeding-Belong ls all rows h.1)
        | inr p ↦ rw p (exceeding-Belong ls all rows h.1)
      ]

  member-map :
      (id : ℕ) (ks : List GroupKey)
      → All (λ k. belongs k m ≡ true) ks
      → member id (map (λ k. k.quota_id) ks) ≡ listed (key_of id m) ks
  unfolding member
  member-map id [] h = refl
  member-map id (k ∷ ks) h = ground (arith, belongs_key m id k, h.0, member-map id ks h.1)

  -- The ids that the request finds.
  pub requested_lem :
      (ls : Limits) (rows : List (GroupKey × ℕ)) (id : ℕ)
      → member id (map (λ k. k.quota_id) (exceeding ls (selected rows) (selected rows)))
        ≡ is_exceeded ls rows (key_of id m)
  requested_lem ls rows id =
      rw
        (
          member-map id (exceeding ls (selected rows) (selected rows))
              (exceeding-Belong ls (selected rows) (selected rows) (selected-Belong rows)),
          listed-exceeding ls (selected rows) (key_of id m) (selected rows),
          has_key-selected id rows,
          exceeds-selected ls id rows,
        )
        refl

  -- The sums of the request are among those of all rows.
  pub sums_fit-selected :
      (all rows : List (GroupKey × ℕ))
      → sums_fit all rows ≡ true
      → sums_fit (selected all) (selected rows) ≡ true
  unfolding sums_fit selected_rows
  sums_fit-selected all [] h = refl
  sums_fit-selected all (r ∷ rows) h = elim (Bool-cases (belongs r.0 m)) [
    | inl p ↦
        let own : r.0 ≡ key_of r.0.quota_id m =
          key_eq r.0 (key_of r.0.quota_id m) (ground (arith, belongs_key m r.0.quota_id r.0, p)) in
        let same : sum_of r.0 (selected all) ≡ sum_of r.0 all =
          subst (λ k. sum_of k (selected all) ≡ sum_of k all) (sym own)
            (sum_of-selected r.0.quota_id all) in
        rw p (ground (arith, h, same, sums_fit-selected all rows))
    | inr p ↦ rw p (ground (arith, h, sums_fit-selected all rows))
  ]
