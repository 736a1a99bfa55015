-- ===== src/Quota/Pushed/Fill.antt =====
-- The loop of `distribute_exceeded` (mgmtd/src/quota.rs) that fills the messages.
use beegfs_rust.Prelude.{
  ℕ, ◌==◌, ◌&&◌, if◌then◌else◌, Bool, true, false, List, [], ◌∷◌, ◌++◌, map, All, append_assoc, ◌≡◌,
  refl, sym, ap, ◌∙◌, arith, Bool-cases, Option-cases, inl, inr, append-nil,
}
use beegfs_rust.Types.{QuotaIdType, QuotaType}
use beegfs_rust.Message.Quota.{SetExceededQuota}
use beegfs_rust.Db.Target.Ids.{Distinct}
use beegfs_rust.Db.Misc.{member}
use beegfs_rust.Quota.Exceeded.{GroupKey, belongs, empty_messages, push_id, fill}
use beegfs_rust.Quota.Tables.{id_variant, quota_variant}
use beegfs_rust.Quota.Pushed.{ids_for}

abbrev pub same_target : SetExceededQuota → SetExceededQuota → Bool
same_target m n =
    m.pool_id == n.pool_id
    && (id_variant m.id_type == id_variant n.id_type
        && quota_variant m.quota_type == quota_variant n.quota_type)

-- No two messages of one combination.
abbrev pub Apart : List SetExceededQuota → Type 0
Apart [] = Unit {0}
Apart (m ∷ ms) = All (λ n. same_target m n ≡ false) ms × Apart ms

abbrev pub add : GroupKey → SetExceededQuota → SetExceededQuota
add k m =
    if belongs k m
    then record m { exceeded_quota_ids = m.exceeded_quota_ids ++ (k.quota_id ∷ []) }
    else m

abbrev pub add_all : List GroupKey → SetExceededQuota → SetExceededQuota
add_all ks m = record m { exceeded_quota_ids = m.exceeded_quota_ids ++ ids_for m ks }

pub unpushed :
    (k : GroupKey) (m : SetExceededQuota) (ms : List SetExceededQuota)
    → belongs k m ≡ true
    → All (λ n. same_target m n ≡ false) ms
    → map (add k) ms ≡ ms
unpushed k m [] b h = refl
unpushed k m (n ∷ ms) b h =
    let not_here : belongs k n ≡ false = elim (Option-cases k.pool_id) [
      | inl p ↦ absurd (ground (arith, b, p))
      | inr (q, p) ↦ ground (arith, b, p, h.0)
    ] in
    rw not_here (ap (λ x. n ∷ x) (unpushed k m ms b h.1))

pub push_id_lem :
    (k : GroupKey) (ms : List SetExceededQuota) → Apart ms → push_id k ms ≡ map (add k) ms
unfolding push_id
push_id_lem k [] a = refl
push_id_lem k (m ∷ ms) a = elim (Bool-cases (belongs k m)) [
  | inl p ↦ rw p (
      ap (λ x. record m { exceeded_quota_ids = m.exceeded_quota_ids ++ (k.quota_id ∷ []) } ∷ x)
        (sym (unpushed k m ms p a.0)))
  | inr p ↦ rw p (ap (λ x. m ∷ x) (push_id_lem k ms a.1))
]

pub apart_added :
    (k : GroupKey) (m : SetExceededQuota) (ms : List SetExceededQuota)
    → All (λ n. same_target m n ≡ false) ms
    → All (λ n. same_target (add k m) n ≡ false) (map (add k) ms)
apart_added k m [] h = tt
apart_added k m (n ∷ ms) h = (ground (arith, h.0), apart_added k m ms h.1)

pub Apart-added : (k : GroupKey) (ms : List SetExceededQuota) → Apart ms → Apart (map (add k) ms)
Apart-added k [] a = tt
Apart-added k (m ∷ ms) a = (apart_added k m ms a.0, Apart-added k ms a.1)

pub ids_kept :
    (m : SetExceededQuota) (ids : List ℕ) (ks : List GroupKey)
    → ids_for (record m { exceeded_quota_ids = ids }) ks ≡ ids_for m ks
ids_kept m ids [] = refl
ids_kept m ids (k ∷ ks) = ground (arith, ids_kept m ids ks)

pub add_step :
    (k : GroupKey) (ks : List GroupKey) (m : SetExceededQuota)
    → add_all ks (add k m) ≡ add_all (k ∷ ks) m
add_step k ks m = elim (Bool-cases (belongs k m)) [
  | inl p ↦ rw p (
      ap (λ ids. record m { exceeded_quota_ids = ids })
        (rw (ids_kept m (m.exceeded_quota_ids ++ (k.quota_id ∷ [])) ks)
          (append_assoc m.exceeded_quota_ids (k.quota_id ∷ []) (ids_for m ks))))
  | inr p ↦ rw p refl
]

pub add_steps :
    (k : GroupKey) (ks : List GroupKey) (ms : List SetExceededQuota)
    → map (add_all ks) (map (add k) ms) ≡ map (add_all (k ∷ ks)) ms
add_steps k ks [] = refl
add_steps k ks (m ∷ ms) = cc (add_step k ks m, add_steps k ks ms)

pub add_none : (ms : List SetExceededQuota) → map (add_all []) ms ≡ ms
add_none [] = refl
add_none (m ∷ ms) = rw (append-nil m.exceeded_quota_ids) (ap (λ x. m ∷ x) (add_none ms))

pub fill_lem :
    (ks : List GroupKey) (ms : List SetExceededQuota) → Apart ms → fill ks ms ≡ map (add_all ks) ms
unfolding fill
fill_lem [] ms a = sym (add_none ms)
fill_lem (k ∷ ks) ms a =
    rw (push_id_lem k ms a) (fill_lem ks (map (add k) ms) (Apart-added k ms a) ∙ add_steps k ks ms)

-- The empty messages of different pools.
pub apart_pools :
    (m : SetExceededQuota) (pools : List ℕ)
    → member m.pool_id pools ≡ false
    → All (λ n. same_target m n ≡ false) (empty_messages pools)
unfolding empty_messages member
apart_pools m [] h = tt
apart_pools m (p ∷ pools) h = (
  ground (arith, h),
  (
    ground (arith, h),
    (ground (arith, h), (ground (arith, h), apart_pools m pools (ground (arith, h)))),
  ),
)

pub empty_messages-Apart : (pools : List ℕ) → Distinct pools → Apart (empty_messages pools)
unfolding empty_messages
empty_messages-Apart [] d = tt
empty_messages-Apart (p ∷ pools) d =
    let message : QuotaIdType → QuotaType → SetExceededQuota =
      λ t q. record { pool_id = p; id_type = t; quota_type = q; exceeded_quota_ids = [] } in
    let later = λ (t : QuotaIdType). λ (q : QuotaType). apart_pools (message t q) pools d.0 in
    (
      (ground arith, (ground arith, (ground arith, later QuotaIdType.user QuotaType.space))),
      (
        (ground arith, (ground arith, later QuotaIdType.user QuotaType.inode)),
        (
          (ground arith, later QuotaIdType.group QuotaType.space),
          (later QuotaIdType.group QuotaType.inode, empty_messages-Apart pools d.1),
        ),
      ),
    )
