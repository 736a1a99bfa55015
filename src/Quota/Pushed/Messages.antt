-- ===== src/Quota/Pushed/Messages.antt =====
-- The messages of `distribute_exceeded` (mgmtd/src/quota.rs), and the answers to `RequestExceededQuota`
-- (mgmtd/src/bee_msg/request_exceeded_quota.rs) compared with them.
use beegfs_rust.Prelude.{
  ℕ, ◌==◌, true, false, List, [], ◌∷◌, map, All, ◌≡◌, refl, sym, ◌∙◌, subst, arith,
}
use beegfs_rust.Result.{ok}
use beegfs_rust.Types.{QuotaIdType, QuotaType}
use beegfs_rust.Message.Quota.{SetExceededQuota, RequestExceededQuota}
use beegfs_rust.Db.Tables.{Target}
use beegfs_rust.Db.Target.Ids.{Distinct}
use beegfs_rust.Db.Misc.{member}
use beegfs_rust.Quota.Exceeded.{
  GroupKey, Limits, joined_rows, sums_fit, exceeding, exceeded_keys, empty_messages,
  exceeded_messages, request_exceeded, selected_rows,
}
use beegfs_rust.Quota.Tables.{Usage}
use beegfs_rust.Quota.Pushed.{
  key_of, is_exceeded, listed-exceeding, member-ids_for, requested_lem, sums_fit-selected,
}
use beegfs_rust.Quota.Pushed.Fill.{add_all, empty_messages-Apart, fill_lem}

-- What holds of the ids of every message that was filled.
module _ (ls : Limits) (rows : List (GroupKey × ℕ)) where
  abbrev pub HasExceeded : SetExceededQuota → Type 0
  HasExceeded m = (id : ℕ) → member id m.exceeded_quota_ids ≡ is_exceeded ls rows (key_of id m)

  pub filled :
      (pools : List ℕ)
      → All HasExceeded (map (add_all (exceeding ls rows rows)) (empty_messages pools))
  unfolding empty_messages
  filled [] = tt
  filled (p ∷ pools) = (
    holds p QuotaIdType.user QuotaType.space,
    (
      holds p QuotaIdType.user QuotaType.inode,
      (
        holds p QuotaIdType.group QuotaType.space,
        (holds p QuotaIdType.group QuotaType.inode, filled pools),
      ),
    ),
  )
    where
      holds :
          (p : ℕ) (t : QuotaIdType) (q : QuotaType)
          → HasExceeded (
              add_all
                (exceeding ls rows rows)
                (record { pool_id = p; id_type = t; quota_type = q; exceeded_quota_ids = [] }))
      holds p t q id =
          member-ids_for
            (record { pool_id = p; id_type = t; quota_type = q; exceeded_quota_ids = [] }) id
            (exceeding ls rows rows)
          ∙ listed-exceeding ls rows
              (key_of id
                (record { pool_id = p; id_type = t; quota_type = q; exceeded_quota_ids = [] }))
              rows

abbrev pub emptied : SetExceededQuota → SetExceededQuota
emptied m = record m { exceeded_quota_ids = [] }

pub emptied_lem :
    (ks : List GroupKey) (pools : List ℕ)
    → map emptied (map (add_all ks) (empty_messages pools)) ≡ empty_messages pools
unfolding empty_messages
emptied_lem ks [] = refl
emptied_lem ks (p ∷ pools) = cc (emptied_lem ks pools)

-- A server that asks for a combination of pool and types is answered.
answered :
    (self : RequestExceededQuota) (targets : List Target) (usages : List Usage) (ls : Limits)
    → (self.pool_id == 0) ≡ false
    → sums_fit (joined_rows targets usages) (joined_rows targets usages) ≡ true
    → (resp : SetExceededQuota) × ((request_exceeded self targets usages ls ≡ ok resp)
        × ((id : ℕ)
            → member id resp.exceeded_quota_ids
              ≡ is_exceeded ls (joined_rows targets usages) (
                  key_of id (record {
                    pool_id = self.pool_id;
                    id_type = self.id_type;
                    quota_type = self.quota_type;
                    exceeded_quota_ids = [];
                  }))))
unfolding request_exceeded exceeded_keys
answered self targets usages ls z fits =
    let m : SetExceededQuota = record {
      pool_id = self.pool_id;
      id_type = self.id_type;
      quota_type = self.quota_type;
      exceeded_quota_ids = [];
    } in
    let rows = joined_rows targets usages in
    let own = selected_rows self.id_type self.quota_type self.pool_id rows in
    (
      record m { exceeded_quota_ids = map (λ k. k.quota_id) (exceeding ls own own) },
      (ground (arith, z, sums_fit-selected m rows rows fits), requested_lem m ls rows),
    )

-- The answer to a request for the combination of a message, whatever target it names.
abbrev pub AnsweredAlike : List Target → List Usage → Limits → SetExceededQuota → Type 0
AnsweredAlike targets usages ls m =
    (target_id : ℕ)
    → (resp : SetExceededQuota) × ((request_exceeded
            (record {
              id_type = m.id_type;
              quota_type = m.quota_type;
              pool_id = m.pool_id;
              target_id = target_id;
            })
            targets usages ls
          ≡ ok resp)
        × ((id : ℕ) → member id resp.exceeded_quota_ids ≡ member id m.exceeded_quota_ids))

module _ (targets : List Target) (usages : List Usage) (ls : Limits)
    (fits : sums_fit (joined_rows targets usages) (joined_rows targets usages) ≡ true) where
  nonzero :
      (ks : List GroupKey) (pools : List ℕ)
      → All (λ p. (p == 0) ≡ false) pools
      → All (λ m. (m.pool_id == 0) ≡ false) (map (add_all ks) (empty_messages pools))
  unfolding empty_messages
  nonzero ks [] h = tt
  nonzero ks (p ∷ pools) h = (h.0, (h.0, (h.0, (h.0, nonzero ks pools h.1))))

  alike :
      (ms : List SetExceededQuota)
      → All (λ m. (m.pool_id == 0) ≡ false) ms
      → All (HasExceeded ls (joined_rows targets usages)) ms
      → All (AnsweredAlike targets usages ls) ms
  alike [] z h = tt
  alike (m ∷ ms) z h = (
    λ target_id.
        let (resp, (e, ids)) =
          answered
            (record {
              id_type = m.id_type;
              quota_type = m.quota_type;
              pool_id = m.pool_id;
              target_id = target_id;
            })
            targets usages ls z.0 fits in
        (resp, (e, λ id. ids id ∙ sym (h.0 id))),
    alike ms z.1 h.1,
  )

-- A server that requests the exceeded ids of a pool and types gets the same ids as are pushed to all
-- servers for them: with pools whose ids differ and are not zero and sums in the range of 64 bits, for every
-- pushed message the request is answered, and an id is in the answer exactly if it is in the message.
pub exceeded_messages-request_exceeded :
    (pools : List ℕ) (targets : List Target) (usages : List Usage) (ls : Limits)
    {msges : List SetExceededQuota}
    → Distinct pools
    → All (λ p. (p == 0) ≡ false) pools
    → sums_fit (joined_rows targets usages) (joined_rows targets usages) ≡ true
    → exceeded_messages true pools targets usages ls ≡ ok msges
    → All (AnsweredAlike targets usages ls) msges
unfolding exceeded_messages exceeded_keys
exceeded_messages-request_exceeded pools targets usages ls {msges = msges} d z fits e =
    let rows = joined_rows targets usages in
    let keys = exceeding ls rows rows in
    let whole = fill_lem keys (empty_messages pools) (empty_messages-Apart pools d) in
    let same : map (add_all keys) (empty_messages pools) ≡ msges = ground (arith, e, fits, whole) in
    subst (All (AnsweredAlike targets usages ls)) same (
      alike targets usages ls fits (map (add_all keys) (empty_messages pools))
        (nonzero targets usages ls fits keys pools z) (filled ls rows pools))
