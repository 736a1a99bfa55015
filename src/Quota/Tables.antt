-- ===== src/Quota/Tables.antt =====
-- The tables of quota usage and limits, and the rows that `fetch_and_update` (mgmtd/src/quota.rs) writes.
use beegfs_rust.Prelude.{
  ℕ, ◌^◌, ltb, ◌==◌, ◌&&◌, ◌||◌, not, if◌then◌else◌, Bool, false, List, [], ◌∷◌, ◌++◌,
}
use beegfs_rust.Result.{Result, ok, out_of_range, constraint, ◌>>=◌, ◌>>◌, ensure}
use beegfs_rust.Types.{NodeTypeServer, QuotaIdType, QuotaType}
use beegfs_rust.Message.Quota.{QuotaEntry}
use beegfs_rust.Db.Tables.{Target}
use beegfs_rust.Db.Store.{has_target}

-- `sql_variant`
abbrev pub id_variant : QuotaIdType → ℕ
id_variant QuotaIdType.user = 1
id_variant QuotaIdType.group = 2

abbrev pub quota_variant : QuotaType → ℕ
quota_variant QuotaType.space = 1
quota_variant QuotaType.inode = 2

-- Rows of `quota_usage`, `quota_limits` and `quota_default_limits`.
pub record Usage : Type 0 where
  pub quota_id : ℕ
  pub id_type : QuotaIdType
  pub quota_type : QuotaType
  pub target_id : ℕ
  pub value : ℕ

pub record Limit : Type 0 where
  pub quota_id : ℕ
  pub id_type : QuotaIdType
  pub quota_type : QuotaType
  pub pool_id : ℕ
  pub value : ℕ

pub record DefaultLimit : Type 0 where
  pub id_type : QuotaIdType
  pub quota_type : QuotaType
  pub pool_id : ℕ
  pub value : ℕ

-- DELETE and INSERT, with the checks of the key and of the foreign key; a `u64` beyond `i64` is no
-- parameter.
unfoldable pub without_usage : ℕ → List Usage → List Usage
without_usage target_id [] = []
without_usage target_id (u ∷ us) =
    let rest = without_usage target_id us in if u.target_id == target_id then rest else u ∷ rest

unfoldable pub has_usage : Usage → List Usage → Bool
has_usage n [] = false
has_usage n (u ∷ us) =
    (u.quota_id == n.quota_id
      && (id_variant u.id_type == id_variant n.id_type
          && (quota_variant u.quota_type == quota_variant n.quota_type
              && u.target_id == n.target_id)))
    || has_usage n us

unfoldable pub insert_usage : List Target → Usage → List Usage → Result (List Usage)
unfolding has_usage has_target
insert_usage targets n us = do
  ensure (ltb n.value (2 ^ 63)) out_of_range
  ensure (not (has_usage n us)) constraint
  ensure (has_target NodeTypeServer.storage n.target_id targets) constraint
  ok (us ++ (n ∷ []))

abbrev pub usage_of : ℕ → QuotaType → ℕ → QuotaEntry → Usage
usage_of target_id quota_type value e = record {
  quota_id = e.id;
  id_type = e.id_type;
  quota_type = quota_type;
  target_id = target_id;
  value = value;
}

unfoldable pub insert_entries : List Target → ℕ → List QuotaEntry → List Usage → Result (List Usage)
unfolding insert_usage
insert_entries targets target_id [] us = ok us
insert_entries targets target_id (e ∷ entries) us = do
  us1 ←
      (if ltb 0 e.space
        then insert_usage targets (usage_of target_id QuotaType.space e.space e) us
        else ok us)
  us2 ←
      (if ltb 0 e.inodes
        then insert_usage targets (usage_of target_id QuotaType.inode e.inodes e) us1
        else ok us1)
  insert_entries targets target_id entries us2

-- The answers of one target: an error for users or for groups leaves its rows alone.
unfoldable pub update_usage :
    List Target
    → ℕ
    → Result (List QuotaEntry)
    → Result (List QuotaEntry)
    → List Usage
    → Result (List Usage)
unfolding without_usage insert_entries
update_usage targets target_id (ok u) (ok g) us =
    insert_entries targets target_id (u ++ g) (without_usage target_id us)
update_usage targets target_id _ _ us = ok us
