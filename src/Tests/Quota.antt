-- ===== src/Tests/Quota.antt =====
-- Quota runs (mgmtd/src/quota.rs): the ids 20 and 21 use two targets of the pool 1.
use beegfs_rust.Prelude.{ℕ, true, List, [], ◌∷◌, ◌++◌, All, map, ◌≡◌, refl, arith}
use beegfs_rust.Result.{ok}
use beegfs_rust.Types.{QuotaIdType, QuotaType}
use beegfs_rust.Message.Quota.{QuotaEntry, SetExceededQuota}
use beegfs_rust.Db.Tables.{Target, find_target}
use beegfs_rust.Db.Store.{has_target}
use beegfs_rust.Db.Misc.{member}
use beegfs_rust.Quota.Exceeded.{
  Limits, joined_rows, sum_of, find_limit, find_default, limit_of, exceeds, sums_fit, has_key,
  exceeding, exceeded_keys, empty_messages, push_id, fill, exceeded_messages,
}
use beegfs_rust.Quota.Tables.{
  Usage, without_usage, has_usage, insert_usage, insert_entries, update_usage, usage_of,
}
use beegfs_rust.Quota.Update.{reported_rows, rows_of, update_usage-reported_rows}
use beegfs_rust.Quota.Pushed.Messages.{AnsweredAlike, emptied, exceeded_messages-request_exceeded}
use beegfs_rust.Quota.Pushed.OverLimit.{HasIdsOver, exceeded_messages-HasIdsOver}
use beegfs_rust.Tests.Db.{target_with}

abbrev quota_targets : List Target
quota_targets = target_with 1 0 ∷ target_with 2 0 ∷ []

abbrev entry : ℕ → ℕ → ℕ → QuotaEntry
entry id space inodes = record {
  space = space;
  inodes = inodes;
  id = id;
  id_type = QuotaIdType.user;
  valid = 1;
}

abbrev space_of : ℕ → ℕ → ℕ → Usage
space_of target id value = usage_of target QuotaType.space value (entry id value 0)

-- Of the target 1, the id 9 is no longer reported.
abbrev before : List Usage
before = space_of 1 9 7 ∷ space_of 2 20 60 ∷ []

abbrev after : List Usage
after = space_of 2 20 60 ∷ space_of 1 20 50 ∷ space_of 1 21 5 ∷ []

update_usage-reported_rows_example :
    (rows_of 1 after ≡ reported_rows 1 (entry 20 50 0 ∷ entry 21 5 0 ∷ [] ++ []))
    × (rows_of 2 after ≡ rows_of 2 before)
unfolding update_usage insert_entries insert_usage has_usage has_target without_usage
update_usage-reported_rows_example =
    update_usage-reported_rows quota_targets 1 2 (entry 20 50 0 ∷ entry 21 5 0 ∷ []) [] before
      {us' = after} (ground arith) refl

-- A limit of its own for the id 20, which its two targets exceed together, and a default that 21 keeps.
abbrev limits : Limits
limits = record {
  limits =
      record {
        quota_id = 20;
        id_type = QuotaIdType.user;
        quota_type = QuotaType.space;
        pool_id = 1;
        value = 100;
      }
      ∷ [];
  defaults =
      record { id_type = QuotaIdType.user; quota_type = QuotaType.space; pool_id = 1; value = 10 }
      ∷ [];
}

abbrev pushed : List SetExceededQuota
unfolding exceeded_messages
pushed = elim (exceeded_messages true (1 ∷ []) quota_targets after limits) [
  | ok msges ↦ msges
  | _ ↦ []
]

pushed_to_users : map (λ m. m.exceeded_quota_ids) pushed ≡ (20 ∷ []) ∷ [] ∷ [] ∷ [] ∷ []
unfolding exceeded_messages exceeded_keys exceeding exceeds limit_of find_limit find_default sum_of
    sums_fit has_key joined_rows find_target empty_messages push_id fill
pushed_to_users = refl

exceeded_messages-HasIdsOver_example :
    (msges : List SetExceededQuota) × ((exceeded_messages true (1 ∷ []) quota_targets after limits
        ≡ ok msges)
      × ((map emptied msges ≡ empty_messages (1 ∷ []))
          × All (HasIdsOver quota_targets after limits) msges))
unfolding member sums_fit sum_of joined_rows find_target
exceeded_messages-HasIdsOver_example =
    exceeded_messages-HasIdsOver (1 ∷ []) quota_targets after limits (refl, tt) refl

exceeded_messages-request_exceeded_example : All (AnsweredAlike quota_targets after limits) pushed
unfolding member exceeded_messages exceeded_keys exceeding exceeds limit_of find_limit find_default
    sum_of sums_fit has_key joined_rows find_target empty_messages push_id fill
exceeded_messages-request_exceeded_example =
    exceeded_messages-request_exceeded (1 ∷ []) quota_targets after limits {msges = pushed}
      (refl, tt) (refl, tt) refl refl
