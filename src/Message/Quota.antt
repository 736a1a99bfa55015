-- ===== src/Message/Quota.antt =====
-- Messages on quota (shared/src/bee_msg/quota.rs): their fields in their order, by
-- the formats that the derive macro is told to use (bee_serde_derive/src/lib.rs).
pub mod Sound
use beegfs_rust.Prelude.{ℕ, ◌^◌, ◌<◌, true, false, List, [], ◌∷◌, length}
use beegfs_rust.Types.{
  NodeType, node_type, NicType, nic_type, TargetConsistencyState, target_consistency_state,
  TargetReachabilityState, target_reachability_state, BuddyResyncJobState, buddy_resync_job_state,
  QuotaIdType, quota_id_type, QuotaType, quota_type, QuotaInodeSupport, quota_inode_support,
  CapacityPoolQueryType, capacity_pool_query_type,
}
use beegfs_rust.Serde.Serializer.{◌⨾◌, done}
use beegfs_rust.Serde.Deserializer.{◌>>=◌, pure}
use beegfs_rust.Serde.Format.{
  Format, MessageType, put, get, u8, u16, u32, u64, i32, i64, int, cstr, seq, map, uint,
}

pub record QuotaEntry : Type 0 where
  pub space : ℕ
  pub inodes : ℕ
  pub id : ℕ
  pub id_type : QuotaIdType
  pub valid : ℕ

unfoldable pub quota_entry : Format QuotaEntry
quota_entry = record {
  serialize = λ m.
      put u64 m.space
      ⨾ put u64 m.inodes
      ⨾ put u32 m.id
      ⨾ put (int 4 quota_id_type) m.id_type
      ⨾ put u8 m.valid
      ⨾ done;
  deserialize = (do
    space ← get u64
    inodes ← get u64
    id ← get u32
    id_type ← get (int 4 quota_id_type)
    valid ← get u8
    pure (record { space = space; inodes = inodes; id = id; id_type = id_type; valid = valid }));
}

pub record GetQuotaInfoResp : Type 0 where
  pub quota_inode_support : QuotaInodeSupport
  pub quota_entry : List QuotaEntry

unfoldable pub get_quota_info_resp : MessageType GetQuotaInfoResp
get_quota_info_resp = record {
  id = 2098;
  format = record {
    serialize = λ m.
        put (int 4 quota_inode_support) m.quota_inode_support
        ⨾ put (seq false quota_entry) m.quota_entry
        ⨾ done;
    deserialize = (do
      quota_inode_support ← get (int 4 quota_inode_support)
      quota_entry ← get (seq false quota_entry)
      pure (record { quota_inode_support = quota_inode_support; quota_entry = quota_entry }));
  };
}

pub record SetExceededQuota : Type 0 where
  pub pool_id : ℕ
  pub id_type : QuotaIdType
  pub quota_type : QuotaType
  pub exceeded_quota_ids : List ℕ

unfoldable pub set_exceeded_quota : MessageType SetExceededQuota
set_exceeded_quota = record {
  id = 2077;
  format = record {
    serialize = λ m.
        put u16 m.pool_id
        ⨾ put (int 4 quota_id_type) m.id_type
        ⨾ put (int 4 quota_type) m.quota_type
        ⨾ put (seq true u32) m.exceeded_quota_ids
        ⨾ done;
    deserialize = (do
      pool_id ← get u16
      id_type ← get (int 4 quota_id_type)
      quota_type ← get (int 4 quota_type)
      exceeded_quota_ids ← get (seq true u32)
      pure (record {
        pool_id = pool_id;
        id_type = id_type;
        quota_type = quota_type;
        exceeded_quota_ids = exceeded_quota_ids;
      }));
  };
}

pub record SetExceededQuotaResp : Type 0 where
  pub result : ℕ

unfoldable pub set_exceeded_quota_resp : MessageType SetExceededQuotaResp
set_exceeded_quota_resp = record {
  id = 2078;
  format = record {
    serialize = λ m. put i32 m.result ⨾ done;
    deserialize = (do result ← get i32; pure (record { result = result }));
  };
}

pub record RequestExceededQuota : Type 0 where
  pub id_type : QuotaIdType
  pub quota_type : QuotaType
  pub pool_id : ℕ
  pub target_id : ℕ

unfoldable pub request_exceeded_quota : MessageType RequestExceededQuota
request_exceeded_quota = record {
  id = 2079;
  format = record {
    serialize = λ m.
        put (int 4 quota_id_type) m.id_type
        ⨾ put (int 4 quota_type) m.quota_type
        ⨾ put u16 m.pool_id
        ⨾ put u16 m.target_id
        ⨾ done;
    deserialize = (do
      id_type ← get (int 4 quota_id_type)
      quota_type ← get (int 4 quota_type)
      pool_id ← get u16
      target_id ← get u16
      pure (record {
        id_type = id_type;
        quota_type = quota_type;
        pool_id = pool_id;
        target_id = target_id;
      }));
  };
}

pub record RequestExceededQuotaResp : Type 0 where
  pub inner : SetExceededQuota
  pub result : ℕ

unfoldable pub request_exceeded_quota_resp : MessageType RequestExceededQuotaResp
request_exceeded_quota_resp = record {
  id = 2080;
  format = record {
    serialize = λ m. put set_exceeded_quota.format m.inner ⨾ put i32 m.result ⨾ done;
    deserialize = (do
      inner ← get set_exceeded_quota.format
      result ← get i32
      pure (record { inner = inner; result = result }));
  };
}
