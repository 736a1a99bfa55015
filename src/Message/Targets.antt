-- ===== src/Message/Targets.antt =====
-- Messages that register, map and describe targets (shared/src/bee_msg/target.rs): their fields in their order, by
-- the formats that the derive macro is told to use (bee_serde_derive/src/lib.rs).
pub mod Sound
use beegfs_rust.Prelude.{ℕ, ◌^◌, ◌<◌, true, false, List, [], ◌∷◌, length}
use beegfs_rust.Types.{
  NodeType, node_type, NicType, nic_type, TargetConsistencyState, target_consistency_state,
  TargetReachabilityState, target_reachability_state, BuddyResyncJobState, buddy_resync_job_state,
  QuotaIdType, quota_id_type, QuotaType, quota_type, QuotaInodeSupport, quota_inode_support,
  CapacityPoolQueryType, capacity_pool_query_type,
}
use beegfs_rust.Serde.Serializer.{◌⨾◌, done}
use beegfs_rust.Serde.Deserializer.{◌>>=◌, pure}
use beegfs_rust.Serde.Format.{
  Format, MessageType, put, get, u8, u16, u32, u64, i32, i64, int, cstr, seq, map, uint,
}

pub data GetTargetMappings : Type 0 where
  get_target_mappings_empty : GetTargetMappings

unfoldable pub get_target_mappings : MessageType GetTargetMappings
get_target_mappings = record {
  id = 1025;
  format = record { serialize = λ m. done; deserialize = pure get_target_mappings_empty };
}

pub record RegisterTarget : Type 0 where
  pub reg_token : List ℕ
  pub target_id : ℕ

unfoldable pub register_target : MessageType RegisterTarget
register_target = record {
  id = 1041;
  format = record {
    serialize = λ m. put (cstr 0) m.reg_token ⨾ put u16 m.target_id ⨾ done;
    deserialize = (do
      reg_token ← get (cstr 0)
      target_id ← get u16
      pure (record { reg_token = reg_token; target_id = target_id }));
  };
}

pub record RegisterTargetResp : Type 0 where
  pub id : ℕ

unfoldable pub register_target_resp : MessageType RegisterTargetResp
register_target_resp = record {
  id = 1042;
  format = record {
    serialize = λ m. put u16 m.id ⨾ done;
    deserialize = (do id ← get u16; pure (record { id = id }));
  };
}

pub record MapTargets : Type 0 where
  pub target_ids : List (ℕ × ℕ)
  pub node_id : ℕ
  pub ack_id : List ℕ

unfoldable pub map_targets : MessageType MapTargets
map_targets = record {
  id = 1023;
  format = record {
    serialize = λ m.
        put (map false u16 u16) m.target_ids ⨾ put u32 m.node_id ⨾ put (cstr 0) m.ack_id ⨾ done;
    deserialize = (do
      target_ids ← get (map false u16 u16)
      node_id ← get u32
      ack_id ← get (cstr 0)
      pure (record { target_ids = target_ids; node_id = node_id; ack_id = ack_id }));
  };
}

pub record MapTargetsResp : Type 0 where
  pub results : List (ℕ × ℕ)

unfoldable pub map_targets_resp : MessageType MapTargetsResp
map_targets_resp = record {
  id = 1024;
  format = record {
    serialize = λ m. put (map false u16 i32) m.results ⨾ done;
    deserialize = (do results ← get (map false u16 i32); pure (record { results = results }));
  };
}

pub record TargetInfo : Type 0 where
  pub target_id : ℕ
  pub path : List ℕ
  pub total_space : ℕ
  pub free_space : ℕ
  pub total_inodes : ℕ
  pub free_inodes : ℕ
  pub consistency_state : TargetConsistencyState

unfoldable pub target_info : Format TargetInfo
target_info = record {
  serialize = λ m.
      put u16 m.target_id
      ⨾ put (cstr 4) m.path
      ⨾ put i64 m.total_space
      ⨾ put i64 m.free_space
      ⨾ put i64 m.total_inodes
      ⨾ put i64 m.free_inodes
      ⨾ put (int 1 target_consistency_state) m.consistency_state
      ⨾ done;
  deserialize = (do
    target_id ← get u16
    path ← get (cstr 4)
    total_space ← get i64
    free_space ← get i64
    total_inodes ← get i64
    free_inodes ← get i64
    consistency_state ← get (int 1 target_consistency_state)
    pure (record {
      target_id = target_id;
      path = path;
      total_space = total_space;
      free_space = free_space;
      total_inodes = total_inodes;
      free_inodes = free_inodes;
      consistency_state = consistency_state;
    }));
}

pub record SetStorageTargetInfo : Type 0 where
  pub node_type : NodeType
  pub info : List TargetInfo

unfoldable pub set_storage_target_info : MessageType SetStorageTargetInfo
set_storage_target_info = record {
  id = 2099;
  format = record {
    serialize = λ m. put (int 4 node_type) m.node_type ⨾ put (seq false target_info) m.info ⨾ done;
    deserialize = (do
      node_type ← get (int 4 node_type)
      info ← get (seq false target_info)
      pure (record { node_type = node_type; info = info }));
  };
}

pub record SetStorageTargetInfoResp : Type 0 where
  pub result : ℕ

unfoldable pub set_storage_target_info_resp : MessageType SetStorageTargetInfoResp
set_storage_target_info_resp = record {
  id = 2100;
  format = record {
    serialize = λ m. put i32 m.result ⨾ done;
    deserialize = (do result ← get i32; pure (record { result = result }));
  };
}
