-- ===== src/Message/Resync.antt =====
-- Messages on the resync of buddies (shared/src/bee_msg/buddy_group.rs): their fields in their order, by
-- the formats that the derive macro is told to use (bee_serde_derive/src/lib.rs).
pub mod Sound
use beegfs_rust.Prelude.{ℕ, ◌^◌, ◌<◌, true, false, List, [], ◌∷◌, length}
use beegfs_rust.Types.{
  NodeType, node_type, NicType, nic_type, TargetConsistencyState, target_consistency_state,
  TargetReachabilityState, target_reachability_state, BuddyResyncJobState, buddy_resync_job_state,
  QuotaIdType, quota_id_type, QuotaType, quota_type, QuotaInodeSupport, quota_inode_support,
  CapacityPoolQueryType, capacity_pool_query_type,
}
use beegfs_rust.Serde.Serializer.{◌⨾◌, done}
use beegfs_rust.Serde.Deserializer.{◌>>=◌, pure}
use beegfs_rust.Serde.Format.{
  Format, MessageType, put, get, u8, u16, u32, u64, i32, i64, int, cstr, seq, map, uint,
}

pub record SetLastBuddyCommOverride : Type 0 where
  pub target_id : ℕ
  pub timestamp : ℕ
  pub abort_resync : ℕ

unfoldable pub set_last_buddy_comm_override : MessageType SetLastBuddyCommOverride
set_last_buddy_comm_override = record {
  id = 2095;
  format = record {
    serialize = λ m. put u16 m.target_id ⨾ put i64 m.timestamp ⨾ put u8 m.abort_resync ⨾ done;
    deserialize = (do
      target_id ← get u16
      timestamp ← get i64
      abort_resync ← get u8
      pure (record { target_id = target_id; timestamp = timestamp; abort_resync = abort_resync }));
  };
}

pub record SetLastBuddyCommOverrideResp : Type 0 where
  pub result : ℕ

unfoldable pub set_last_buddy_comm_override_resp : MessageType SetLastBuddyCommOverrideResp
set_last_buddy_comm_override_resp = record {
  id = 2096;
  format = record {
    serialize = λ m. put i32 m.result ⨾ done;
    deserialize = (do result ← get i32; pure (record { result = result }));
  };
}

pub record GetStorageResyncStats : Type 0 where
  pub target_id : ℕ

unfoldable pub get_storage_resync_stats : MessageType GetStorageResyncStats
get_storage_resync_stats = record {
  id = 2093;
  format = record {
    serialize = λ m. put u16 m.target_id ⨾ done;
    deserialize = (do target_id ← get u16; pure (record { target_id = target_id }));
  };
}

pub record GetStorageResyncStatsResp : Type 0 where
  pub state : BuddyResyncJobState
  pub start_time : ℕ
  pub end_time : ℕ
  pub discovered_files : ℕ
  pub discovered_dirs : ℕ
  pub matched_files : ℕ
  pub matched_dirs : ℕ
  pub synced_files : ℕ
  pub synced_dirs : ℕ
  pub error_files : ℕ
  pub error_dirs : ℕ

unfoldable pub get_storage_resync_stats_resp : MessageType GetStorageResyncStatsResp
get_storage_resync_stats_resp = record {
  id = 2094;
  format = record {
    serialize = λ m.
        put (int 4 buddy_resync_job_state) m.state
        ⨾ put i64 m.start_time
        ⨾ put i64 m.end_time
        ⨾ put u64 m.discovered_files
        ⨾ put u64 m.discovered_dirs
        ⨾ put u64 m.matched_files
        ⨾ put u64 m.matched_dirs
        ⨾ put u64 m.synced_files
        ⨾ put u64 m.synced_dirs
        ⨾ put u64 m.error_files
        ⨾ put u64 m.error_dirs
        ⨾ done;
    deserialize = (do
      state ← get (int 4 buddy_resync_job_state)
      start_time ← get i64
      end_time ← get i64
      discovered_files ← get u64
      discovered_dirs ← get u64
      matched_files ← get u64
      matched_dirs ← get u64
      synced_files ← get u64
      synced_dirs ← get u64
      error_files ← get u64
      error_dirs ← get u64
      pure (record {
        state = state;
        start_time = start_time;
        end_time = end_time;
        discovered_files = discovered_files;
        discovered_dirs = discovered_dirs;
        matched_files = matched_files;
        matched_dirs = matched_dirs;
        synced_files = synced_files;
        synced_dirs = synced_dirs;
        error_files = error_files;
        error_dirs = error_dirs;
      }));
  };
}

pub record GetMetaResyncStats : Type 0 where
  pub target_id : ℕ

unfoldable pub get_meta_resync_stats : MessageType GetMetaResyncStats
get_meta_resync_stats = record {
  id = 2117;
  format = record {
    serialize = λ m. put u16 m.target_id ⨾ done;
    deserialize = (do target_id ← get u16; pure (record { target_id = target_id }));
  };
}

pub record GetMetaResyncStatsResp : Type 0 where
  pub state : BuddyResyncJobState
  pub start_time : ℕ
  pub end_time : ℕ
  pub discovered_dirs : ℕ
  pub gather_errors : ℕ
  pub synced_dirs : ℕ
  pub synced_files : ℕ
  pub error_dirs : ℕ
  pub error_files : ℕ
  pub sessions_to_sync : ℕ
  pub synced_sessions : ℕ
  pub session_sync_errors : ℕ
  pub mod_objects_synced : ℕ
  pub mod_sync_errors : ℕ

unfoldable pub get_meta_resync_stats_resp : MessageType GetMetaResyncStatsResp
get_meta_resync_stats_resp = record {
  id = 2118;
  format = record {
    serialize = λ m.
        put (int 4 buddy_resync_job_state) m.state
        ⨾ put i64 m.start_time
        ⨾ put i64 m.end_time
        ⨾ put u64 m.discovered_dirs
        ⨾ put u64 m.gather_errors
        ⨾ put u64 m.synced_dirs
        ⨾ put u64 m.synced_files
        ⨾ put u64 m.error_dirs
        ⨾ put u64 m.error_files
        ⨾ put u64 m.sessions_to_sync
        ⨾ put u64 m.synced_sessions
        ⨾ put u8 m.session_sync_errors
        ⨾ put u64 m.mod_objects_synced
        ⨾ put u64 m.mod_sync_errors
        ⨾ done;
    deserialize = (do
      state ← get (int 4 buddy_resync_job_state)
      start_time ← get i64
      end_time ← get i64
      discovered_dirs ← get u64
      gather_errors ← get u64
      synced_dirs ← get u64
      synced_files ← get u64
      error_dirs ← get u64
      error_files ← get u64
      sessions_to_sync ← get u64
      synced_sessions ← get u64
      session_sync_errors ← get u8
      mod_objects_synced ← get u64
      mod_sync_errors ← get u64
      pure (record {
        state = state;
        start_time = start_time;
        end_time = end_time;
        discovered_dirs = discovered_dirs;
        gather_errors = gather_errors;
        synced_dirs = synced_dirs;
        synced_files = synced_files;
        error_dirs = error_dirs;
        error_files = error_files;
        sessions_to_sync = sessions_to_sync;
        synced_sessions = synced_sessions;
        session_sync_errors = session_sync_errors;
        mod_objects_synced = mod_objects_synced;
        mod_sync_errors = mod_sync_errors;
      }));
  };
}
