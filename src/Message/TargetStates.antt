-- ===== src/Message/TargetStates.antt =====
-- Messages on the states of targets (shared/src/bee_msg/target.rs): their fields in their order, by
-- the formats that the derive macro is told to use (bee_serde_derive/src/lib.rs).
pub mod Sound
use beegfs_rust.Prelude.{ℕ, ◌^◌, ◌<◌, true, false, List, [], ◌∷◌, length}
use beegfs_rust.Types.{
  NodeType, node_type, NicType, nic_type, TargetConsistencyState, target_consistency_state,
  TargetReachabilityState, target_reachability_state, BuddyResyncJobState, buddy_resync_job_state,
  QuotaIdType, quota_id_type, QuotaType, quota_type, QuotaInodeSupport, quota_inode_support,
  CapacityPoolQueryType, capacity_pool_query_type,
}
use beegfs_rust.Serde.Serializer.{◌⨾◌, done}
use beegfs_rust.Serde.Deserializer.{◌>>=◌, pure}
use beegfs_rust.Serde.Format.{
  Format, MessageType, put, get, u8, u16, u32, u64, i32, i64, int, cstr, seq, map, uint,
}

pub record GetTargetStates : Type 0 where
  pub node_type : NodeType

unfoldable pub get_target_states : MessageType GetTargetStates
get_target_states = record {
  id = 1049;
  format = record {
    serialize = λ m. put (int 4 node_type) m.node_type ⨾ done;
    deserialize = (do node_type ← get (int 4 node_type); pure (record { node_type = node_type }));
  };
}

pub record GetTargetStatesResp : Type 0 where
  pub targets : List ℕ
  pub reachability_states : List TargetReachabilityState
  pub consistency_states : List TargetConsistencyState

unfoldable pub get_target_states_resp : MessageType GetTargetStatesResp
get_target_states_resp = record {
  id = 1050;
  format = record {
    serialize = λ m.
        put (seq true u16) m.targets
        ⨾ put (seq true (int 1 target_reachability_state)) m.reachability_states
        ⨾ put (seq true (int 1 target_consistency_state)) m.consistency_states
        ⨾ done;
    deserialize = (do
      targets ← get (seq true u16)
      reachability_states ← get (seq true (int 1 target_reachability_state))
      consistency_states ← get (seq true (int 1 target_consistency_state))
      pure (record {
        targets = targets;
        reachability_states = reachability_states;
        consistency_states = consistency_states;
      }));
  };
}

pub record ChangeTargetConsistencyStates : Type 0 where
  pub node_type : NodeType
  pub target_ids : List ℕ
  pub old_states : List TargetConsistencyState
  pub new_states : List TargetConsistencyState
  pub ack_id : List ℕ

unfoldable pub change_target_consistency_states : MessageType ChangeTargetConsistencyStates
change_target_consistency_states = record {
  id = 1057;
  format = record {
    serialize = λ m.
        put (int 4 node_type) m.node_type
        ⨾ put (seq true u16) m.target_ids
        ⨾ put (seq true (int 1 target_consistency_state)) m.old_states
        ⨾ put (seq true (int 1 target_consistency_state)) m.new_states
        ⨾ put (cstr 4) m.ack_id
        ⨾ done;
    deserialize = (do
      node_type ← get (int 4 node_type)
      target_ids ← get (seq true u16)
      old_states ← get (seq true (int 1 target_consistency_state))
      new_states ← get (seq true (int 1 target_consistency_state))
      ack_id ← get (cstr 4)
      pure (record {
        node_type = node_type;
        target_ids = target_ids;
        old_states = old_states;
        new_states = new_states;
        ack_id = ack_id;
      }));
  };
}

pub record ChangeTargetConsistencyStatesResp : Type 0 where
  pub result : ℕ

unfoldable pub change_target_consistency_states_resp : MessageType ChangeTargetConsistencyStatesResp
change_target_consistency_states_resp = record {
  id = 1058;
  format = record {
    serialize = λ m. put i32 m.result ⨾ done;
    deserialize = (do result ← get i32; pure (record { result = result }));
  };
}

pub record SetTargetConsistencyStates : Type 0 where
  pub node_type : NodeType
  pub target_ids : List ℕ
  pub states : List TargetConsistencyState
  pub ack_id : List ℕ
  pub set_online : ℕ

unfoldable pub set_target_consistency_states : MessageType SetTargetConsistencyStates
set_target_consistency_states = record {
  id = 1055;
  format = record {
    serialize = λ m.
        put (int 4 node_type) m.node_type
        ⨾ put (seq true u16) m.target_ids
        ⨾ put (seq true (int 1 target_consistency_state)) m.states
        ⨾ put (cstr 4) m.ack_id
        ⨾ put u8 m.set_online
        ⨾ done;
    deserialize = (do
      node_type ← get (int 4 node_type)
      target_ids ← get (seq true u16)
      states ← get (seq true (int 1 target_consistency_state))
      ack_id ← get (cstr 4)
      set_online ← get u8
      pure (record {
        node_type = node_type;
        target_ids = target_ids;
        states = states;
        ack_id = ack_id;
        set_online = set_online;
      }));
  };
}

pub record SetTargetConsistencyStatesResp : Type 0 where
  pub result : ℕ

unfoldable pub set_target_consistency_states_resp : MessageType SetTargetConsistencyStatesResp
set_target_consistency_states_resp = record {
  id = 1056;
  format = record {
    serialize = λ m. put i32 m.result ⨾ done;
    deserialize = (do result ← get i32; pure (record { result = result }));
  };
}

pub record RefreshTargetStates : Type 0 where
  pub ack_id : List ℕ

unfoldable pub refresh_target_states : MessageType RefreshTargetStates
refresh_target_states = record {
  id = 1051;
  format = record {
    serialize = λ m. put (cstr 0) m.ack_id ⨾ done;
    deserialize = (do ack_id ← get (cstr 0); pure (record { ack_id = ack_id }));
  };
}
