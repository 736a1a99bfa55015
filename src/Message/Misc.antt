-- ===== src/Message/Misc.antt =====
-- Messages of general use (shared/src/bee_msg/misc.rs): their fields in their order, by
-- the formats that the derive macro is told to use (bee_serde_derive/src/lib.rs).
pub mod Sound
use beegfs_rust.Prelude.{ℕ, ◌^◌, ◌<◌, true, false, List, [], ◌∷◌, length}
use beegfs_rust.Types.{
  NodeType, node_type, NicType, nic_type, TargetConsistencyState, target_consistency_state,
  TargetReachabilityState, target_reachability_state, BuddyResyncJobState, buddy_resync_job_state,
  QuotaIdType, quota_id_type, QuotaType, quota_type, QuotaInodeSupport, quota_inode_support,
  CapacityPoolQueryType, capacity_pool_query_type,
}
use beegfs_rust.Serde.Serializer.{◌⨾◌, done}
use beegfs_rust.Serde.Deserializer.{◌>>=◌, pure}
use beegfs_rust.Serde.Format.{
  Format, MessageType, put, get, u8, u16, u32, u64, i32, i64, int, cstr, seq, map, uint,
}

pub record GenericResponse : Type 0 where
  pub code : ℕ
  pub description : List ℕ

unfoldable pub generic_response : MessageType GenericResponse
generic_response = record {
  id = 4009;
  format = record {
    serialize = λ m. put i32 m.code ⨾ put (cstr 0) m.description ⨾ done;
    deserialize = (do
      code ← get i32
      description ← get (cstr 0)
      pure (record { code = code; description = description }));
  };
}

pub record Ack : Type 0 where
  pub ack_id : List ℕ

unfoldable pub ack : MessageType Ack
ack = record {
  id = 4003;
  format = record {
    serialize = λ m. put (cstr 0) m.ack_id ⨾ done;
    deserialize = (do ack_id ← get (cstr 0); pure (record { ack_id = ack_id }));
  };
}

pub record AuthenticateChannel : Type 0 where
  pub auth_secret : ℕ

unfoldable pub authenticate_channel : MessageType AuthenticateChannel
authenticate_channel = record {
  id = 4007;
  format = record {
    serialize = λ m. put u64 m.auth_secret ⨾ done;
    deserialize = (do auth_secret ← get u64; pure (record { auth_secret = auth_secret }));
  };
}

pub record PeerInfo : Type 0 where
  pub node_type : NodeType
  pub node_id : ℕ

unfoldable pub peer_info : MessageType PeerInfo
peer_info = record {
  id = 4011;
  format = record {
    serialize = λ m. put (int 4 node_type) m.node_type ⨾ put u32 m.node_id ⨾ done;
    deserialize = (do
      node_type ← get (int 4 node_type)
      node_id ← get u32
      pure (record { node_type = node_type; node_id = node_id }));
  };
}

pub record SetChannelDirect : Type 0 where
  pub is_direct : ℕ

unfoldable pub set_channel_direct : MessageType SetChannelDirect
set_channel_direct = record {
  id = 4001;
  format = record {
    serialize = λ m. put i32 m.is_direct ⨾ done;
    deserialize = (do is_direct ← get i32; pure (record { is_direct = is_direct }));
  };
}

pub record RefreshCapacityPools : Type 0 where
  pub ack_id : List ℕ

unfoldable pub refresh_capacity_pools : MessageType RefreshCapacityPools
refresh_capacity_pools = record {
  id = 1035;
  format = record {
    serialize = λ m. put (cstr 0) m.ack_id ⨾ done;
    deserialize = (do ack_id ← get (cstr 0); pure (record { ack_id = ack_id }));
  };
}

pub record GetNodeCapacityPools : Type 0 where
  pub query_type : CapacityPoolQueryType

unfoldable pub get_node_capacity_pools : MessageType GetNodeCapacityPools
get_node_capacity_pools = record {
  id = 1021;
  format = record {
    serialize = λ m. put (int 4 capacity_pool_query_type) m.query_type ⨾ done;
    deserialize = (do
      query_type ← get (int 4 capacity_pool_query_type)
      pure (record { query_type = query_type }));
  };
}
