-- ===== src/Message/Nodes.antt =====
-- Messages on nodes (shared/src/bee_msg/node.rs): their fields in their order, by
-- the formats that the derive macro is told to use (bee_serde_derive/src/lib.rs).
pub mod Sound
use beegfs_rust.Prelude.{ℕ, ◌^◌, ◌<◌, true, false, List, [], ◌∷◌, length}
use beegfs_rust.Types.{
  NodeType, node_type, NicType, nic_type, TargetConsistencyState, target_consistency_state,
  TargetReachabilityState, target_reachability_state, BuddyResyncJobState, buddy_resync_job_state,
  QuotaIdType, quota_id_type, QuotaType, quota_type, QuotaInodeSupport, quota_inode_support,
  CapacityPoolQueryType, capacity_pool_query_type,
}
use beegfs_rust.Serde.Serializer.{◌⨾◌, done}
use beegfs_rust.Serde.Deserializer.{◌>>=◌, pure}
use beegfs_rust.Serde.Format.{
  Format, MessageType, put, get, u8, u16, u32, u64, i32, i64, int, cstr, seq, map, uint,
}
use beegfs_rust.Message.Nics.{Nic, nic}

pub record GetNodes : Type 0 where
  pub node_type : NodeType

unfoldable pub get_nodes : MessageType GetNodes
get_nodes = record {
  id = 1017;
  format = record {
    serialize = λ m. put (int 4 node_type) m.node_type ⨾ done;
    deserialize = (do node_type ← get (int 4 node_type); pure (record { node_type = node_type }));
  };
}

pub record Node : Type 0 where
  pub alias : List ℕ
  pub nic_list : List Nic
  pub num_id : ℕ
  pub port : ℕ
  pub unused_tcp_port : ℕ
  pub node_type : NodeType

unfoldable pub node : Format Node
node = record {
  serialize = λ m.
      put (cstr 0) m.alias
      ⨾ put (seq true nic) m.nic_list
      ⨾ put u32 m.num_id
      ⨾ put u16 m.port
      ⨾ put u16 m.unused_tcp_port
      ⨾ put (int 1 node_type) m.node_type
      ⨾ done;
  deserialize = (do
    alias ← get (cstr 0)
    nic_list ← get (seq true nic)
    num_id ← get u32
    port ← get u16
    unused_tcp_port ← get u16
    node_type ← get (int 1 node_type)
    pure (record {
      alias = alias;
      nic_list = nic_list;
      num_id = num_id;
      port = port;
      unused_tcp_port = unused_tcp_port;
      node_type = node_type;
    }));
}

pub record GetNodesResp : Type 0 where
  pub nodes : List Node
  pub root_num_id : ℕ
  pub is_root_mirrored : ℕ

unfoldable pub get_nodes_resp : MessageType GetNodesResp
get_nodes_resp = record {
  id = 1018;
  format = record {
    serialize = λ m.
        put (seq false node) m.nodes ⨾ put u32 m.root_num_id ⨾ put u8 m.is_root_mirrored ⨾ done;
    deserialize = (do
      nodes ← get (seq false node)
      root_num_id ← get u32
      is_root_mirrored ← get u8
      pure (record {
        nodes = nodes;
        root_num_id = root_num_id;
        is_root_mirrored = is_root_mirrored;
      }));
  };
}

pub data HeartbeatRequest : Type 0 where
  heartbeat_request_empty : HeartbeatRequest

unfoldable pub heartbeat_request : MessageType HeartbeatRequest
heartbeat_request = record {
  id = 1019;
  format = record { serialize = λ m. done; deserialize = pure heartbeat_request_empty };
}

pub record Heartbeat : Type 0 where
  pub instance_version : ℕ
  pub nic_list_version : ℕ
  pub node_type : NodeType
  pub node_alias : List ℕ
  pub ack_id : List ℕ
  pub node_num_id : ℕ
  pub root_num_id : ℕ
  pub is_root_mirrored : ℕ
  pub port : ℕ
  pub port_tcp_unused : ℕ
  pub nic_list : List Nic
  pub machine_uuid : List ℕ

unfoldable pub heartbeat : MessageType Heartbeat
heartbeat = record {
  id = 1020;
  format = record {
    serialize = λ m.
        put u64 m.instance_version
        ⨾ put u64 m.nic_list_version
        ⨾ put (int 4 node_type) m.node_type
        ⨾ put (cstr 0) m.node_alias
        ⨾ put (cstr 4) m.ack_id
        ⨾ put u32 m.node_num_id
        ⨾ put u32 m.root_num_id
        ⨾ put u8 m.is_root_mirrored
        ⨾ put u16 m.port
        ⨾ put u16 m.port_tcp_unused
        ⨾ put (seq true nic) m.nic_list
        ⨾ put (cstr 0) m.machine_uuid
        ⨾ done;
    deserialize = (do
      instance_version ← get u64
      nic_list_version ← get u64
      node_type ← get (int 4 node_type)
      node_alias ← get (cstr 0)
      ack_id ← get (cstr 4)
      node_num_id ← get u32
      root_num_id ← get u32
      is_root_mirrored ← get u8
      port ← get u16
      port_tcp_unused ← get u16
      nic_list ← get (seq true nic)
      machine_uuid ← get (cstr 0)
      pure (record {
        instance_version = instance_version;
        nic_list_version = nic_list_version;
        node_type = node_type;
        node_alias = node_alias;
        ack_id = ack_id;
        node_num_id = node_num_id;
        root_num_id = root_num_id;
        is_root_mirrored = is_root_mirrored;
        port = port;
        port_tcp_unused = port_tcp_unused;
        nic_list = nic_list;
        machine_uuid = machine_uuid;
      }));
  };
}

pub record RegisterNode : Type 0 where
  pub instance_version : ℕ
  pub nic_list_version : ℕ
  pub node_alias : List ℕ
  pub nics : List Nic
  pub node_type : NodeType
  pub node_id : ℕ
  pub root_num_id : ℕ
  pub is_root_mirrored : ℕ
  pub port : ℕ
  pub port_tcp_unused : ℕ
  pub machine_uuid : List ℕ

unfoldable pub register_node : MessageType RegisterNode
register_node = record {
  id = 1039;
  format = record {
    serialize = λ m.
        put u64 m.instance_version
        ⨾ put u64 m.nic_list_version
        ⨾ put (cstr 0) m.node_alias
        ⨾ put (seq true nic) m.nics
        ⨾ put (int 4 node_type) m.node_type
        ⨾ put u32 m.node_id
        ⨾ put u32 m.root_num_id
        ⨾ put u8 m.is_root_mirrored
        ⨾ put u16 m.port
        ⨾ put u16 m.port_tcp_unused
        ⨾ put (cstr 0) m.machine_uuid
        ⨾ done;
    deserialize = (do
      instance_version ← get u64
      nic_list_version ← get u64
      node_alias ← get (cstr 0)
      nics ← get (seq true nic)
      node_type ← get (int 4 node_type)
      node_id ← get u32
      root_num_id ← get u32
      is_root_mirrored ← get u8
      port ← get u16
      port_tcp_unused ← get u16
      machine_uuid ← get (cstr 0)
      pure (record {
        instance_version = instance_version;
        nic_list_version = nic_list_version;
        node_alias = node_alias;
        nics = nics;
        node_type = node_type;
        node_id = node_id;
        root_num_id = root_num_id;
        is_root_mirrored = is_root_mirrored;
        port = port;
        port_tcp_unused = port_tcp_unused;
        machine_uuid = machine_uuid;
      }));
  };
}

pub record RegisterNodeResp : Type 0 where
  pub node_num_id : ℕ
  pub grpc_port : ℕ
  pub fs_uuid : List ℕ

unfoldable pub register_node_resp : MessageType RegisterNodeResp
register_node_resp = record {
  id = 1040;
  format = record {
    serialize = λ m. put u32 m.node_num_id ⨾ put u16 m.grpc_port ⨾ put (cstr 0) m.fs_uuid ⨾ done;
    deserialize = (do
      node_num_id ← get u32
      grpc_port ← get u16
      fs_uuid ← get (cstr 0)
      pure (record { node_num_id = node_num_id; grpc_port = grpc_port; fs_uuid = fs_uuid }));
  };
}

pub record RemoveNode : Type 0 where
  pub node_type : NodeType
  pub node_id : ℕ
  pub ack_id : List ℕ

unfoldable pub remove_node : MessageType RemoveNode
remove_node = record {
  id = 1013;
  format = record {
    serialize =
        λ m. put (int 2 node_type) m.node_type ⨾ put u32 m.node_id ⨾ put (cstr 0) m.ack_id ⨾ done;
    deserialize = (do
      node_type ← get (int 2 node_type)
      node_id ← get u32
      ack_id ← get (cstr 0)
      pure (record { node_type = node_type; node_id = node_id; ack_id = ack_id }));
  };
}

pub record RemoveNodeResp : Type 0 where
  pub result : ℕ

unfoldable pub remove_node_resp : MessageType RemoveNodeResp
remove_node_resp = record {
  id = 1014;
  format = record {
    serialize = λ m. put i32 m.result ⨾ done;
    deserialize = (do result ← get i32; pure (record { result = result }));
  };
}
