-- ===== src/Message/Nodes/Sound.antt =====
-- Messages on nodes (shared/src/bee_msg/node.rs) come back if their fields
-- are in the range of their types.
use beegfs_rust.Prelude.{◌^◌, ◌<◌, true, length}
use beegfs_rust.Types.{node_type}
use beegfs_rust.Types.Laws.{node_type-IsWireEnum}
use beegfs_rust.Serde.Format.Sound.{
  Sound, Sound-uint, Sound-cstr, Sound-int, PlainFits, Sound-plain,
}
use beegfs_rust.Serde.RoundTrip.{RoundTrips-bind, RoundTrips-done}
use beegfs_rust.Message.Nics.Sound.{NicsFit, nics-Sound}
use beegfs_rust.Message.Nodes.{
  GetNodes, get_nodes, Node, node, GetNodesResp, get_nodes_resp, HeartbeatRequest,
  heartbeat_request, Heartbeat, heartbeat, RegisterNode, register_node, RegisterNodeResp,
  register_node_resp, RemoveNode, remove_node, RemoveNodeResp, remove_node_resp,
}

abbrev pub GetNodesFits : GetNodes → Type 0
GetNodesFits m = Unit {0}

pub get_nodes-Sound : (m : GetNodes) → GetNodesFits m → Sound get_nodes.format m
unfolding get_nodes
get_nodes-Sound m h =
    RoundTrips-bind _ (Sound-int 3 node_type node_type-IsWireEnum m.node_type) (RoundTrips-done m)

pub record NodeFits (m : Node) : Type 0 where
  pub alias : length m.alias < 2 ^ 32
  pub nic_list : NicsFit m.nic_list
  pub num_id : m.num_id < 2 ^ 32
  pub port : m.port < 2 ^ 16
  pub unused_tcp_port : m.unused_tcp_port < 2 ^ 16

pub node-Sound : (m : Node) → NodeFits m → Sound node m
unfolding node
node-Sound m h = RoundTrips-bind _ (Sound-cstr 0 m.alias h.alias) (
    RoundTrips-bind _ (nics-Sound true m.nic_list h.nic_list) (
      RoundTrips-bind _ (Sound-uint 4 m.num_id h.num_id) (
        RoundTrips-bind _ (Sound-uint 2 m.port h.port) (
          RoundTrips-bind _ (Sound-uint 2 m.unused_tcp_port h.unused_tcp_port) (
            RoundTrips-bind _ (Sound-int 0 node_type node_type-IsWireEnum m.node_type)
              (RoundTrips-done m))))))

pub record GetNodesRespFits (m : GetNodesResp) : Type 0 where
  pub nodes : PlainFits NodeFits m.nodes
  pub root_num_id : m.root_num_id < 2 ^ 32
  pub is_root_mirrored : m.is_root_mirrored < 2 ^ 8

pub get_nodes_resp-Sound : (m : GetNodesResp) → GetNodesRespFits m → Sound get_nodes_resp.format m
unfolding get_nodes_resp
get_nodes_resp-Sound m h =
    RoundTrips-bind _ (Sound-plain node NodeFits node-Sound m.nodes h.nodes) (
      RoundTrips-bind _ (Sound-uint 4 m.root_num_id h.root_num_id) (
        RoundTrips-bind _ (Sound-uint 1 m.is_root_mirrored h.is_root_mirrored) (RoundTrips-done m)))

abbrev pub HeartbeatRequestFits : HeartbeatRequest → Type 0
HeartbeatRequestFits m = Unit {0}

pub heartbeat_request-Sound :
    (m : HeartbeatRequest) → HeartbeatRequestFits m → Sound heartbeat_request.format m
unfolding heartbeat_request
heartbeat_request-Sound HeartbeatRequest.heartbeat_request_empty h =
    RoundTrips-done HeartbeatRequest.heartbeat_request_empty

pub record HeartbeatFits (m : Heartbeat) : Type 0 where
  pub instance_version : m.instance_version < 2 ^ 64
  pub nic_list_version : m.nic_list_version < 2 ^ 64
  pub node_alias : length m.node_alias < 2 ^ 32
  pub ack_id : length m.ack_id < 2 ^ 32
  pub node_num_id : m.node_num_id < 2 ^ 32
  pub root_num_id : m.root_num_id < 2 ^ 32
  pub is_root_mirrored : m.is_root_mirrored < 2 ^ 8
  pub port : m.port < 2 ^ 16
  pub port_tcp_unused : m.port_tcp_unused < 2 ^ 16
  pub nic_list : NicsFit m.nic_list
  pub machine_uuid : length m.machine_uuid < 2 ^ 32

pub heartbeat-Sound : (m : Heartbeat) → HeartbeatFits m → Sound heartbeat.format m
unfolding heartbeat
heartbeat-Sound m h = RoundTrips-bind _ (Sound-uint 8 m.instance_version h.instance_version) (
    RoundTrips-bind _ (Sound-uint 8 m.nic_list_version h.nic_list_version) (
      RoundTrips-bind _ (Sound-int 3 node_type node_type-IsWireEnum m.node_type) (
        RoundTrips-bind _ (Sound-cstr 0 m.node_alias h.node_alias) (
          RoundTrips-bind _ (Sound-cstr 4 m.ack_id h.ack_id) (
            RoundTrips-bind _ (Sound-uint 4 m.node_num_id h.node_num_id) (
              RoundTrips-bind _ (Sound-uint 4 m.root_num_id h.root_num_id) (
                RoundTrips-bind _ (Sound-uint 1 m.is_root_mirrored h.is_root_mirrored) (
                  RoundTrips-bind _ (Sound-uint 2 m.port h.port) (
                    RoundTrips-bind _ (Sound-uint 2 m.port_tcp_unused h.port_tcp_unused) (
                      RoundTrips-bind _ (nics-Sound true m.nic_list h.nic_list) (
                        RoundTrips-bind _ (Sound-cstr 0 m.machine_uuid h.machine_uuid)
                          (RoundTrips-done m))))))))))))

pub record RegisterNodeFits (m : RegisterNode) : Type 0 where
  pub instance_version : m.instance_version < 2 ^ 64
  pub nic_list_version : m.nic_list_version < 2 ^ 64
  pub node_alias : length m.node_alias < 2 ^ 32
  pub nics : NicsFit m.nics
  pub node_id : m.node_id < 2 ^ 32
  pub root_num_id : m.root_num_id < 2 ^ 32
  pub is_root_mirrored : m.is_root_mirrored < 2 ^ 8
  pub port : m.port < 2 ^ 16
  pub port_tcp_unused : m.port_tcp_unused < 2 ^ 16
  pub machine_uuid : length m.machine_uuid < 2 ^ 32

pub register_node-Sound : (m : RegisterNode) → RegisterNodeFits m → Sound register_node.format m
unfolding register_node
register_node-Sound m h = RoundTrips-bind _ (Sound-uint 8 m.instance_version h.instance_version) (
    RoundTrips-bind _ (Sound-uint 8 m.nic_list_version h.nic_list_version) (
      RoundTrips-bind _ (Sound-cstr 0 m.node_alias h.node_alias) (
        RoundTrips-bind _ (nics-Sound true m.nics h.nics) (
          RoundTrips-bind _ (Sound-int 3 node_type node_type-IsWireEnum m.node_type) (
            RoundTrips-bind _ (Sound-uint 4 m.node_id h.node_id) (
              RoundTrips-bind _ (Sound-uint 4 m.root_num_id h.root_num_id) (
                RoundTrips-bind _ (Sound-uint 1 m.is_root_mirrored h.is_root_mirrored) (
                  RoundTrips-bind _ (Sound-uint 2 m.port h.port) (
                    RoundTrips-bind _ (Sound-uint 2 m.port_tcp_unused h.port_tcp_unused) (
                      RoundTrips-bind _ (Sound-cstr 0 m.machine_uuid h.machine_uuid)
                        (RoundTrips-done m)))))))))))

pub record RegisterNodeRespFits (m : RegisterNodeResp) : Type 0 where
  pub node_num_id : m.node_num_id < 2 ^ 32
  pub grpc_port : m.grpc_port < 2 ^ 16
  pub fs_uuid : length m.fs_uuid < 2 ^ 32

pub register_node_resp-Sound :
    (m : RegisterNodeResp) → RegisterNodeRespFits m → Sound register_node_resp.format m
unfolding register_node_resp
register_node_resp-Sound m h = RoundTrips-bind _ (Sound-uint 4 m.node_num_id h.node_num_id) (
    RoundTrips-bind _ (Sound-uint 2 m.grpc_port h.grpc_port)
      (RoundTrips-bind _ (Sound-cstr 0 m.fs_uuid h.fs_uuid) (RoundTrips-done m)))

pub record RemoveNodeFits (m : RemoveNode) : Type 0 where
  pub node_id : m.node_id < 2 ^ 32
  pub ack_id : length m.ack_id < 2 ^ 32

pub remove_node-Sound : (m : RemoveNode) → RemoveNodeFits m → Sound remove_node.format m
unfolding remove_node
remove_node-Sound m h = RoundTrips-bind _ (Sound-int 1 node_type node_type-IsWireEnum m.node_type) (
    RoundTrips-bind _ (Sound-uint 4 m.node_id h.node_id)
      (RoundTrips-bind _ (Sound-cstr 0 m.ack_id h.ack_id) (RoundTrips-done m)))

pub record RemoveNodeRespFits (m : RemoveNodeResp) : Type 0 where
  pub result : m.result < 2 ^ 32

pub remove_node_resp-Sound :
    (m : RemoveNodeResp) → RemoveNodeRespFits m → Sound remove_node_resp.format m
unfolding remove_node_resp
remove_node_resp-Sound m h = RoundTrips-bind _ (Sound-uint 4 m.result h.result) (RoundTrips-done m)
