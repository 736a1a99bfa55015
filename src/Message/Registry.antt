-- ===== src/Message/Registry.antt =====
-- The message types together. A constructor names a message type and the condition under which its
-- messages come back: every field is in the range of its type.
use beegfs_rust.Prelude.{ℕ, ◌^◌, ◌≤◌, ◌<◌, ◌≡◌, List, length, arith}
use beegfs_rust.Result.{ok}
use beegfs_rust.Serde.Format.{MessageType}
use beegfs_rust.Serde.Format.Sound.{Sound}
use beegfs_rust.Message.Framing.{serialize, deserialize}
use beegfs_rust.Message.FramingLaws.{deserialize-serialize_ok}
use beegfs_rust.Message.TargetStates
use beegfs_rust.Message.Targets
use beegfs_rust.Message.BuddyGroups
use beegfs_rust.Message.Resync
use beegfs_rust.Message.Nodes
use beegfs_rust.Message.Quota
use beegfs_rust.Message.Misc

-- The message types that are both serialized and deserialized by the program.
pub data Registered : (M : Type 0) → MessageType M → (M → Type 0) → Type 1 where
  get_target_states :
      Registered TargetStates.GetTargetStates TargetStates.get_target_states
        TargetStates.Sound.GetTargetStatesFits
  get_target_states_resp :
      Registered TargetStates.GetTargetStatesResp TargetStates.get_target_states_resp
        TargetStates.Sound.GetTargetStatesRespFits
  change_target_consistency_states :
      Registered TargetStates.ChangeTargetConsistencyStates
        TargetStates.change_target_consistency_states
        TargetStates.Sound.ChangeTargetConsistencyStatesFits
  change_target_consistency_states_resp :
      Registered TargetStates.ChangeTargetConsistencyStatesResp
        TargetStates.change_target_consistency_states_resp
        TargetStates.Sound.ChangeTargetConsistencyStatesRespFits
  set_target_consistency_states :
      Registered TargetStates.SetTargetConsistencyStates TargetStates.set_target_consistency_states
        TargetStates.Sound.SetTargetConsistencyStatesFits
  set_target_consistency_states_resp :
      Registered TargetStates.SetTargetConsistencyStatesResp
        TargetStates.set_target_consistency_states_resp
        TargetStates.Sound.SetTargetConsistencyStatesRespFits
  refresh_target_states :
      Registered TargetStates.RefreshTargetStates TargetStates.refresh_target_states
        TargetStates.Sound.RefreshTargetStatesFits
  get_target_mappings :
      Registered Targets.GetTargetMappings Targets.get_target_mappings
        Targets.Sound.GetTargetMappingsFits
  register_target :
      Registered Targets.RegisterTarget Targets.register_target Targets.Sound.RegisterTargetFits
  register_target_resp :
      Registered Targets.RegisterTargetResp Targets.register_target_resp
        Targets.Sound.RegisterTargetRespFits
  map_targets : Registered Targets.MapTargets Targets.map_targets Targets.Sound.MapTargetsFits
  map_targets_resp :
      Registered Targets.MapTargetsResp Targets.map_targets_resp Targets.Sound.MapTargetsRespFits
  set_storage_target_info :
      Registered Targets.SetStorageTargetInfo Targets.set_storage_target_info
        Targets.Sound.SetStorageTargetInfoFits
  set_storage_target_info_resp :
      Registered Targets.SetStorageTargetInfoResp Targets.set_storage_target_info_resp
        Targets.Sound.SetStorageTargetInfoRespFits
  get_mirror_buddy_groups :
      Registered BuddyGroups.GetMirrorBuddyGroups BuddyGroups.get_mirror_buddy_groups
        BuddyGroups.Sound.GetMirrorBuddyGroupsFits
  get_mirror_buddy_groups_resp :
      Registered BuddyGroups.GetMirrorBuddyGroupsResp BuddyGroups.get_mirror_buddy_groups_resp
        BuddyGroups.Sound.GetMirrorBuddyGroupsRespFits
  get_states_and_buddy_groups :
      Registered BuddyGroups.GetStatesAndBuddyGroups BuddyGroups.get_states_and_buddy_groups
        BuddyGroups.Sound.GetStatesAndBuddyGroupsFits
  get_states_and_buddy_groups_resp :
      Registered BuddyGroups.GetStatesAndBuddyGroupsResp
        BuddyGroups.get_states_and_buddy_groups_resp
        BuddyGroups.Sound.GetStatesAndBuddyGroupsRespFits
  remove_buddy_group :
      Registered BuddyGroups.RemoveBuddyGroup BuddyGroups.remove_buddy_group
        BuddyGroups.Sound.RemoveBuddyGroupFits
  remove_buddy_group_resp :
      Registered BuddyGroups.RemoveBuddyGroupResp BuddyGroups.remove_buddy_group_resp
        BuddyGroups.Sound.RemoveBuddyGroupRespFits
  set_metadata_mirroring :
      Registered BuddyGroups.SetMetadataMirroring BuddyGroups.set_metadata_mirroring
        BuddyGroups.Sound.SetMetadataMirroringFits
  set_metadata_mirroring_resp :
      Registered BuddyGroups.SetMetadataMirroringResp BuddyGroups.set_metadata_mirroring_resp
        BuddyGroups.Sound.SetMetadataMirroringRespFits
  set_mirror_buddy_group :
      Registered BuddyGroups.SetMirrorBuddyGroup BuddyGroups.set_mirror_buddy_group
        BuddyGroups.Sound.SetMirrorBuddyGroupFits
  set_last_buddy_comm_override :
      Registered Resync.SetLastBuddyCommOverride Resync.set_last_buddy_comm_override
        Resync.Sound.SetLastBuddyCommOverrideFits
  set_last_buddy_comm_override_resp :
      Registered Resync.SetLastBuddyCommOverrideResp Resync.set_last_buddy_comm_override_resp
        Resync.Sound.SetLastBuddyCommOverrideRespFits
  get_storage_resync_stats :
      Registered Resync.GetStorageResyncStats Resync.get_storage_resync_stats
        Resync.Sound.GetStorageResyncStatsFits
  get_storage_resync_stats_resp :
      Registered Resync.GetStorageResyncStatsResp Resync.get_storage_resync_stats_resp
        Resync.Sound.GetStorageResyncStatsRespFits
  get_meta_resync_stats :
      Registered Resync.GetMetaResyncStats Resync.get_meta_resync_stats
        Resync.Sound.GetMetaResyncStatsFits
  get_meta_resync_stats_resp :
      Registered Resync.GetMetaResyncStatsResp Resync.get_meta_resync_stats_resp
        Resync.Sound.GetMetaResyncStatsRespFits
  get_nodes : Registered Nodes.GetNodes Nodes.get_nodes Nodes.Sound.GetNodesFits
  get_nodes_resp : Registered Nodes.GetNodesResp Nodes.get_nodes_resp Nodes.Sound.GetNodesRespFits
  heartbeat_request :
      Registered Nodes.HeartbeatRequest Nodes.heartbeat_request Nodes.Sound.HeartbeatRequestFits
  heartbeat : Registered Nodes.Heartbeat Nodes.heartbeat Nodes.Sound.HeartbeatFits
  register_node : Registered Nodes.RegisterNode Nodes.register_node Nodes.Sound.RegisterNodeFits
  register_node_resp :
      Registered Nodes.RegisterNodeResp Nodes.register_node_resp Nodes.Sound.RegisterNodeRespFits
  remove_node : Registered Nodes.RemoveNode Nodes.remove_node Nodes.Sound.RemoveNodeFits
  remove_node_resp :
      Registered Nodes.RemoveNodeResp Nodes.remove_node_resp Nodes.Sound.RemoveNodeRespFits
  get_quota_info_resp :
      Registered Quota.GetQuotaInfoResp Quota.get_quota_info_resp Quota.Sound.GetQuotaInfoRespFits
  set_exceeded_quota :
      Registered Quota.SetExceededQuota Quota.set_exceeded_quota Quota.Sound.SetExceededQuotaFits
  set_exceeded_quota_resp :
      Registered Quota.SetExceededQuotaResp Quota.set_exceeded_quota_resp
        Quota.Sound.SetExceededQuotaRespFits
  request_exceeded_quota :
      Registered Quota.RequestExceededQuota Quota.request_exceeded_quota
        Quota.Sound.RequestExceededQuotaFits
  request_exceeded_quota_resp :
      Registered Quota.RequestExceededQuotaResp Quota.request_exceeded_quota_resp
        Quota.Sound.RequestExceededQuotaRespFits
  generic_response :
      Registered Misc.GenericResponse Misc.generic_response Misc.Sound.GenericResponseFits
  ack : Registered Misc.Ack Misc.ack Misc.Sound.AckFits
  authenticate_channel :
      Registered Misc.AuthenticateChannel Misc.authenticate_channel
        Misc.Sound.AuthenticateChannelFits
  peer_info : Registered Misc.PeerInfo Misc.peer_info Misc.Sound.PeerInfoFits
  set_channel_direct :
      Registered Misc.SetChannelDirect Misc.set_channel_direct Misc.Sound.SetChannelDirectFits
  refresh_capacity_pools :
      Registered Misc.RefreshCapacityPools Misc.refresh_capacity_pools
        Misc.Sound.RefreshCapacityPoolsFits
  get_node_capacity_pools :
      Registered Misc.GetNodeCapacityPools Misc.get_node_capacity_pools
        Misc.Sound.GetNodeCapacityPoolsFits

-- A message whose fields are in range comes back.
pub Registered-Sound :
    {M : Type 0} {t : MessageType M} {P : M → Type 0} (r : Registered M t P) (m : M)
    → P m
    → Sound t.format m
Registered-Sound get_target_states = TargetStates.Sound.get_target_states-Sound
Registered-Sound get_target_states_resp = TargetStates.Sound.get_target_states_resp-Sound
Registered-Sound change_target_consistency_states =
    TargetStates.Sound.change_target_consistency_states-Sound
Registered-Sound change_target_consistency_states_resp =
    TargetStates.Sound.change_target_consistency_states_resp-Sound
Registered-Sound set_target_consistency_states =
    TargetStates.Sound.set_target_consistency_states-Sound
Registered-Sound set_target_consistency_states_resp =
    TargetStates.Sound.set_target_consistency_states_resp-Sound
Registered-Sound refresh_target_states = TargetStates.Sound.refresh_target_states-Sound
Registered-Sound get_target_mappings = Targets.Sound.get_target_mappings-Sound
Registered-Sound register_target = Targets.Sound.register_target-Sound
Registered-Sound register_target_resp = Targets.Sound.register_target_resp-Sound
Registered-Sound map_targets = Targets.Sound.map_targets-Sound
Registered-Sound map_targets_resp = Targets.Sound.map_targets_resp-Sound
Registered-Sound set_storage_target_info = Targets.Sound.set_storage_target_info-Sound
Registered-Sound set_storage_target_info_resp = Targets.Sound.set_storage_target_info_resp-Sound
Registered-Sound get_mirror_buddy_groups = BuddyGroups.Sound.get_mirror_buddy_groups-Sound
Registered-Sound get_mirror_buddy_groups_resp = BuddyGroups.Sound.get_mirror_buddy_groups_resp-Sound
Registered-Sound get_states_and_buddy_groups = BuddyGroups.Sound.get_states_and_buddy_groups-Sound
Registered-Sound get_states_and_buddy_groups_resp =
    BuddyGroups.Sound.get_states_and_buddy_groups_resp-Sound
Registered-Sound remove_buddy_group = BuddyGroups.Sound.remove_buddy_group-Sound
Registered-Sound remove_buddy_group_resp = BuddyGroups.Sound.remove_buddy_group_resp-Sound
Registered-Sound set_metadata_mirroring = BuddyGroups.Sound.set_metadata_mirroring-Sound
Registered-Sound set_metadata_mirroring_resp = BuddyGroups.Sound.set_metadata_mirroring_resp-Sound
Registered-Sound set_mirror_buddy_group = BuddyGroups.Sound.set_mirror_buddy_group-Sound
Registered-Sound set_last_buddy_comm_override = Resync.Sound.set_last_buddy_comm_override-Sound
Registered-Sound set_last_buddy_comm_override_resp =
    Resync.Sound.set_last_buddy_comm_override_resp-Sound
Registered-Sound get_storage_resync_stats = Resync.Sound.get_storage_resync_stats-Sound
Registered-Sound get_storage_resync_stats_resp = Resync.Sound.get_storage_resync_stats_resp-Sound
Registered-Sound get_meta_resync_stats = Resync.Sound.get_meta_resync_stats-Sound
Registered-Sound get_meta_resync_stats_resp = Resync.Sound.get_meta_resync_stats_resp-Sound
Registered-Sound get_nodes = Nodes.Sound.get_nodes-Sound
Registered-Sound get_nodes_resp = Nodes.Sound.get_nodes_resp-Sound
Registered-Sound heartbeat_request = Nodes.Sound.heartbeat_request-Sound
Registered-Sound heartbeat = Nodes.Sound.heartbeat-Sound
Registered-Sound register_node = Nodes.Sound.register_node-Sound
Registered-Sound register_node_resp = Nodes.Sound.register_node_resp-Sound
Registered-Sound remove_node = Nodes.Sound.remove_node-Sound
Registered-Sound remove_node_resp = Nodes.Sound.remove_node_resp-Sound
Registered-Sound get_quota_info_resp = Quota.Sound.get_quota_info_resp-Sound
Registered-Sound set_exceeded_quota = Quota.Sound.set_exceeded_quota-Sound
Registered-Sound set_exceeded_quota_resp = Quota.Sound.set_exceeded_quota_resp-Sound
Registered-Sound request_exceeded_quota = Quota.Sound.request_exceeded_quota-Sound
Registered-Sound request_exceeded_quota_resp = Quota.Sound.request_exceeded_quota_resp-Sound
Registered-Sound generic_response = Misc.Sound.generic_response-Sound
Registered-Sound ack = Misc.Sound.ack-Sound
Registered-Sound authenticate_channel = Misc.Sound.authenticate_channel-Sound
Registered-Sound peer_info = Misc.Sound.peer_info-Sound
Registered-Sound set_channel_direct = Misc.Sound.set_channel_direct-Sound
Registered-Sound refresh_capacity_pools = Misc.Sound.refresh_capacity_pools-Sound
Registered-Sound get_node_capacity_pools = Misc.Sound.get_node_capacity_pools-Sound

pub id-lt : {M : Type 0} {t : MessageType M} {P : M → Type 0} → Registered M t P → t.id < 2 ^ 16
unfolding TargetStates.get_target_states TargetStates.get_target_states_resp
    TargetStates.change_target_consistency_states TargetStates.change_target_consistency_states_resp
    TargetStates.set_target_consistency_states TargetStates.set_target_consistency_states_resp
    TargetStates.refresh_target_states Targets.get_target_mappings Targets.register_target
    Targets.register_target_resp Targets.map_targets Targets.map_targets_resp
    Targets.set_storage_target_info Targets.set_storage_target_info_resp
    BuddyGroups.get_mirror_buddy_groups BuddyGroups.get_mirror_buddy_groups_resp
    BuddyGroups.get_states_and_buddy_groups BuddyGroups.get_states_and_buddy_groups_resp
    BuddyGroups.remove_buddy_group BuddyGroups.remove_buddy_group_resp
    BuddyGroups.set_metadata_mirroring BuddyGroups.set_metadata_mirroring_resp
    BuddyGroups.set_mirror_buddy_group Resync.set_last_buddy_comm_override
    Resync.set_last_buddy_comm_override_resp Resync.get_storage_resync_stats
    Resync.get_storage_resync_stats_resp Resync.get_meta_resync_stats
    Resync.get_meta_resync_stats_resp Nodes.get_nodes Nodes.get_nodes_resp Nodes.heartbeat_request
    Nodes.heartbeat Nodes.register_node Nodes.register_node_resp Nodes.remove_node
    Nodes.remove_node_resp Quota.get_quota_info_resp Quota.set_exceeded_quota
    Quota.set_exceeded_quota_resp Quota.request_exceeded_quota Quota.request_exceeded_quota_resp
    Misc.generic_response Misc.ack Misc.authenticate_channel Misc.peer_info Misc.set_channel_direct
    Misc.refresh_capacity_pools Misc.get_node_capacity_pools
id-lt get_target_states = omega arith
id-lt get_target_states_resp = omega arith
id-lt change_target_consistency_states = omega arith
id-lt change_target_consistency_states_resp = omega arith
id-lt set_target_consistency_states = omega arith
id-lt set_target_consistency_states_resp = omega arith
id-lt refresh_target_states = omega arith
id-lt get_target_mappings = omega arith
id-lt register_target = omega arith
id-lt register_target_resp = omega arith
id-lt map_targets = omega arith
id-lt map_targets_resp = omega arith
id-lt set_storage_target_info = omega arith
id-lt set_storage_target_info_resp = omega arith
id-lt get_mirror_buddy_groups = omega arith
id-lt get_mirror_buddy_groups_resp = omega arith
id-lt get_states_and_buddy_groups = omega arith
id-lt get_states_and_buddy_groups_resp = omega arith
id-lt remove_buddy_group = omega arith
id-lt remove_buddy_group_resp = omega arith
id-lt set_metadata_mirroring = omega arith
id-lt set_metadata_mirroring_resp = omega arith
id-lt set_mirror_buddy_group = omega arith
id-lt set_last_buddy_comm_override = omega arith
id-lt set_last_buddy_comm_override_resp = omega arith
id-lt get_storage_resync_stats = omega arith
id-lt get_storage_resync_stats_resp = omega arith
id-lt get_meta_resync_stats = omega arith
id-lt get_meta_resync_stats_resp = omega arith
id-lt get_nodes = omega arith
id-lt get_nodes_resp = omega arith
id-lt heartbeat_request = omega arith
id-lt heartbeat = omega arith
id-lt register_node = omega arith
id-lt register_node_resp = omega arith
id-lt remove_node = omega arith
id-lt remove_node_resp = omega arith
id-lt get_quota_info_resp = omega arith
id-lt set_exceeded_quota = omega arith
id-lt set_exceeded_quota_resp = omega arith
id-lt request_exceeded_quota = omega arith
id-lt request_exceeded_quota_resp = omega arith
id-lt generic_response = omega arith
id-lt ack = omega arith
id-lt authenticate_channel = omega arith
id-lt peer_info = omega arith
id-lt set_channel_direct = omega arith
id-lt refresh_capacity_pools = omega arith
id-lt get_node_capacity_pools = omega arith

-- What `serialize` leaves of a registered message, its fields in range, in a buffer of less than 4 GiB
-- is read back as that message, whatever else the buffer holds; the length that it returns is within
-- the buffer, whose length has not changed.
pub deserialize-serialize_registered :
    {M : Type 0} {t : MessageType M} {P : M → Type 0} (r : Registered M t P) (m : M) (buf : List ℕ)
    {n : ℕ} {out : List ℕ}
    → P m
    → length buf < 2 ^ 32
    → serialize t.id (t.format.serialize m) buf ≡ ok (n, out)
    → (deserialize t.format.deserialize out ≡ ok m) × (n ≤ length buf) × (length out ≡ length buf)
deserialize-serialize_registered {t = t} r m buf fits small e =
    deserialize-serialize_ok (Registered-Sound r m fits) t.id (id-lt r) buf small e
