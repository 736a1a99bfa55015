-- ===== src/Message/BuddyGroups.antt =====
-- Messages on buddy groups (shared/src/bee_msg/buddy_group.rs): their fields in their order, by
-- the formats that the derive macro is told to use (bee_serde_derive/src/lib.rs).
pub mod Sound
use beegfs_rust.Prelude.{ℕ, ◌^◌, ◌<◌, true, false, List, [], ◌∷◌, length}
use beegfs_rust.Types.{
  NodeType, node_type, NicType, nic_type, TargetConsistencyState, target_consistency_state,
  TargetReachabilityState, target_reachability_state, BuddyResyncJobState, buddy_resync_job_state,
  QuotaIdType, quota_id_type, QuotaType, quota_type, QuotaInodeSupport, quota_inode_support,
  CapacityPoolQueryType, capacity_pool_query_type,
}
use beegfs_rust.Serde.Serializer.{◌⨾◌, done}
use beegfs_rust.Serde.Deserializer.{◌>>=◌, pure}
use beegfs_rust.Serde.Format.{
  Format, MessageType, put, get, u8, u16, u32, u64, i32, i64, int, cstr, seq, map, uint,
}

pub record GetMirrorBuddyGroups : Type 0 where
  pub node_type : NodeType

unfoldable pub get_mirror_buddy_groups : MessageType GetMirrorBuddyGroups
get_mirror_buddy_groups = record {
  id = 1047;
  format = record {
    serialize = λ m. put (int 4 node_type) m.node_type ⨾ done;
    deserialize = (do node_type ← get (int 4 node_type); pure (record { node_type = node_type }));
  };
}

pub record GetMirrorBuddyGroupsResp : Type 0 where
  pub buddy_groups : List ℕ
  pub primary_targets : List ℕ
  pub secondary_targets : List ℕ

unfoldable pub get_mirror_buddy_groups_resp : MessageType GetMirrorBuddyGroupsResp
get_mirror_buddy_groups_resp = record {
  id = 1048;
  format = record {
    serialize = λ m.
        put (seq true u16) m.buddy_groups
        ⨾ put (seq true u16) m.primary_targets
        ⨾ put (seq true u16) m.secondary_targets
        ⨾ done;
    deserialize = (do
      buddy_groups ← get (seq true u16)
      primary_targets ← get (seq true u16)
      secondary_targets ← get (seq true u16)
      pure (record {
        buddy_groups = buddy_groups;
        primary_targets = primary_targets;
        secondary_targets = secondary_targets;
      }));
  };
}

pub record CombinedTargetState : Type 0 where
  pub reachability : TargetReachabilityState
  pub consistency : TargetConsistencyState

unfoldable pub combined_target_state : Format CombinedTargetState
combined_target_state = record {
  serialize = λ m.
      put (int 1 target_reachability_state) m.reachability
      ⨾ put (int 1 target_consistency_state) m.consistency
      ⨾ done;
  deserialize = (do
    reachability ← get (int 1 target_reachability_state)
    consistency ← get (int 1 target_consistency_state)
    pure (record { reachability = reachability; consistency = consistency }));
}

pub record BuddyGroup : Type 0 where
  pub primary_target_id : ℕ
  pub secondary_target_id : ℕ

unfoldable pub buddy_group : Format BuddyGroup
buddy_group = record {
  serialize = λ m. put u16 m.primary_target_id ⨾ put u16 m.secondary_target_id ⨾ done;
  deserialize = (do
    primary_target_id ← get u16
    secondary_target_id ← get u16
    pure (record {
      primary_target_id = primary_target_id;
      secondary_target_id = secondary_target_id;
    }));
}

pub record GetStatesAndBuddyGroups : Type 0 where
  pub node_type : NodeType
  pub requested_by_client_id : ℕ

unfoldable pub get_states_and_buddy_groups : MessageType GetStatesAndBuddyGroups
get_states_and_buddy_groups = record {
  id = 1053;
  format = record {
    serialize = λ m. put (int 4 node_type) m.node_type ⨾ put u32 m.requested_by_client_id ⨾ done;
    deserialize = (do
      node_type ← get (int 4 node_type)
      requested_by_client_id ← get u32
      pure (record { node_type = node_type; requested_by_client_id = requested_by_client_id }));
  };
}

pub record GetStatesAndBuddyGroupsResp : Type 0 where
  pub groups : List (ℕ × BuddyGroup)
  pub states : List (ℕ × CombinedTargetState)

unfoldable pub get_states_and_buddy_groups_resp : MessageType GetStatesAndBuddyGroupsResp
get_states_and_buddy_groups_resp = record {
  id = 1054;
  format = record {
    serialize = λ m.
        put (map false u16 buddy_group) m.groups
        ⨾ put (map false u16 combined_target_state) m.states
        ⨾ done;
    deserialize = (do
      groups ← get (map false u16 buddy_group)
      states ← get (map false u16 combined_target_state)
      pure (record { groups = groups; states = states }));
  };
}

pub record RemoveBuddyGroup : Type 0 where
  pub node_type : NodeType
  pub group_id : ℕ
  pub check_only : ℕ
  pub force : ℕ

unfoldable pub remove_buddy_group : MessageType RemoveBuddyGroup
remove_buddy_group = record {
  id = 1060;
  format = record {
    serialize = λ m.
        put (int 4 node_type) m.node_type
        ⨾ put u16 m.group_id
        ⨾ put u8 m.check_only
        ⨾ put u8 m.force
        ⨾ done;
    deserialize = (do
      node_type ← get (int 4 node_type)
      group_id ← get u16
      check_only ← get u8
      force ← get u8
      pure (record {
        node_type = node_type;
        group_id = group_id;
        check_only = check_only;
        force = force;
      }));
  };
}

pub record RemoveBuddyGroupResp : Type 0 where
  pub result : ℕ

unfoldable pub remove_buddy_group_resp : MessageType RemoveBuddyGroupResp
remove_buddy_group_resp = record {
  id = 1061;
  format = record {
    serialize = λ m. put i32 m.result ⨾ done;
    deserialize = (do result ← get i32; pure (record { result = result }));
  };
}

pub data SetMetadataMirroring : Type 0 where
  set_metadata_mirroring_empty : SetMetadataMirroring

unfoldable pub set_metadata_mirroring : MessageType SetMetadataMirroring
set_metadata_mirroring = record {
  id = 2069;
  format = record { serialize = λ m. done; deserialize = pure set_metadata_mirroring_empty };
}

pub record SetMetadataMirroringResp : Type 0 where
  pub result : ℕ

unfoldable pub set_metadata_mirroring_resp : MessageType SetMetadataMirroringResp
set_metadata_mirroring_resp = record {
  id = 2070;
  format = record {
    serialize = λ m. put i32 m.result ⨾ done;
    deserialize = (do result ← get i32; pure (record { result = result }));
  };
}

pub record SetMirrorBuddyGroup : Type 0 where
  pub node_type : NodeType
  pub primary_target_id : ℕ
  pub secondary_target_id : ℕ
  pub group_id : ℕ
  pub allow_update : ℕ
  pub ack_id : List ℕ

unfoldable pub set_mirror_buddy_group : MessageType SetMirrorBuddyGroup
set_mirror_buddy_group = record {
  id = 1045;
  format = record {
    serialize = λ m.
        put (int 4 node_type) m.node_type
        ⨾ put u16 m.primary_target_id
        ⨾ put u16 m.secondary_target_id
        ⨾ put u16 m.group_id
        ⨾ put u8 m.allow_update
        ⨾ put (cstr 0) m.ack_id
        ⨾ done;
    deserialize = (do
      node_type ← get (int 4 node_type)
      primary_target_id ← get u16
      secondary_target_id ← get u16
      group_id ← get u16
      allow_update ← get u8
      ack_id ← get (cstr 0)
      pure (record {
        node_type = node_type;
        primary_target_id = primary_target_id;
        secondary_target_id = secondary_target_id;
        group_id = group_id;
        allow_update = allow_update;
        ack_id = ack_id;
      }));
  };
}
