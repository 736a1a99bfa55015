-- ===== src/Message/BuddyGroups/Sound.antt =====
-- Messages on buddy groups (shared/src/bee_msg/buddy_group.rs) come back if their fields
-- are in the range of their types.
use beegfs_rust.Prelude.{◌^◌, ◌<◌, true, length}
use beegfs_rust.Types.{node_type, target_consistency_state, target_reachability_state}
use beegfs_rust.Types.Laws.{
  node_type-IsWireEnum, target_consistency_state-IsWireEnum, target_reachability_state-IsWireEnum,
}
use beegfs_rust.Serde.Format.Sound.{
  Sound, Sound-uint, Sound-cstr, Sound-int, UintsFit, Sound-uints, MapFits, Sound-map,
}
use beegfs_rust.Serde.RoundTrip.{RoundTrips-bind, RoundTrips-done}
use beegfs_rust.Message.BuddyGroups.{
  GetMirrorBuddyGroups, get_mirror_buddy_groups, GetMirrorBuddyGroupsResp,
  get_mirror_buddy_groups_resp, CombinedTargetState, combined_target_state, BuddyGroup, buddy_group,
  GetStatesAndBuddyGroups, get_states_and_buddy_groups, GetStatesAndBuddyGroupsResp,
  get_states_and_buddy_groups_resp, RemoveBuddyGroup, remove_buddy_group, RemoveBuddyGroupResp,
  remove_buddy_group_resp, SetMetadataMirroring, set_metadata_mirroring, SetMetadataMirroringResp,
  set_metadata_mirroring_resp, SetMirrorBuddyGroup, set_mirror_buddy_group,
}

abbrev pub GetMirrorBuddyGroupsFits : GetMirrorBuddyGroups → Type 0
GetMirrorBuddyGroupsFits m = Unit {0}

pub get_mirror_buddy_groups-Sound :
    (m : GetMirrorBuddyGroups) → GetMirrorBuddyGroupsFits m → Sound get_mirror_buddy_groups.format m
unfolding get_mirror_buddy_groups
get_mirror_buddy_groups-Sound m h =
    RoundTrips-bind _ (Sound-int 3 node_type node_type-IsWireEnum m.node_type) (RoundTrips-done m)

pub record GetMirrorBuddyGroupsRespFits (m : GetMirrorBuddyGroupsResp) : Type 0 where
  pub buddy_groups : UintsFit 2 m.buddy_groups
  pub primary_targets : UintsFit 2 m.primary_targets
  pub secondary_targets : UintsFit 2 m.secondary_targets

pub get_mirror_buddy_groups_resp-Sound :
    (m : GetMirrorBuddyGroupsResp)
    → GetMirrorBuddyGroupsRespFits m
    → Sound get_mirror_buddy_groups_resp.format m
unfolding get_mirror_buddy_groups_resp
get_mirror_buddy_groups_resp-Sound m h =
    RoundTrips-bind _ (Sound-uints true 2 m.buddy_groups h.buddy_groups) (
      RoundTrips-bind _ (Sound-uints true 2 m.primary_targets h.primary_targets) (
        RoundTrips-bind _ (Sound-uints true 2 m.secondary_targets h.secondary_targets)
          (RoundTrips-done m)))

abbrev pub CombinedTargetStateFits : CombinedTargetState → Type 0
CombinedTargetStateFits m = Unit {0}

pub combined_target_state-Sound :
    (m : CombinedTargetState) → CombinedTargetStateFits m → Sound combined_target_state m
unfolding combined_target_state
combined_target_state-Sound m h =
    RoundTrips-bind _
      (Sound-int 0 target_reachability_state target_reachability_state-IsWireEnum m.reachability)
      (RoundTrips-bind _
        (Sound-int 0 target_consistency_state target_consistency_state-IsWireEnum m.consistency)
        (RoundTrips-done m))

pub record BuddyGroupFits (m : BuddyGroup) : Type 0 where
  pub primary_target_id : m.primary_target_id < 2 ^ 16
  pub secondary_target_id : m.secondary_target_id < 2 ^ 16

pub buddy_group-Sound : (m : BuddyGroup) → BuddyGroupFits m → Sound buddy_group m
unfolding buddy_group
buddy_group-Sound m h = RoundTrips-bind _ (Sound-uint 2 m.primary_target_id h.primary_target_id) (
    RoundTrips-bind _ (Sound-uint 2 m.secondary_target_id h.secondary_target_id)
      (RoundTrips-done m))

pub record GetStatesAndBuddyGroupsFits (m : GetStatesAndBuddyGroups) : Type 0 where
  pub requested_by_client_id : m.requested_by_client_id < 2 ^ 32

pub get_states_and_buddy_groups-Sound :
    (m : GetStatesAndBuddyGroups)
    → GetStatesAndBuddyGroupsFits m
    → Sound get_states_and_buddy_groups.format m
unfolding get_states_and_buddy_groups
get_states_and_buddy_groups-Sound m h =
    RoundTrips-bind _ (Sound-int 3 node_type node_type-IsWireEnum m.node_type) (
      RoundTrips-bind _ (Sound-uint 4 m.requested_by_client_id h.requested_by_client_id)
        (RoundTrips-done m))

pub record GetStatesAndBuddyGroupsRespFits (m : GetStatesAndBuddyGroupsResp) : Type 0 where
  pub groups : MapFits 2 BuddyGroupFits m.groups
  pub states : MapFits 2 CombinedTargetStateFits m.states

pub get_states_and_buddy_groups_resp-Sound :
    (m : GetStatesAndBuddyGroupsResp)
    → GetStatesAndBuddyGroupsRespFits m
    → Sound get_states_and_buddy_groups_resp.format m
unfolding get_states_and_buddy_groups_resp
get_states_and_buddy_groups_resp-Sound m h =
    RoundTrips-bind _ (Sound-map 2 buddy_group BuddyGroupFits buddy_group-Sound m.groups h.groups) (
      RoundTrips-bind _
        (Sound-map 2 combined_target_state CombinedTargetStateFits combined_target_state-Sound
          m.states h.states)
        (RoundTrips-done m))

pub record RemoveBuddyGroupFits (m : RemoveBuddyGroup) : Type 0 where
  pub group_id : m.group_id < 2 ^ 16
  pub check_only : m.check_only < 2 ^ 8
  pub force : m.force < 2 ^ 8

pub remove_buddy_group-Sound :
    (m : RemoveBuddyGroup) → RemoveBuddyGroupFits m → Sound remove_buddy_group.format m
unfolding remove_buddy_group
remove_buddy_group-Sound m h =
    RoundTrips-bind _ (Sound-int 3 node_type node_type-IsWireEnum m.node_type) (
      RoundTrips-bind _ (Sound-uint 2 m.group_id h.group_id) (
        RoundTrips-bind _ (Sound-uint 1 m.check_only h.check_only)
          (RoundTrips-bind _ (Sound-uint 1 m.force h.force) (RoundTrips-done m))))

pub record RemoveBuddyGroupRespFits (m : RemoveBuddyGroupResp) : Type 0 where
  pub result : m.result < 2 ^ 32

pub remove_buddy_group_resp-Sound :
    (m : RemoveBuddyGroupResp) → RemoveBuddyGroupRespFits m → Sound remove_buddy_group_resp.format m
unfolding remove_buddy_group_resp
remove_buddy_group_resp-Sound m h =
    RoundTrips-bind _ (Sound-uint 4 m.result h.result) (RoundTrips-done m)

abbrev pub SetMetadataMirroringFits : SetMetadataMirroring → Type 0
SetMetadataMirroringFits m = Unit {0}

pub set_metadata_mirroring-Sound :
    (m : SetMetadataMirroring) → SetMetadataMirroringFits m → Sound set_metadata_mirroring.format m
unfolding set_metadata_mirroring
set_metadata_mirroring-Sound SetMetadataMirroring.set_metadata_mirroring_empty h =
    RoundTrips-done SetMetadataMirroring.set_metadata_mirroring_empty

pub record SetMetadataMirroringRespFits (m : SetMetadataMirroringResp) : Type 0 where
  pub result : m.result < 2 ^ 32

pub set_metadata_mirroring_resp-Sound :
    (m : SetMetadataMirroringResp)
    → SetMetadataMirroringRespFits m
    → Sound set_metadata_mirroring_resp.format m
unfolding set_metadata_mirroring_resp
set_metadata_mirroring_resp-Sound m h =
    RoundTrips-bind _ (Sound-uint 4 m.result h.result) (RoundTrips-done m)

pub record SetMirrorBuddyGroupFits (m : SetMirrorBuddyGroup) : Type 0 where
  pub primary_target_id : m.primary_target_id < 2 ^ 16
  pub secondary_target_id : m.secondary_target_id < 2 ^ 16
  pub group_id : m.group_id < 2 ^ 16
  pub allow_update : m.allow_update < 2 ^ 8
  pub ack_id : length m.ack_id < 2 ^ 32

pub set_mirror_buddy_group-Sound :
    (m : SetMirrorBuddyGroup) → SetMirrorBuddyGroupFits m → Sound set_mirror_buddy_group.format m
unfolding set_mirror_buddy_group
set_mirror_buddy_group-Sound m h =
    RoundTrips-bind _ (Sound-int 3 node_type node_type-IsWireEnum m.node_type) (
      RoundTrips-bind _ (Sound-uint 2 m.primary_target_id h.primary_target_id) (
        RoundTrips-bind _ (Sound-uint 2 m.secondary_target_id h.secondary_target_id) (
          RoundTrips-bind _ (Sound-uint 2 m.group_id h.group_id) (
            RoundTrips-bind _ (Sound-uint 1 m.allow_update h.allow_update)
              (RoundTrips-bind _ (Sound-cstr 0 m.ack_id h.ack_id) (RoundTrips-done m))))))
