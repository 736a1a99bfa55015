-- ===== src/Message/Targets/Sound.antt =====
-- Messages that register, map and describe targets (shared/src/bee_msg/target.rs) come back if their fields
-- are in the range of their types.
use beegfs_rust.Prelude.{◌^◌, ◌<◌, length}
use beegfs_rust.Types.{node_type, target_consistency_state}
use beegfs_rust.Types.Laws.{node_type-IsWireEnum, target_consistency_state-IsWireEnum}
use beegfs_rust.Serde.Format.{uint}
use beegfs_rust.Serde.Format.Sound.{
  Sound, Sound-uint, Sound-cstr, Sound-int, PlainFits, Sound-plain, MapFits, Sound-map,
}
use beegfs_rust.Serde.RoundTrip.{RoundTrips-bind, RoundTrips-done}
use beegfs_rust.Message.Targets.{
  GetTargetMappings, get_target_mappings, RegisterTarget, register_target, RegisterTargetResp,
  register_target_resp, MapTargets, map_targets, MapTargetsResp, map_targets_resp, TargetInfo,
  target_info, SetStorageTargetInfo, set_storage_target_info, SetStorageTargetInfoResp,
  set_storage_target_info_resp,
}

abbrev pub GetTargetMappingsFits : GetTargetMappings → Type 0
GetTargetMappingsFits m = Unit {0}

pub get_target_mappings-Sound :
    (m : GetTargetMappings) → GetTargetMappingsFits m → Sound get_target_mappings.format m
unfolding get_target_mappings
get_target_mappings-Sound GetTargetMappings.get_target_mappings_empty h =
    RoundTrips-done GetTargetMappings.get_target_mappings_empty

pub record RegisterTargetFits (m : RegisterTarget) : Type 0 where
  pub reg_token : length m.reg_token < 2 ^ 32
  pub target_id : m.target_id < 2 ^ 16

pub register_target-Sound :
    (m : RegisterTarget) → RegisterTargetFits m → Sound register_target.format m
unfolding register_target
register_target-Sound m h =
    RoundTrips-bind _ (Sound-cstr 0 m.reg_token h.reg_token)
      (RoundTrips-bind _ (Sound-uint 2 m.target_id h.target_id) (RoundTrips-done m))

pub record RegisterTargetRespFits (m : RegisterTargetResp) : Type 0 where
  pub id : m.id < 2 ^ 16

pub register_target_resp-Sound :
    (m : RegisterTargetResp) → RegisterTargetRespFits m → Sound register_target_resp.format m
unfolding register_target_resp
register_target_resp-Sound m h = RoundTrips-bind _ (Sound-uint 2 m.id h.id) (RoundTrips-done m)

pub record MapTargetsFits (m : MapTargets) : Type 0 where
  pub target_ids : MapFits 2 (λ v. v < 2 ^ 16) m.target_ids
  pub node_id : m.node_id < 2 ^ 32
  pub ack_id : length m.ack_id < 2 ^ 32

pub map_targets-Sound : (m : MapTargets) → MapTargetsFits m → Sound map_targets.format m
unfolding map_targets
map_targets-Sound m h =
    RoundTrips-bind _
      (Sound-map 2 (uint 2) (λ v. v < 2 ^ 16) (Sound-uint 2) m.target_ids h.target_ids)
      (RoundTrips-bind _ (Sound-uint 4 m.node_id h.node_id)
        (RoundTrips-bind _ (Sound-cstr 0 m.ack_id h.ack_id) (RoundTrips-done m)))

pub record MapTargetsRespFits (m : MapTargetsResp) : Type 0 where
  pub results : MapFits 2 (λ v. v < 2 ^ 32) m.results

pub map_targets_resp-Sound :
    (m : MapTargetsResp) → MapTargetsRespFits m → Sound map_targets_resp.format m
unfolding map_targets_resp
map_targets_resp-Sound m h =
    RoundTrips-bind _ (Sound-map 2 (uint 4) (λ v. v < 2 ^ 32) (Sound-uint 4) m.results h.results)
      (RoundTrips-done m)

pub record TargetInfoFits (m : TargetInfo) : Type 0 where
  pub target_id : m.target_id < 2 ^ 16
  pub path : length m.path < 2 ^ 32
  pub total_space : m.total_space < 2 ^ 64
  pub free_space : m.free_space < 2 ^ 64
  pub total_inodes : m.total_inodes < 2 ^ 64
  pub free_inodes : m.free_inodes < 2 ^ 64

pub target_info-Sound : (m : TargetInfo) → TargetInfoFits m → Sound target_info m
unfolding target_info
target_info-Sound m h = RoundTrips-bind _ (Sound-uint 2 m.target_id h.target_id) (
    RoundTrips-bind _ (Sound-cstr 4 m.path h.path) (
      RoundTrips-bind _ (Sound-uint 8 m.total_space h.total_space) (
        RoundTrips-bind _ (Sound-uint 8 m.free_space h.free_space) (
          RoundTrips-bind _ (Sound-uint 8 m.total_inodes h.total_inodes) (
            RoundTrips-bind _ (Sound-uint 8 m.free_inodes h.free_inodes) (
              RoundTrips-bind _
                (Sound-int 0 target_consistency_state target_consistency_state-IsWireEnum
                  m.consistency_state)
                (RoundTrips-done m)))))))

pub record SetStorageTargetInfoFits (m : SetStorageTargetInfo) : Type 0 where
  pub info : PlainFits TargetInfoFits m.info

pub set_storage_target_info-Sound :
    (m : SetStorageTargetInfo) → SetStorageTargetInfoFits m → Sound set_storage_target_info.format m
unfolding set_storage_target_info
set_storage_target_info-Sound m h =
    RoundTrips-bind _ (Sound-int 3 node_type node_type-IsWireEnum m.node_type) (
      RoundTrips-bind _ (Sound-plain target_info TargetInfoFits target_info-Sound m.info h.info)
        (RoundTrips-done m))

pub record SetStorageTargetInfoRespFits (m : SetStorageTargetInfoResp) : Type 0 where
  pub result : m.result < 2 ^ 32

pub set_storage_target_info_resp-Sound :
    (m : SetStorageTargetInfoResp)
    → SetStorageTargetInfoRespFits m
    → Sound set_storage_target_info_resp.format m
unfolding set_storage_target_info_resp
set_storage_target_info_resp-Sound m h =
    RoundTrips-bind _ (Sound-uint 4 m.result h.result) (RoundTrips-done m)
