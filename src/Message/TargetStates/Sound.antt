-- ===== src/Message/TargetStates/Sound.antt =====
-- Messages on the states of targets (shared/src/bee_msg/target.rs) come back if their fields
-- are in the range of their types.
use beegfs_rust.Prelude.{◌^◌, ◌<◌, true, length}
use beegfs_rust.Types.{node_type, target_consistency_state, target_reachability_state}
use beegfs_rust.Types.Laws.{
  node_type-IsWireEnum, target_consistency_state-IsWireEnum, target_reachability_state-IsWireEnum,
}
use beegfs_rust.Serde.Format.Sound.{
  Sound, Sound-uint, Sound-cstr, Sound-int, UintsFit, Sound-uints, EnumsFit, Sound-enums,
}
use beegfs_rust.Serde.RoundTrip.{RoundTrips-bind, RoundTrips-done}
use beegfs_rust.Message.TargetStates.{
  GetTargetStates, get_target_states, GetTargetStatesResp, get_target_states_resp,
  ChangeTargetConsistencyStates, change_target_consistency_states,
  ChangeTargetConsistencyStatesResp, change_target_consistency_states_resp,
  SetTargetConsistencyStates, set_target_consistency_states, SetTargetConsistencyStatesResp,
  set_target_consistency_states_resp, RefreshTargetStates, refresh_target_states,
}

abbrev pub GetTargetStatesFits : GetTargetStates → Type 0
GetTargetStatesFits m = Unit {0}

pub get_target_states-Sound :
    (m : GetTargetStates) → GetTargetStatesFits m → Sound get_target_states.format m
unfolding get_target_states
get_target_states-Sound m h =
    RoundTrips-bind _ (Sound-int 3 node_type node_type-IsWireEnum m.node_type) (RoundTrips-done m)

pub record GetTargetStatesRespFits (m : GetTargetStatesResp) : Type 0 where
  pub targets : UintsFit 2 m.targets
  pub reachability_states : EnumsFit m.reachability_states
  pub consistency_states : EnumsFit m.consistency_states

pub get_target_states_resp-Sound :
    (m : GetTargetStatesResp) → GetTargetStatesRespFits m → Sound get_target_states_resp.format m
unfolding get_target_states_resp
get_target_states_resp-Sound m h = RoundTrips-bind _ (Sound-uints true 2 m.targets h.targets) (
    RoundTrips-bind _
      (Sound-enums true target_reachability_state target_reachability_state-IsWireEnum
        m.reachability_states h.reachability_states)
      (RoundTrips-bind _
        (Sound-enums true target_consistency_state target_consistency_state-IsWireEnum
          m.consistency_states h.consistency_states)
        (RoundTrips-done m)))

pub record ChangeTargetConsistencyStatesFits (m : ChangeTargetConsistencyStates) : Type 0 where
  pub target_ids : UintsFit 2 m.target_ids
  pub old_states : EnumsFit m.old_states
  pub new_states : EnumsFit m.new_states
  pub ack_id : length m.ack_id < 2 ^ 32

pub change_target_consistency_states-Sound :
    (m : ChangeTargetConsistencyStates)
    → ChangeTargetConsistencyStatesFits m
    → Sound change_target_consistency_states.format m
unfolding change_target_consistency_states
change_target_consistency_states-Sound m h =
    RoundTrips-bind _ (Sound-int 3 node_type node_type-IsWireEnum m.node_type) (
      RoundTrips-bind _ (Sound-uints true 2 m.target_ids h.target_ids) (
        RoundTrips-bind _
          (Sound-enums true target_consistency_state target_consistency_state-IsWireEnum
            m.old_states h.old_states)
          (RoundTrips-bind _
            (Sound-enums true target_consistency_state target_consistency_state-IsWireEnum
              m.new_states h.new_states)
            (RoundTrips-bind _ (Sound-cstr 4 m.ack_id h.ack_id) (RoundTrips-done m)))))

pub record ChangeTargetConsistencyStatesRespFits (m : ChangeTargetConsistencyStatesResp)
    : Type 0 where
  pub result : m.result < 2 ^ 32

pub change_target_consistency_states_resp-Sound :
    (m : ChangeTargetConsistencyStatesResp)
    → ChangeTargetConsistencyStatesRespFits m
    → Sound change_target_consistency_states_resp.format m
unfolding change_target_consistency_states_resp
change_target_consistency_states_resp-Sound m h =
    RoundTrips-bind _ (Sound-uint 4 m.result h.result) (RoundTrips-done m)

pub record SetTargetConsistencyStatesFits (m : SetTargetConsistencyStates) : Type 0 where
  pub target_ids : UintsFit 2 m.target_ids
  pub states : EnumsFit m.states
  pub ack_id : length m.ack_id < 2 ^ 32
  pub set_online : m.set_online < 2 ^ 8

pub set_target_consistency_states-Sound :
    (m : SetTargetConsistencyStates)
    → SetTargetConsistencyStatesFits m
    → Sound set_target_consistency_states.format m
unfolding set_target_consistency_states
set_target_consistency_states-Sound m h =
    RoundTrips-bind _ (Sound-int 3 node_type node_type-IsWireEnum m.node_type) (
      RoundTrips-bind _ (Sound-uints true 2 m.target_ids h.target_ids) (
        RoundTrips-bind _
          (Sound-enums true target_consistency_state target_consistency_state-IsWireEnum m.states
            h.states)
          (RoundTrips-bind _ (Sound-cstr 4 m.ack_id h.ack_id)
            (RoundTrips-bind _ (Sound-uint 1 m.set_online h.set_online) (RoundTrips-done m)))))

pub record SetTargetConsistencyStatesRespFits (m : SetTargetConsistencyStatesResp) : Type 0 where
  pub result : m.result < 2 ^ 32

pub set_target_consistency_states_resp-Sound :
    (m : SetTargetConsistencyStatesResp)
    → SetTargetConsistencyStatesRespFits m
    → Sound set_target_consistency_states_resp.format m
unfolding set_target_consistency_states_resp
set_target_consistency_states_resp-Sound m h =
    RoundTrips-bind _ (Sound-uint 4 m.result h.result) (RoundTrips-done m)

pub record RefreshTargetStatesFits (m : RefreshTargetStates) : Type 0 where
  pub ack_id : length m.ack_id < 2 ^ 32

pub refresh_target_states-Sound :
    (m : RefreshTargetStates) → RefreshTargetStatesFits m → Sound refresh_target_states.format m
unfolding refresh_target_states
refresh_target_states-Sound m h =
    RoundTrips-bind _ (Sound-cstr 0 m.ack_id h.ack_id) (RoundTrips-done m)
