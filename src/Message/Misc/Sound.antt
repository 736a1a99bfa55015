-- ===== src/Message/Misc/Sound.antt =====
-- Messages of general use (shared/src/bee_msg/misc.rs) come back if their fields
-- are in the range of their types.
use beegfs_rust.Prelude.{◌^◌, ◌<◌, length}
use beegfs_rust.Types.{node_type, capacity_pool_query_type}
use beegfs_rust.Types.Laws.{node_type-IsWireEnum, capacity_pool_query_type-IsWireEnum}
use beegfs_rust.Serde.Format.Sound.{Sound, Sound-uint, Sound-cstr, Sound-int}
use beegfs_rust.Serde.RoundTrip.{RoundTrips-bind, RoundTrips-done}
use beegfs_rust.Message.Misc.{
  GenericResponse, generic_response, Ack, ack, AuthenticateChannel, authenticate_channel, PeerInfo,
  peer_info, SetChannelDirect, set_channel_direct, RefreshCapacityPools, refresh_capacity_pools,
  GetNodeCapacityPools, get_node_capacity_pools,
}

pub record GenericResponseFits (m : GenericResponse) : Type 0 where
  pub code : m.code < 2 ^ 32
  pub description : length m.description < 2 ^ 32

pub generic_response-Sound :
    (m : GenericResponse) → GenericResponseFits m → Sound generic_response.format m
unfolding generic_response
generic_response-Sound m h =
    RoundTrips-bind _ (Sound-uint 4 m.code h.code)
      (RoundTrips-bind _ (Sound-cstr 0 m.description h.description) (RoundTrips-done m))

pub record AckFits (m : Ack) : Type 0 where
  pub ack_id : length m.ack_id < 2 ^ 32

pub ack-Sound : (m : Ack) → AckFits m → Sound ack.format m
unfolding ack
ack-Sound m h = RoundTrips-bind _ (Sound-cstr 0 m.ack_id h.ack_id) (RoundTrips-done m)

pub record AuthenticateChannelFits (m : AuthenticateChannel) : Type 0 where
  pub auth_secret : m.auth_secret < 2 ^ 64

pub authenticate_channel-Sound :
    (m : AuthenticateChannel) → AuthenticateChannelFits m → Sound authenticate_channel.format m
unfolding authenticate_channel
authenticate_channel-Sound m h =
    RoundTrips-bind _ (Sound-uint 8 m.auth_secret h.auth_secret) (RoundTrips-done m)

pub record PeerInfoFits (m : PeerInfo) : Type 0 where
  pub node_id : m.node_id < 2 ^ 32

pub peer_info-Sound : (m : PeerInfo) → PeerInfoFits m → Sound peer_info.format m
unfolding peer_info
peer_info-Sound m h =
    RoundTrips-bind _ (Sound-int 3 node_type node_type-IsWireEnum m.node_type)
      (RoundTrips-bind _ (Sound-uint 4 m.node_id h.node_id) (RoundTrips-done m))

pub record SetChannelDirectFits (m : SetChannelDirect) : Type 0 where
  pub is_direct : m.is_direct < 2 ^ 32

pub set_channel_direct-Sound :
    (m : SetChannelDirect) → SetChannelDirectFits m → Sound set_channel_direct.format m
unfolding set_channel_direct
set_channel_direct-Sound m h =
    RoundTrips-bind _ (Sound-uint 4 m.is_direct h.is_direct) (RoundTrips-done m)

pub record RefreshCapacityPoolsFits (m : RefreshCapacityPools) : Type 0 where
  pub ack_id : length m.ack_id < 2 ^ 32

pub refresh_capacity_pools-Sound :
    (m : RefreshCapacityPools) → RefreshCapacityPoolsFits m → Sound refresh_capacity_pools.format m
unfolding refresh_capacity_pools
refresh_capacity_pools-Sound m h =
    RoundTrips-bind _ (Sound-cstr 0 m.ack_id h.ack_id) (RoundTrips-done m)

abbrev pub GetNodeCapacityPoolsFits : GetNodeCapacityPools → Type 0
GetNodeCapacityPoolsFits m = Unit {0}

pub get_node_capacity_pools-Sound :
    (m : GetNodeCapacityPools) → GetNodeCapacityPoolsFits m → Sound get_node_capacity_pools.format m
unfolding get_node_capacity_pools
get_node_capacity_pools-Sound m h =
    RoundTrips-bind _
      (Sound-int 3 capacity_pool_query_type capacity_pool_query_type-IsWireEnum m.query_type)
      (RoundTrips-done m)
