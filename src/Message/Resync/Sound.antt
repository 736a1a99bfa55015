-- ===== src/Message/Resync/Sound.antt =====
-- Messages on the resync of buddies (shared/src/bee_msg/buddy_group.rs) come back if their fields
-- are in the range of their types.
use beegfs_rust.Prelude.{◌^◌, ◌<◌}
use beegfs_rust.Types.{buddy_resync_job_state}
use beegfs_rust.Types.Laws.{buddy_resync_job_state-IsWireEnum}
use beegfs_rust.Serde.Format.Sound.{Sound, Sound-uint, Sound-int}
use beegfs_rust.Serde.RoundTrip.{RoundTrips-bind, RoundTrips-done}
use beegfs_rust.Message.Resync.{
  SetLastBuddyCommOverride, set_last_buddy_comm_override, SetLastBuddyCommOverrideResp,
  set_last_buddy_comm_override_resp, GetStorageResyncStats, get_storage_resync_stats,
  GetStorageResyncStatsResp, get_storage_resync_stats_resp, GetMetaResyncStats,
  get_meta_resync_stats, GetMetaResyncStatsResp, get_meta_resync_stats_resp,
}

pub record SetLastBuddyCommOverrideFits (m : SetLastBuddyCommOverride) : Type 0 where
  pub target_id : m.target_id < 2 ^ 16
  pub timestamp : m.timestamp < 2 ^ 64
  pub abort_resync : m.abort_resync < 2 ^ 8

pub set_last_buddy_comm_override-Sound :
    (m : SetLastBuddyCommOverride)
    → SetLastBuddyCommOverrideFits m
    → Sound set_last_buddy_comm_override.format m
unfolding set_last_buddy_comm_override
set_last_buddy_comm_override-Sound m h = RoundTrips-bind _ (Sound-uint 2 m.target_id h.target_id) (
    RoundTrips-bind _ (Sound-uint 8 m.timestamp h.timestamp)
      (RoundTrips-bind _ (Sound-uint 1 m.abort_resync h.abort_resync) (RoundTrips-done m)))

pub record SetLastBuddyCommOverrideRespFits (m : SetLastBuddyCommOverrideResp) : Type 0 where
  pub result : m.result < 2 ^ 32

pub set_last_buddy_comm_override_resp-Sound :
    (m : SetLastBuddyCommOverrideResp)
    → SetLastBuddyCommOverrideRespFits m
    → Sound set_last_buddy_comm_override_resp.format m
unfolding set_last_buddy_comm_override_resp
set_last_buddy_comm_override_resp-Sound m h =
    RoundTrips-bind _ (Sound-uint 4 m.result h.result) (RoundTrips-done m)

pub record GetStorageResyncStatsFits (m : GetStorageResyncStats) : Type 0 where
  pub target_id : m.target_id < 2 ^ 16

pub get_storage_resync_stats-Sound :
    (m : GetStorageResyncStats)
    → GetStorageResyncStatsFits m
    → Sound get_storage_resync_stats.format m
unfolding get_storage_resync_stats
get_storage_resync_stats-Sound m h =
    RoundTrips-bind _ (Sound-uint 2 m.target_id h.target_id) (RoundTrips-done m)

pub record GetStorageResyncStatsRespFits (m : GetStorageResyncStatsResp) : Type 0 where
  pub start_time : m.start_time < 2 ^ 64
  pub end_time : m.end_time < 2 ^ 64
  pub discovered_files : m.discovered_files < 2 ^ 64
  pub discovered_dirs : m.discovered_dirs < 2 ^ 64
  pub matched_files : m.matched_files < 2 ^ 64
  pub matched_dirs : m.matched_dirs < 2 ^ 64
  pub synced_files : m.synced_files < 2 ^ 64
  pub synced_dirs : m.synced_dirs < 2 ^ 64
  pub error_files : m.error_files < 2 ^ 64
  pub error_dirs : m.error_dirs < 2 ^ 64

pub get_storage_resync_stats_resp-Sound :
    (m : GetStorageResyncStatsResp)
    → GetStorageResyncStatsRespFits m
    → Sound get_storage_resync_stats_resp.format m
unfolding get_storage_resync_stats_resp
get_storage_resync_stats_resp-Sound m h =
    RoundTrips-bind _ (Sound-int 3 buddy_resync_job_state buddy_resync_job_state-IsWireEnum m.state)
      (RoundTrips-bind _ (Sound-uint 8 m.start_time h.start_time) (
        RoundTrips-bind _ (Sound-uint 8 m.end_time h.end_time) (
          RoundTrips-bind _ (Sound-uint 8 m.discovered_files h.discovered_files) (
            RoundTrips-bind _ (Sound-uint 8 m.discovered_dirs h.discovered_dirs) (
              RoundTrips-bind _ (Sound-uint 8 m.matched_files h.matched_files) (
                RoundTrips-bind _ (Sound-uint 8 m.matched_dirs h.matched_dirs) (
                  RoundTrips-bind _ (Sound-uint 8 m.synced_files h.synced_files) (
                    RoundTrips-bind _ (Sound-uint 8 m.synced_dirs h.synced_dirs) (
                      RoundTrips-bind _ (Sound-uint 8 m.error_files h.error_files) (
                        RoundTrips-bind _ (Sound-uint 8 m.error_dirs h.error_dirs)
                          (RoundTrips-done m)))))))))))

pub record GetMetaResyncStatsFits (m : GetMetaResyncStats) : Type 0 where
  pub target_id : m.target_id < 2 ^ 16

pub get_meta_resync_stats-Sound :
    (m : GetMetaResyncStats) → GetMetaResyncStatsFits m → Sound get_meta_resync_stats.format m
unfolding get_meta_resync_stats
get_meta_resync_stats-Sound m h =
    RoundTrips-bind _ (Sound-uint 2 m.target_id h.target_id) (RoundTrips-done m)

pub record GetMetaResyncStatsRespFits (m : GetMetaResyncStatsResp) : Type 0 where
  pub start_time : m.start_time < 2 ^ 64
  pub end_time : m.end_time < 2 ^ 64
  pub discovered_dirs : m.discovered_dirs < 2 ^ 64
  pub gather_errors : m.gather_errors < 2 ^ 64
  pub synced_dirs : m.synced_dirs < 2 ^ 64
  pub synced_files : m.synced_files < 2 ^ 64
  pub error_dirs : m.error_dirs < 2 ^ 64
  pub error_files : m.error_files < 2 ^ 64
  pub sessions_to_sync : m.sessions_to_sync < 2 ^ 64
  pub synced_sessions : m.synced_sessions < 2 ^ 64
  pub session_sync_errors : m.session_sync_errors < 2 ^ 8
  pub mod_objects_synced : m.mod_objects_synced < 2 ^ 64
  pub mod_sync_errors : m.mod_sync_errors < 2 ^ 64

pub get_meta_resync_stats_resp-Sound :
    (m : GetMetaResyncStatsResp)
    → GetMetaResyncStatsRespFits m
    → Sound get_meta_resync_stats_resp.format m
unfolding get_meta_resync_stats_resp
get_meta_resync_stats_resp-Sound m h =
    RoundTrips-bind _ (Sound-int 3 buddy_resync_job_state buddy_resync_job_state-IsWireEnum m.state)
      (RoundTrips-bind _ (Sound-uint 8 m.start_time h.start_time) (
        RoundTrips-bind _ (Sound-uint 8 m.end_time h.end_time) (
          RoundTrips-bind _ (Sound-uint 8 m.discovered_dirs h.discovered_dirs) (
            RoundTrips-bind _ (Sound-uint 8 m.gather_errors h.gather_errors) (
              RoundTrips-bind _ (Sound-uint 8 m.synced_dirs h.synced_dirs) (
                RoundTrips-bind _ (Sound-uint 8 m.synced_files h.synced_files) (
                  RoundTrips-bind _ (Sound-uint 8 m.error_dirs h.error_dirs) (
                    RoundTrips-bind _ (Sound-uint 8 m.error_files h.error_files) (
                      RoundTrips-bind _ (Sound-uint 8 m.sessions_to_sync h.sessions_to_sync) (
                        RoundTrips-bind _ (Sound-uint 8 m.synced_sessions h.synced_sessions) (
                          RoundTrips-bind _
                            (Sound-uint 1 m.session_sync_errors h.session_sync_errors)
                            (RoundTrips-bind _
                              (Sound-uint 8 m.mod_objects_synced h.mod_objects_synced)
                              (RoundTrips-bind _ (Sound-uint 8 m.mod_sync_errors h.mod_sync_errors)
                                (RoundTrips-done m))))))))))))))
