-- ===== src/Message/Quota/Sound.antt =====
-- Messages on quota (shared/src/bee_msg/quota.rs) come back if their fields
-- are in the range of their types.
use beegfs_rust.Prelude.{◌^◌, ◌<◌, true}
use beegfs_rust.Types.{quota_id_type, quota_type, quota_inode_support}
use beegfs_rust.Types.Laws.{
  quota_id_type-IsWireEnum, quota_type-IsWireEnum, quota_inode_support-IsWireEnum,
}
use beegfs_rust.Serde.Format.Sound.{
  Sound, Sound-uint, Sound-int, UintsFit, Sound-uints, PlainFits, Sound-plain,
}
use beegfs_rust.Serde.RoundTrip.{RoundTrips-bind, RoundTrips-done}
use beegfs_rust.Message.Quota.{
  QuotaEntry, quota_entry, GetQuotaInfoResp, get_quota_info_resp, SetExceededQuota,
  set_exceeded_quota, SetExceededQuotaResp, set_exceeded_quota_resp, RequestExceededQuota,
  request_exceeded_quota, RequestExceededQuotaResp, request_exceeded_quota_resp,
}

pub record QuotaEntryFits (m : QuotaEntry) : Type 0 where
  pub space : m.space < 2 ^ 64
  pub inodes : m.inodes < 2 ^ 64
  pub id : m.id < 2 ^ 32
  pub valid : m.valid < 2 ^ 8

pub quota_entry-Sound : (m : QuotaEntry) → QuotaEntryFits m → Sound quota_entry m
unfolding quota_entry
quota_entry-Sound m h = RoundTrips-bind _ (Sound-uint 8 m.space h.space) (
    RoundTrips-bind _ (Sound-uint 8 m.inodes h.inodes) (
      RoundTrips-bind _ (Sound-uint 4 m.id h.id) (
        RoundTrips-bind _ (Sound-int 3 quota_id_type quota_id_type-IsWireEnum m.id_type)
          (RoundTrips-bind _ (Sound-uint 1 m.valid h.valid) (RoundTrips-done m)))))

pub record GetQuotaInfoRespFits (m : GetQuotaInfoResp) : Type 0 where
  pub quota_entry : PlainFits QuotaEntryFits m.quota_entry

pub get_quota_info_resp-Sound :
    (m : GetQuotaInfoResp) → GetQuotaInfoRespFits m → Sound get_quota_info_resp.format m
unfolding get_quota_info_resp
get_quota_info_resp-Sound m h =
    RoundTrips-bind _
      (Sound-int 3 quota_inode_support quota_inode_support-IsWireEnum m.quota_inode_support)
      (RoundTrips-bind _
        (Sound-plain quota_entry QuotaEntryFits quota_entry-Sound m.quota_entry h.quota_entry)
        (RoundTrips-done m))

pub record SetExceededQuotaFits (m : SetExceededQuota) : Type 0 where
  pub pool_id : m.pool_id < 2 ^ 16
  pub exceeded_quota_ids : UintsFit 4 m.exceeded_quota_ids

pub set_exceeded_quota-Sound :
    (m : SetExceededQuota) → SetExceededQuotaFits m → Sound set_exceeded_quota.format m
unfolding set_exceeded_quota
set_exceeded_quota-Sound m h = RoundTrips-bind _ (Sound-uint 2 m.pool_id h.pool_id) (
    RoundTrips-bind _ (Sound-int 3 quota_id_type quota_id_type-IsWireEnum m.id_type) (
      RoundTrips-bind _ (Sound-int 3 quota_type quota_type-IsWireEnum m.quota_type) (
        RoundTrips-bind _ (Sound-uints true 4 m.exceeded_quota_ids h.exceeded_quota_ids)
          (RoundTrips-done m))))

pub record SetExceededQuotaRespFits (m : SetExceededQuotaResp) : Type 0 where
  pub result : m.result < 2 ^ 32

pub set_exceeded_quota_resp-Sound :
    (m : SetExceededQuotaResp) → SetExceededQuotaRespFits m → Sound set_exceeded_quota_resp.format m
unfolding set_exceeded_quota_resp
set_exceeded_quota_resp-Sound m h =
    RoundTrips-bind _ (Sound-uint 4 m.result h.result) (RoundTrips-done m)

pub record RequestExceededQuotaFits (m : RequestExceededQuota) : Type 0 where
  pub pool_id : m.pool_id < 2 ^ 16
  pub target_id : m.target_id < 2 ^ 16

pub request_exceeded_quota-Sound :
    (m : RequestExceededQuota) → RequestExceededQuotaFits m → Sound request_exceeded_quota.format m
unfolding request_exceeded_quota
request_exceeded_quota-Sound m h =
    RoundTrips-bind _ (Sound-int 3 quota_id_type quota_id_type-IsWireEnum m.id_type) (
      RoundTrips-bind _ (Sound-int 3 quota_type quota_type-IsWireEnum m.quota_type) (
        RoundTrips-bind _ (Sound-uint 2 m.pool_id h.pool_id)
          (RoundTrips-bind _ (Sound-uint 2 m.target_id h.target_id) (RoundTrips-done m))))

pub record RequestExceededQuotaRespFits (m : RequestExceededQuotaResp) : Type 0 where
  pub inner : SetExceededQuotaFits m.inner
  pub result : m.result < 2 ^ 32

pub request_exceeded_quota_resp-Sound :
    (m : RequestExceededQuotaResp)
    → RequestExceededQuotaRespFits m
    → Sound request_exceeded_quota_resp.format m
unfolding request_exceeded_quota_resp
request_exceeded_quota_resp-Sound m h =
    RoundTrips-bind _ (set_exceeded_quota-Sound m.inner h.inner)
      (RoundTrips-bind _ (Sound-uint 4 m.result h.result) (RoundTrips-done m))
