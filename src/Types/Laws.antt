-- ===== src/Types/Laws.antt =====
-- What the enums have in common: a variant's number is read back as the variant, and fits a byte.
use beegfs_rust.Prelude.{ℕ, ◌<◌, ◌≡◌, refl, some, arith}
use beegfs_rust.Types.{
  WireEnum, node_type, nic_type, capacity_pool, target_consistency_state, quota_id_type, quota_type,
  target_reachability_state, buddy_resync_job_state, quota_inode_support,
  get_quota_info_transfer_method, quota_query_type, capacity_pool_query_type, NodeType, NicType,
  CapacityPool, TargetConsistencyState, QuotaIdType, QuotaType, TargetReachabilityState,
  BuddyResyncJobState, QuotaInodeSupport, GetQuotaInfoTransferMethod, QuotaQueryType,
  CapacityPoolQueryType,
}

pub record IsWireEnum {E : Type 0} (w : WireEnum E) : Type 0 where
  pub one_byte : (e : E) → w.into_bee_serde e < 256
  pub read_back : (e : E) → w.try_from_bee_serde (w.into_bee_serde e) ≡ some e
  pub only : (n : ℕ) (e : E) → w.try_from_bee_serde n ≡ some e → n ≡ w.into_bee_serde e

pub node_type-IsWireEnum : IsWireEnum node_type
unfolding node_type
node_type-IsWireEnum = record {
  one_byte = elim [
    | NodeType.meta ↦ omega arith
    | NodeType.storage ↦ omega arith
    | NodeType.client ↦ omega arith
    | NodeType.management ↦ omega arith
  ];
  read_back = elim [
    | NodeType.meta ↦ refl
    | NodeType.storage ↦ refl
    | NodeType.client ↦ refl
    | NodeType.management ↦ refl
  ];
  only = λ n. elim [
    | NodeType.meta ↦ λ h. ground arith
    | NodeType.storage ↦ λ h. ground arith
    | NodeType.client ↦ λ h. ground arith
    | NodeType.management ↦ λ h. ground arith
  ];
}

pub nic_type-IsWireEnum : IsWireEnum nic_type
unfolding nic_type
nic_type-IsWireEnum = record {
  one_byte = elim [ NicType.tcp ↦ omega arith | NicType.rdma ↦ omega arith ];
  read_back = elim [ NicType.tcp ↦ refl | NicType.rdma ↦ refl ];
  only = λ n. elim [ NicType.tcp ↦ λ h. ground arith | NicType.rdma ↦ λ h. ground arith ];
}

pub capacity_pool-IsWireEnum : IsWireEnum capacity_pool
unfolding capacity_pool
capacity_pool-IsWireEnum = record {
  one_byte = elim [
    | CapacityPool.normal ↦ omega arith
    | CapacityPool.low ↦ omega arith
    | CapacityPool.emergency ↦ omega arith
  ];
  read_back = elim [
    | CapacityPool.normal ↦ refl
    | CapacityPool.low ↦ refl
    | CapacityPool.emergency ↦ refl
  ];
  only = λ n. elim [
    | CapacityPool.normal ↦ λ h. ground arith
    | CapacityPool.low ↦ λ h. ground arith
    | CapacityPool.emergency ↦ λ h. ground arith
  ];
}

pub target_consistency_state-IsWireEnum : IsWireEnum target_consistency_state
unfolding target_consistency_state
target_consistency_state-IsWireEnum = record {
  one_byte = elim [
    | TargetConsistencyState.good ↦ omega arith
    | TargetConsistencyState.needs_resync ↦ omega arith
    | TargetConsistencyState.bad ↦ omega arith
  ];
  read_back = elim [
    | TargetConsistencyState.good ↦ refl
    | TargetConsistencyState.needs_resync ↦ refl
    | TargetConsistencyState.bad ↦ refl
  ];
  only = λ n. elim [
    | TargetConsistencyState.good ↦ λ h. ground arith
    | TargetConsistencyState.needs_resync ↦ λ h. ground arith
    | TargetConsistencyState.bad ↦ λ h. ground arith
  ];
}

pub quota_id_type-IsWireEnum : IsWireEnum quota_id_type
unfolding quota_id_type
quota_id_type-IsWireEnum = record {
  one_byte = elim [ QuotaIdType.user ↦ omega arith | QuotaIdType.group ↦ omega arith ];
  read_back = elim [ QuotaIdType.user ↦ refl | QuotaIdType.group ↦ refl ];
  only = λ n. elim [ QuotaIdType.user ↦ λ h. ground arith | QuotaIdType.group ↦ λ h. ground arith ];
}

pub quota_type-IsWireEnum : IsWireEnum quota_type
unfolding quota_type
quota_type-IsWireEnum = record {
  one_byte = elim [ QuotaType.space ↦ omega arith | QuotaType.inode ↦ omega arith ];
  read_back = elim [ QuotaType.space ↦ refl | QuotaType.inode ↦ refl ];
  only = λ n. elim [ QuotaType.space ↦ λ h. ground arith | QuotaType.inode ↦ λ h. ground arith ];
}

pub target_reachability_state-IsWireEnum : IsWireEnum target_reachability_state
unfolding target_reachability_state
target_reachability_state-IsWireEnum = record {
  one_byte = elim [
    | TargetReachabilityState.online ↦ omega arith
    | TargetReachabilityState.probably_offline ↦ omega arith
    | TargetReachabilityState.offline ↦ omega arith
  ];
  read_back = elim [
    | TargetReachabilityState.online ↦ refl
    | TargetReachabilityState.probably_offline ↦ refl
    | TargetReachabilityState.offline ↦ refl
  ];
  only = λ n. elim [
    | TargetReachabilityState.online ↦ λ h. ground arith
    | TargetReachabilityState.probably_offline ↦ λ h. ground arith
    | TargetReachabilityState.offline ↦ λ h. ground arith
  ];
}

pub buddy_resync_job_state-IsWireEnum : IsWireEnum buddy_resync_job_state
unfolding buddy_resync_job_state
buddy_resync_job_state-IsWireEnum = record {
  one_byte = elim [
    | BuddyResyncJobState.not_started ↦ omega arith
    | BuddyResyncJobState.running ↦ omega arith
    | BuddyResyncJobState.success ↦ omega arith
    | BuddyResyncJobState.interrupted ↦ omega arith
    | BuddyResyncJobState.failure ↦ omega arith
    | BuddyResyncJobState.errors ↦ omega arith
  ];
  read_back = elim [
    | BuddyResyncJobState.not_started ↦ refl
    | BuddyResyncJobState.running ↦ refl
    | BuddyResyncJobState.success ↦ refl
    | BuddyResyncJobState.interrupted ↦ refl
    | BuddyResyncJobState.failure ↦ refl
    | BuddyResyncJobState.errors ↦ refl
  ];
  only = λ n. elim [
    | BuddyResyncJobState.not_started ↦ λ h. ground arith
    | BuddyResyncJobState.running ↦ λ h. ground arith
    | BuddyResyncJobState.success ↦ λ h. ground arith
    | BuddyResyncJobState.interrupted ↦ λ h. ground arith
    | BuddyResyncJobState.failure ↦ λ h. ground arith
    | BuddyResyncJobState.errors ↦ λ h. ground arith
  ];
}

pub quota_inode_support-IsWireEnum : IsWireEnum quota_inode_support
unfolding quota_inode_support
quota_inode_support-IsWireEnum = record {
  one_byte = elim [
    | QuotaInodeSupport.unknown ↦ omega arith
    | QuotaInodeSupport.all_block_devices ↦ omega arith
    | QuotaInodeSupport.some_block_devices ↦ omega arith
    | QuotaInodeSupport.no_block_devices ↦ omega arith
  ];
  read_back = elim [
    | QuotaInodeSupport.unknown ↦ refl
    | QuotaInodeSupport.all_block_devices ↦ refl
    | QuotaInodeSupport.some_block_devices ↦ refl
    | QuotaInodeSupport.no_block_devices ↦ refl
  ];
  only = λ n. elim [
    | QuotaInodeSupport.unknown ↦ λ h. ground arith
    | QuotaInodeSupport.all_block_devices ↦ λ h. ground arith
    | QuotaInodeSupport.some_block_devices ↦ λ h. ground arith
    | QuotaInodeSupport.no_block_devices ↦ λ h. ground arith
  ];
}

pub get_quota_info_transfer_method-IsWireEnum : IsWireEnum get_quota_info_transfer_method
unfolding get_quota_info_transfer_method
get_quota_info_transfer_method-IsWireEnum = record {
  one_byte = elim [
    | GetQuotaInfoTransferMethod.all_targets_one_request ↦ omega arith
    | GetQuotaInfoTransferMethod.all_targets_one_request_per_target ↦ omega arith
    | GetQuotaInfoTransferMethod.single_target ↦ omega arith
  ];
  read_back = elim [
    | GetQuotaInfoTransferMethod.all_targets_one_request ↦ refl
    | GetQuotaInfoTransferMethod.all_targets_one_request_per_target ↦ refl
    | GetQuotaInfoTransferMethod.single_target ↦ refl
  ];
  only = λ n. elim [
    | GetQuotaInfoTransferMethod.all_targets_one_request ↦ λ h. ground arith
    | GetQuotaInfoTransferMethod.all_targets_one_request_per_target ↦ λ h. ground arith
    | GetQuotaInfoTransferMethod.single_target ↦ λ h. ground arith
  ];
}

pub quota_query_type-IsWireEnum : IsWireEnum quota_query_type
unfolding quota_query_type
quota_query_type-IsWireEnum = record {
  one_byte = elim [
    | QuotaQueryType.nothing ↦ omega arith
    | QuotaQueryType.single ↦ omega arith
    | QuotaQueryType.range ↦ omega arith
    | QuotaQueryType.list ↦ omega arith
    | QuotaQueryType.all ↦ omega arith
  ];
  read_back = elim [
    | QuotaQueryType.nothing ↦ refl
    | QuotaQueryType.single ↦ refl
    | QuotaQueryType.range ↦ refl
    | QuotaQueryType.list ↦ refl
    | QuotaQueryType.all ↦ refl
  ];
  only = λ n. elim [
    | QuotaQueryType.nothing ↦ λ h. ground arith
    | QuotaQueryType.single ↦ λ h. ground arith
    | QuotaQueryType.range ↦ λ h. ground arith
    | QuotaQueryType.list ↦ λ h. ground arith
    | QuotaQueryType.all ↦ λ h. ground arith
  ];
}

pub capacity_pool_query_type-IsWireEnum : IsWireEnum capacity_pool_query_type
unfolding capacity_pool_query_type
capacity_pool_query_type-IsWireEnum = record {
  one_byte = elim [
    | CapacityPoolQueryType.meta ↦ omega arith
    | CapacityPoolQueryType.storage ↦ omega arith
    | CapacityPoolQueryType.meta_mirrored ↦ omega arith
    | CapacityPoolQueryType.storage_mirrored ↦ omega arith
  ];
  read_back = elim [
    | CapacityPoolQueryType.meta ↦ refl
    | CapacityPoolQueryType.storage ↦ refl
    | CapacityPoolQueryType.meta_mirrored ↦ refl
    | CapacityPoolQueryType.storage_mirrored ↦ refl
  ];
  only = λ n. elim [
    | CapacityPoolQueryType.meta ↦ λ h. ground arith
    | CapacityPoolQueryType.storage ↦ λ h. ground arith
    | CapacityPoolQueryType.meta_mirrored ↦ λ h. ground arith
    | CapacityPoolQueryType.storage_mirrored ↦ λ h. ground arith
  ];
}
