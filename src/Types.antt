-- ===== src/Types.antt =====
-- The enums of shared/src/types.rs and shared/src/bee_msg, and their numbers on the wire
-- (`impl_enum_bee_msg_traits!` of shared/src/impl_macros.rs).
pub mod Laws
use beegfs_rust.Prelude.{
  ℕ, ◌==◌, if◌then◌else◌, Option, none, some, Bool, true, false, List, [], ◌∷◌,
}

-- `into_bee_serde` is one function for every integer type, since all numbers fit a byte.
-- `try_from_bee_serde` fails on all other numbers, and on what is negative as a signed integer.
pub record WireEnum (E : Type 0) : Type 0 where
  pub into_bee_serde : E → ℕ
  pub try_from_bee_serde : ℕ → Option E

-- The `match` of the macro, over the list of its arms.
unfoldable pub from_arms : {E : Type 0} → List (ℕ × E) → ℕ → Option E
from_arms [] n = none
from_arms ((number, variant) ∷ arms) n = if n == number then some variant else from_arms arms n

pub data NodeType : Type 0 where
  meta storage client management : NodeType

unfoldable pub node_type : WireEnum NodeType
unfolding from_arms
node_type = record {
  into_bee_serde = elim [
    | NodeType.meta ↦ 1
    | NodeType.storage ↦ 2
    | NodeType.client ↦ 3
    | NodeType.management ↦ 4
  ];
  try_from_bee_serde = from_arms (
      (1, NodeType.meta)
      ∷ (2, NodeType.storage)
      ∷ (3, NodeType.client)
      ∷ (4, NodeType.management)
      ∷ []);
}

pub data NicType : Type 0 where
  tcp rdma : NicType

unfoldable pub nic_type : WireEnum NicType
unfolding from_arms
nic_type = record {
  into_bee_serde = elim [ NicType.tcp ↦ 0 | NicType.rdma ↦ 2 ];
  try_from_bee_serde = from_arms ((0, NicType.tcp) ∷ (2, NicType.rdma) ∷ []);
}

pub data CapacityPool : Type 0 where
  normal low emergency : CapacityPool

unfoldable pub capacity_pool : WireEnum CapacityPool
unfolding from_arms
capacity_pool = record {
  into_bee_serde = elim [
    | CapacityPool.normal ↦ 0
    | CapacityPool.low ↦ 1
    | CapacityPool.emergency ↦ 2
  ];
  try_from_bee_serde =
      from_arms
        ((0, CapacityPool.normal) ∷ (1, CapacityPool.low) ∷ (2, CapacityPool.emergency) ∷ []);
}

pub data TargetConsistencyState : Type 0 where
  good needs_resync bad : TargetConsistencyState

unfoldable pub target_consistency_state : WireEnum TargetConsistencyState
unfolding from_arms
target_consistency_state = record {
  into_bee_serde = elim [
    | TargetConsistencyState.good ↦ 0
    | TargetConsistencyState.needs_resync ↦ 1
    | TargetConsistencyState.bad ↦ 2
  ];
  try_from_bee_serde = from_arms (
      (0, TargetConsistencyState.good)
      ∷ (1, TargetConsistencyState.needs_resync)
      ∷ (2, TargetConsistencyState.bad)
      ∷ []);
}

pub data QuotaIdType : Type 0 where
  user group : QuotaIdType

unfoldable pub quota_id_type : WireEnum QuotaIdType
unfolding from_arms
quota_id_type = record {
  into_bee_serde = elim [ QuotaIdType.user ↦ 1 | QuotaIdType.group ↦ 2 ];
  try_from_bee_serde = from_arms ((1, QuotaIdType.user) ∷ (2, QuotaIdType.group) ∷ []);
}

pub data QuotaType : Type 0 where
  space inode : QuotaType

unfoldable pub quota_type : WireEnum QuotaType
unfolding from_arms
quota_type = record {
  into_bee_serde = elim [ QuotaType.space ↦ 1 | QuotaType.inode ↦ 2 ];
  try_from_bee_serde = from_arms ((1, QuotaType.space) ∷ (2, QuotaType.inode) ∷ []);
}

pub data TargetReachabilityState : Type 0 where
  online probably_offline offline : TargetReachabilityState

unfoldable pub target_reachability_state : WireEnum TargetReachabilityState
unfolding from_arms
target_reachability_state = record {
  into_bee_serde = elim [
    | TargetReachabilityState.online ↦ 0
    | TargetReachabilityState.probably_offline ↦ 1
    | TargetReachabilityState.offline ↦ 2
  ];
  try_from_bee_serde = from_arms (
      (0, TargetReachabilityState.online)
      ∷ (1, TargetReachabilityState.probably_offline)
      ∷ (2, TargetReachabilityState.offline)
      ∷ []);
}

pub data BuddyResyncJobState : Type 0 where
  not_started running success interrupted failure errors : BuddyResyncJobState

unfoldable pub buddy_resync_job_state : WireEnum BuddyResyncJobState
unfolding from_arms
buddy_resync_job_state = record {
  into_bee_serde = elim [
    | BuddyResyncJobState.not_started ↦ 0
    | BuddyResyncJobState.running ↦ 1
    | BuddyResyncJobState.success ↦ 2
    | BuddyResyncJobState.interrupted ↦ 3
    | BuddyResyncJobState.failure ↦ 4
    | BuddyResyncJobState.errors ↦ 5
  ];
  try_from_bee_serde = from_arms (
      (0, BuddyResyncJobState.not_started)
      ∷ (1, BuddyResyncJobState.running)
      ∷ (2, BuddyResyncJobState.success)
      ∷ (3, BuddyResyncJobState.interrupted)
      ∷ (4, BuddyResyncJobState.failure)
      ∷ (5, BuddyResyncJobState.errors)
      ∷ []);
}

pub data QuotaInodeSupport : Type 0 where
  unknown all_block_devices some_block_devices no_block_devices : QuotaInodeSupport

unfoldable pub quota_inode_support : WireEnum QuotaInodeSupport
unfolding from_arms
quota_inode_support = record {
  into_bee_serde = elim [
    | QuotaInodeSupport.unknown ↦ 0
    | QuotaInodeSupport.all_block_devices ↦ 1
    | QuotaInodeSupport.some_block_devices ↦ 2
    | QuotaInodeSupport.no_block_devices ↦ 3
  ];
  try_from_bee_serde = from_arms (
      (0, QuotaInodeSupport.unknown)
      ∷ (1, QuotaInodeSupport.all_block_devices)
      ∷ (2, QuotaInodeSupport.some_block_devices)
      ∷ (3, QuotaInodeSupport.no_block_devices)
      ∷ []);
}

pub data GetQuotaInfoTransferMethod : Type 0 where
  all_targets_one_request all_targets_one_request_per_target single_target :
      GetQuotaInfoTransferMethod

unfoldable pub get_quota_info_transfer_method : WireEnum GetQuotaInfoTransferMethod
unfolding from_arms
get_quota_info_transfer_method = record {
  into_bee_serde = elim [
    | GetQuotaInfoTransferMethod.all_targets_one_request ↦ 0
    | GetQuotaInfoTransferMethod.all_targets_one_request_per_target ↦ 1
    | GetQuotaInfoTransferMethod.single_target ↦ 2
  ];
  try_from_bee_serde = from_arms (
      (0, GetQuotaInfoTransferMethod.all_targets_one_request)
      ∷ (1, GetQuotaInfoTransferMethod.all_targets_one_request_per_target)
      ∷ (2, GetQuotaInfoTransferMethod.single_target)
      ∷ []);
}

pub data QuotaQueryType : Type 0 where
  nothing single range list all : QuotaQueryType

unfoldable pub quota_query_type : WireEnum QuotaQueryType
unfolding from_arms
quota_query_type = record {
  into_bee_serde = elim [
    | QuotaQueryType.nothing ↦ 0
    | QuotaQueryType.single ↦ 1
    | QuotaQueryType.range ↦ 2
    | QuotaQueryType.list ↦ 3
    | QuotaQueryType.all ↦ 4
  ];
  try_from_bee_serde = from_arms (
      (0, QuotaQueryType.nothing)
      ∷ (1, QuotaQueryType.single)
      ∷ (2, QuotaQueryType.range)
      ∷ (3, QuotaQueryType.list)
      ∷ (4, QuotaQueryType.all)
      ∷ []);
}

pub data CapacityPoolQueryType : Type 0 where
  meta storage meta_mirrored storage_mirrored : CapacityPoolQueryType

unfoldable pub capacity_pool_query_type : WireEnum CapacityPoolQueryType
unfolding from_arms
capacity_pool_query_type = record {
  into_bee_serde = elim [
    | CapacityPoolQueryType.meta ↦ 0
    | CapacityPoolQueryType.storage ↦ 1
    | CapacityPoolQueryType.meta_mirrored ↦ 2
    | CapacityPoolQueryType.storage_mirrored ↦ 3
  ];
  try_from_bee_serde = from_arms (
      (0, CapacityPoolQueryType.meta)
      ∷ (1, CapacityPoolQueryType.storage)
      ∷ (2, CapacityPoolQueryType.meta_mirrored)
      ∷ (3, CapacityPoolQueryType.storage_mirrored)
      ∷ []);
}

-- The types of nodes that own targets.
pub data NodeTypeServer : Type 0 where
  meta storage : NodeTypeServer
