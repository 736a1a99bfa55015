-- ===== src/Db/Tables.antt =====
-- The tables of targets and buddy groups (mgmtd/src/db/schema/1.sql) and the views that join them. A
-- time is a number of seconds, as UNIXEPOCH gives it. Columns that no modelled query reads are left out.
use beegfs_rust.Prelude.{ℕ, ◌==◌, ◌&&◌, if◌then◌else◌, Bool, Option, none, some, List, [], ◌∷◌}
use beegfs_rust.Result.{Result, row_count, ensure}
use beegfs_rust.Types.{NodeType, NodeTypeServer, TargetConsistencyState}

-- The four columns, each NULL where there is no information.
pub record TargetCapacities : Type 0 where
  pub total_space : Option ℕ
  pub total_inodes : Option ℕ
  pub free_space : Option ℕ
  pub free_inodes : Option ℕ

abbrev pub no_capacities : TargetCapacities
no_capacities = record {
  total_space = none;
  total_inodes = none;
  free_space = none;
  free_inodes = none;
}

pub record Target : Type 0 where
  pub target_uid : ℕ
  pub node_type : NodeTypeServer
  pub target_id : ℕ
  pub node_id : Option ℕ
  pub pool_id : Option ℕ
  pub consistency : TargetConsistencyState
  pub last_update : ℕ
  pub reg_token : Option (List ℕ)
  pub capacities : TargetCapacities

pub record BuddyGroup : Type 0 where
  pub group_uid : ℕ
  pub node_type : NodeTypeServer
  pub group_id : ℕ
  pub p_target_id : ℕ
  pub s_target_id : ℕ
  pub pool_id : Option ℕ

pub record Node : Type 0 where
  pub node_uid : ℕ
  pub node_type : NodeType
  pub node_id : ℕ
  pub last_contact : ℕ

-- `sql_variant`
abbrev pub sql_variant : NodeTypeServer → ℕ
sql_variant NodeTypeServer.meta = 1
sql_variant NodeTypeServer.storage = 2

abbrev pub node_sql_variant : NodeType → ℕ
node_sql_variant NodeType.meta = 1
node_sql_variant NodeType.storage = 2
node_sql_variant NodeType.client = 3
node_sql_variant NodeType.management = 4

-- The rows with a given node type and id, the key of both tables.
abbrev pub has_target_id : NodeTypeServer → ℕ → Target → Bool
has_target_id ty i t = sql_variant t.node_type == sql_variant ty && t.target_id == i

abbrev pub has_group_id : NodeTypeServer → ℕ → BuddyGroup → Bool
has_group_id ty i g = sql_variant g.node_type == sql_variant ty && g.group_id == i

-- A join on the key of `targets`: at most one row matches.
unfoldable pub find_target : NodeTypeServer → ℕ → List Target → Option Target
find_target ty i [] = none
find_target ty i (t ∷ ts) = if has_target_id ty i t then some t else find_target ty i ts

-- `check_affected_rows(affected, [1])`
unfoldable pub check_affected_rows : ℕ → Result (Unit {0})
check_affected_rows affected = ensure (affected == 1) row_count
