-- ===== src/CapPool.antt =====
-- Capacity pools of targets and buddy groups (mgmtd/src/cap_pool.rs). Sizes are u64.
pub mod MinMaxLaws
pub mod Classify
pub mod Dynamic
use beegfs_rust.Prelude.{
  ℕ, ◌-◌, ◌==◌, ltb, leb, ◌&&◌, ◌||◌, not, if◌then◌else◌, List, [], ◌∷◌, Option, none, some,
}
use beegfs_rust.Result.{Result, ok, panicked, low_below_emergency, ◌>>=◌, ◌>>◌, ensure}
use beegfs_rust.Types.{CapacityPool}

pub record CapPoolLimits : Type 0 where
  pub inodes_low : ℕ
  pub inodes_emergency : ℕ
  pub space_low : ℕ
  pub space_emergency : ℕ

unfoldable pub check : CapPoolLimits → Result (Unit {0})
check l =
    ensure (not (ltb l.space_low l.space_emergency || ltb l.inodes_low l.inodes_emergency))
      low_below_emergency

pub record CapPoolDynamicLimits : Type 0 where
  pub inodes_normal_threshold : ℕ
  pub inodes_low_threshold : ℕ
  pub space_normal_threshold : ℕ
  pub space_low_threshold : ℕ
  pub inodes_low : ℕ
  pub inodes_emergency : ℕ
  pub space_low : ℕ
  pub space_emergency : ℕ

unfoldable pub check_dynamic : CapPoolDynamicLimits → Result (Unit {0})
check_dynamic l =
    ensure (not (ltb l.space_low l.space_emergency || ltb l.inodes_low l.inodes_emergency))
      low_below_emergency

pub record CapacityInfo : Type 0 where
  pub free_space : ℕ
  pub free_inodes : ℕ

pub record MinMax : Type 0 where
  pub min : ℕ
  pub max : ℕ

-- `MinMax::default`
abbrev pub no_values : MinMax
no_values = record { min = 0; max = 0 }

unfoldable pub apply : MinMax → ℕ → MinMax
apply m v =
    if m.min == 0 && m.max == 0
    then record { min = v; max = v }
    else if ltb v m.min
    then record m { min = v }
    else if ltb m.max v
    then record m { max = v }
    else m

-- A subtraction of u64: it must not go below zero.
unfoldable pub spread : MinMax → Result ℕ
spread m = if leb m.min m.max then ok (m.max - m.min) else panicked

-- The four ranges that `new_dynamic` collects.
pub record Ranges : Type 0 where
  pub normal_space : MinMax
  pub normal_inodes : MinMax
  pub low_space : MinMax
  pub low_inodes : MinMax

abbrev pub no_ranges : Ranges
no_ranges = record {
  normal_space = no_values;
  normal_inodes = no_values;
  low_space = no_values;
  low_inodes = no_values;
}

unfoldable pub collect_one : CapPoolLimits → Ranges → CapacityInfo → Ranges
collect_one limits r e =
    if leb limits.space_low e.free_space && leb limits.inodes_low e.free_inodes
    then record r {
      normal_space = apply r.normal_space e.free_space;
      normal_inodes = apply r.normal_inodes e.free_inodes;
    }
    else if leb limits.space_emergency e.free_space && leb limits.inodes_emergency e.free_inodes
    then record r {
      low_space = apply r.low_space e.free_space;
      low_inodes = apply r.low_inodes e.free_inodes;
    }
    else r

unfoldable pub collect : CapPoolLimits → Ranges → List CapacityInfo → Ranges
collect limits r [] = r
collect limits r (e ∷ values) = collect limits (collect_one limits r e) values

unfoldable pub new_static : CapPoolLimits → Result CapPoolLimits
unfolding check
new_static limits = do check limits; ok limits

-- One assignment after the loop: the dynamic limit replaces the static one if the spread is too wide.
unfoldable pub adjust : MinMax → ℕ → ℕ → ℕ → Result ℕ
unfolding spread
adjust range threshold dynamic static_limit = do
  width ← spread range
  ok (if ltb threshold width then dynamic else static_limit)

unfoldable pub new_dynamic :
    CapPoolLimits → CapPoolDynamicLimits → List CapacityInfo → Result CapPoolLimits
unfolding check check_dynamic collect adjust
new_dynamic limits d values = do
  check limits
  check_dynamic d
  let r = collect limits no_ranges values
  space_low ← adjust r.normal_space d.space_normal_threshold d.space_low limits.space_low
  inodes_low ← adjust r.normal_inodes d.inodes_normal_threshold d.inodes_low limits.inodes_low
  space_emergency ←
      adjust r.low_space d.space_low_threshold d.space_emergency limits.space_emergency
  inodes_emergency ←
      adjust r.low_inodes d.inodes_low_threshold d.inodes_emergency limits.inodes_emergency
  ok (record {
    inodes_low = inodes_low;
    inodes_emergency = inodes_emergency;
    space_low = space_low;
    space_emergency = space_emergency;
  })

-- `CapPoolCalculator` is its limits.
unfoldable pub new :
    CapPoolLimits → Option CapPoolDynamicLimits → List CapacityInfo → Result CapPoolLimits
unfolding new_static new_dynamic
new limits none values = new_static limits
new limits (some d) values = new_dynamic limits d values

unfoldable pub cap_pool : CapPoolLimits → ℕ → ℕ → CapacityPool
cap_pool limits space inodes =
    if leb limits.space_low space && leb limits.inodes_low inodes
    then CapacityPool.normal
    else if leb limits.space_emergency space && leb limits.inodes_emergency inodes
    then CapacityPool.low
    else CapacityPool.emergency
