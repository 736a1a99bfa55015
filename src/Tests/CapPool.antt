-- ===== src/Tests/CapPool.antt =====
-- Concrete runs of the capacity pool calculator (mgmtd/src/cap_pool.rs), with the limits of its tests.
use beegfs_rust.Prelude.{◌&&◌, false, true, ◌≡◌, ◌≤◌, refl, List, [], ◌∷◌, some, ◌⊎◌, arith}
use beegfs_rust.Result.{ok, err, low_below_emergency}
use beegfs_rust.Types.{CapacityPool}
use beegfs_rust.CapPool.{
  CapPoolLimits, CapPoolDynamicLimits, CapacityInfo, check, check_dynamic, spread, no_values,
  new_static, new_dynamic, new, cap_pool,
}
use beegfs_rust.CapPool.MinMaxLaws.{apply_all, width, zero_forgotten, spread-apply_all}
use beegfs_rust.CapPool.Classify.{pool_by, rank, worse, cap_pool-worse, cap_pool_mono}
use beegfs_rust.CapPool.Dynamic.{
  PositiveLimits, chosen, spaces, inodes, new_dynamic-chosen, in_order, dynamic_in_order,
  new-outcome,
}

abbrev limits : CapPoolLimits
limits = record { inodes_low = 70; inodes_emergency = 30; space_low = 70; space_emergency = 30 }

abbrev dynamic_limits : CapPoolDynamicLimits
dynamic_limits = record {
  inodes_normal_threshold = 10;
  inodes_low_threshold = 10;
  space_normal_threshold = 10;
  space_low_threshold = 10;
  inodes_low = 170;
  inodes_emergency = 130;
  space_low = 170;
  space_emergency = 130;
}

-- The values of the test `space_spread`.
abbrev both : List CapacityInfo
both =
    record { free_space = 30; free_inodes = 100 }
    ∷ record { free_space = 41; free_inodes = 100 }
    ∷ record { free_space = 70; free_inodes = 100 }
    ∷ record { free_space = 81; free_inodes = 100 }
    ∷ []

limits_checked : new_static limits ≡ ok limits
unfolding new_static check
limits_checked = refl

dynamic_limits_checked : check_dynamic dynamic_limits ≡ ok tt
unfolding check_dynamic
dynamic_limits_checked = refl

positive_limits : PositiveLimits limits
positive_limits = record { checked = limits_checked; space = omega arith; inodes = omega arith }

cap_pool-worse_example : cap_pool limits 50 100 ≡ worse (pool_by 70 30 50) (pool_by 70 30 100)
cap_pool-worse_example = cap_pool-worse limits 50 100 limits_checked

cap_pool_mono_example : rank (cap_pool limits 100 100) ≤ rank (cap_pool limits 50 20)
cap_pool_mono_example =
    cap_pool_mono limits {space = 50} {inodes = 20} {space' = 100} {inodes' = 100} (omega arith)
      (omega arith)

new_dynamic-chosen_example :
    new_dynamic limits dynamic_limits both
    ≡ ok (record {
      inodes_low = chosen (inodes limits CapacityPool.normal both) 10 170 70;
      inodes_emergency = chosen (inodes limits CapacityPool.low both) 10 130 30;
      space_low = chosen (spaces limits CapacityPool.normal both) 10 170 70;
      space_emergency = chosen (spaces limits CapacityPool.low both) 10 130 30;
    })
new_dynamic-chosen_example =
    new_dynamic-chosen limits dynamic_limits both positive_limits dynamic_limits_checked

-- The test `space_spread`: the limits for space are replaced, those for inodes are kept.
space_spread :
    new_dynamic limits dynamic_limits both
    ≡ ok (record { inodes_low = 70; inodes_emergency = 30; space_low = 170; space_emergency = 130 })
unfolding new_dynamic check check_dynamic cap_pool
space_spread = new_dynamic-chosen_example

new-outcome_example :
    (((in_order limits && dynamic_in_order (some dynamic_limits)) ≡ false)
      × (new limits (some dynamic_limits) both ≡ err low_below_emergency))
    ⊎ (((in_order limits && dynamic_in_order (some dynamic_limits)) ≡ true)
        × ((l' : CapPoolLimits) × (new limits (some dynamic_limits) both ≡ ok l')))
new-outcome_example = new-outcome limits (some dynamic_limits) both

zero_forgotten_example : spread (apply_all no_values (0 ∷ 50 ∷ [])) ≡ ok (width (50 ∷ []))
zero_forgotten_example = zero_forgotten (50 ∷ []) (omega arith, tt)

spread-apply_all_example :
    spread (apply_all no_values (7 ∷ 3 ∷ 9 ∷ [])) ≡ ok (width (7 ∷ 3 ∷ 9 ∷ []))
spread-apply_all_example =
    spread-apply_all (7 ∷ 3 ∷ 9 ∷ []) (omega arith, (omega arith, (omega arith, tt)))
