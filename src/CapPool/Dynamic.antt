-- ===== src/CapPool/Dynamic.antt =====
-- `new_dynamic` (mgmtd/src/cap_pool.rs) against a description by the classified values.
use beegfs_rust.Prelude.{
  ℕ, ◌<◌, ◌≡◌, ◌≢◌, refl, ltb, leb, ◌&&◌, if◌then◌else◌, Bool, true, false, List, [], ◌∷◌, All,
  arith, Option, none, some, ◌⊎◌,
}
use beegfs_rust.Result.{ok, err, low_below_emergency}
use beegfs_rust.Types.{CapacityPool}
use beegfs_rust.CapPool.{
  CapPoolLimits, CapPoolDynamicLimits, CapacityInfo, Ranges, no_values, no_ranges, check,
  check_dynamic, spread, collect_one, collect, adjust, new_static, new_dynamic, new, cap_pool,
}
use beegfs_rust.CapPool.MinMaxLaws.{apply_all, width, spread-apply_all, spread-apply_all_total}

abbrev is_pool : CapacityPool → CapacityPool → Bool
is_pool CapacityPool.normal CapacityPool.normal = true
is_pool CapacityPool.low CapacityPool.low = true
is_pool CapacityPool.emergency CapacityPool.emergency = true
is_pool _ _ = false

-- The entries that the static limits put into the pool `p`.
abbrev pub classified :
    CapPoolLimits → CapacityPool → (CapacityInfo → ℕ) → List CapacityInfo → List ℕ
classified l p value [] = []
classified l p value (e ∷ es) =
    if is_pool p (cap_pool l e.free_space e.free_inodes)
    then value e ∷ classified l p value es
    else classified l p value es

abbrev pub spaces : CapPoolLimits → CapacityPool → List CapacityInfo → List ℕ
spaces l p = classified l p (λ e. e.free_space)

abbrev pub inodes : CapPoolLimits → CapacityPool → List CapacityInfo → List ℕ
inodes l p = classified l p (λ e. e.free_inodes)

-- The four ranges are those of the classified values.
collect_lem :
    (l : CapPoolLimits) (r : Ranges) (es : List CapacityInfo)
    → collect l r es ≡ record {
      normal_space = apply_all r.normal_space (spaces l CapacityPool.normal es);
      normal_inodes = apply_all r.normal_inodes (inodes l CapacityPool.normal es);
      low_space = apply_all r.low_space (spaces l CapacityPool.low es);
      low_inodes = apply_all r.low_inodes (inodes l CapacityPool.low es);
    }
unfolding collect collect_one cap_pool
collect_lem l r [] = refl
collect_lem l r (e ∷ es) = ground (arith, collect_lem l (collect_one l r e) es)

-- The limits are in order and above zero, so that no collected value is zero.
pub record PositiveLimits (l : CapPoolLimits) : Type 0 where
  pub checked : new_static l ≡ ok l
  pub space : 0 < l.space_emergency
  pub inodes : 0 < l.inodes_emergency

module _ {l : CapPoolLimits} (pos : PositiveLimits l) where
  positive_spaces :
      (p : CapacityPool) (es : List CapacityInfo)
      → p ≢ CapacityPool.emergency
      → All (λ v. 0 < v) (spaces l p es)
  unfolding cap_pool new_static check
  positive_spaces p [] h = tt
  positive_spaces CapacityPool.normal (e ∷ es) h =
      ground (arith, pos.checked, pos.space, pos.inodes, positive_spaces CapacityPool.normal es h)
  positive_spaces CapacityPool.low (e ∷ es) h =
      ground (arith, pos.checked, pos.space, pos.inodes, positive_spaces CapacityPool.low es h)
  positive_spaces CapacityPool.emergency (e ∷ es) h = absurd (h refl)

  positive_inodes :
      (p : CapacityPool) (es : List CapacityInfo)
      → p ≢ CapacityPool.emergency
      → All (λ v. 0 < v) (inodes l p es)
  unfolding cap_pool new_static check
  positive_inodes p [] h = tt
  positive_inodes CapacityPool.normal (e ∷ es) h =
      ground (arith, pos.checked, pos.space, pos.inodes, positive_inodes CapacityPool.normal es h)
  positive_inodes CapacityPool.low (e ∷ es) h =
      ground (arith, pos.checked, pos.space, pos.inodes, positive_inodes CapacityPool.low es h)
  positive_inodes CapacityPool.emergency (e ∷ es) h = absurd (h refl)

-- The dynamic limit where the values are spread wider than the threshold, and else the static one.
abbrev pub chosen : List ℕ → ℕ → ℕ → ℕ → ℕ
chosen values threshold dynamic static_limit =
    if ltb threshold (width values) then dynamic else static_limit

-- With checked limits above zero and checked dynamic limits, `new_dynamic` succeeds, and takes a
-- dynamic limit instead of a static one exactly where the values of the pool above that limit (the
-- normal pool for the low limits, the low pool for the emergency limits, as the static limits sort the
-- values) are spread wider than the threshold.
pub new_dynamic-chosen :
    (l : CapPoolLimits) (d : CapPoolDynamicLimits) (es : List CapacityInfo)
    → PositiveLimits l
    → check_dynamic d ≡ ok tt
    → new_dynamic l d es
      ≡ ok (record {
        inodes_low =
            chosen
              (inodes l CapacityPool.normal es)
              d.inodes_normal_threshold
              d.inodes_low
              l.inodes_low;
        inodes_emergency =
            chosen
              (inodes l CapacityPool.low es)
              d.inodes_low_threshold
              d.inodes_emergency
              l.inodes_emergency;
        space_low =
            chosen
              (spaces l CapacityPool.normal es)
              d.space_normal_threshold
              d.space_low
              l.space_low;
        space_emergency =
            chosen
              (spaces l CapacityPool.low es)
              d.space_low_threshold
              d.space_emergency
              l.space_emergency;
      })
unfolding new_dynamic new_static adjust
new_dynamic-chosen l d es pos checked = ground (
  arith,
  pos.checked,
  collect_lem l no_ranges es,
  spread-apply_all _ (positive_spaces pos CapacityPool.normal es (λ e. cc)),
  spread-apply_all _ (positive_inodes pos CapacityPool.normal es (λ e. cc)),
  spread-apply_all _ (positive_spaces pos CapacityPool.low es (λ e. cc)),
  spread-apply_all _ (positive_inodes pos CapacityPool.low es (λ e. cc)),
)

-- The spread of all values.
exact : List ℕ → ℕ
exact vs = (spread-apply_all_total vs).0

exact_lem : (vs : List ℕ) → spread (apply_all no_values vs) ≡ ok (exact vs)
unfolding exact
exact_lem vs = (spread-apply_all_total vs).1

-- No low limit is below its emergency limit.
abbrev pub in_order : CapPoolLimits → Bool
in_order l = leb l.space_emergency l.space_low && leb l.inodes_emergency l.inodes_low

abbrev pub dynamic_in_order : Option CapPoolDynamicLimits → Bool
dynamic_in_order none = true
dynamic_in_order (some d) = leb d.space_emergency d.space_low && leb d.inodes_emergency d.inodes_low

new_dynamic-outcome :
    (l : CapPoolLimits) (d : CapPoolDynamicLimits) (es : List CapacityInfo)
    → (((in_order l && dynamic_in_order (some d)) ≡ false)
        × (new_dynamic l d es ≡ err low_below_emergency))
      ⊎ (((in_order l && dynamic_in_order (some d)) ≡ true)
          × ((l' : CapPoolLimits) × (new_dynamic l d es ≡ ok l')))
unfolding new_dynamic adjust check check_dynamic
new_dynamic-outcome l d es = ground (
  arith,
  collect_lem l no_ranges es,
  exact_lem (spaces l CapacityPool.normal es),
  exact_lem (inodes l CapacityPool.normal es),
  exact_lem (spaces l CapacityPool.low es),
  exact_lem (inodes l CapacityPool.low es),
)

-- A calculator is refused if a low limit, static or dynamic, is below its emergency limit, and made if
-- none is; making it never panics, whatever the values, zeros included.
pub new-outcome :
    (l : CapPoolLimits) (d : Option CapPoolDynamicLimits) (es : List CapacityInfo)
    → (((in_order l && dynamic_in_order d) ≡ false) × (new l d es ≡ err low_below_emergency))
      ⊎ (((in_order l && dynamic_in_order d) ≡ true)
          × ((l' : CapPoolLimits) × (new l d es ≡ ok l')))
unfolding new new_static check
new-outcome l none es = ground arith
new-outcome l (some d) es = new_dynamic-outcome l d es
