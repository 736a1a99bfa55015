-- ===== src/CapPool/MinMaxLaws.antt =====
-- `MinMax` (mgmtd/src/cap_pool.rs) against the minimum and the maximum of the values.
use beegfs_rust.Prelude.{ℕ, ◌-◌, ◌≤◌, ◌<◌, ◌≡◌, refl, List, [], ◌∷◌, All, arith}
use beegfs_rust.Result.{ok}
use beegfs_rust.CapPool.{MinMax, no_values, apply, spread}
use Prim.Native.Nat.{min, max}

-- All values, one after the other.
abbrev pub apply_all : MinMax → List ℕ → MinMax
apply_all m [] = m
apply_all m (v ∷ vs) = apply_all (apply m v) vs

abbrev pub minimum : ℕ → List ℕ → ℕ
minimum v [] = v
minimum v (w ∷ vs) = minimum (min v w) vs

abbrev pub maximum : ℕ → List ℕ → ℕ
maximum v [] = v
maximum v (w ∷ vs) = maximum (max v w) vs

apply_range :
    (lo hi : ℕ) (vs : List ℕ)
    → 0 < lo
    → lo ≤ hi
    → All (λ v. 0 < v) vs
    → apply_all (record { min = lo; max = hi }) vs
      ≡ record { min = minimum lo vs; max = maximum hi vs }
unfolding apply
apply_range lo hi [] p h t = refl
apply_range lo hi (v ∷ vs) p h t = ground (arith, apply_range (min lo v) (max hi v) vs)

-- The difference never goes below zero, in whatever order values come, zeros included.
pub apply_all-ordered :
    (m : MinMax) (vs : List ℕ) → m.min ≤ m.max → (apply_all m vs).min ≤ (apply_all m vs).max
unfolding apply
apply_all-ordered m [] h = h
apply_all-ordered m (v ∷ vs) h = apply_all-ordered (apply m v) vs (ground arith)

-- The width of the range of some values.
abbrev pub width : List ℕ → ℕ
width [] = 0
width (v ∷ vs) = maximum v vs - minimum v vs

-- Of positive values the spread is the difference of their maximum and minimum.
pub spread-apply_all :
    (vs : List ℕ) → All (λ v. 0 < v) vs → spread (apply_all no_values vs) ≡ ok (width vs)
unfolding spread apply
spread-apply_all [] t = refl
spread-apply_all (v ∷ vs) t =
    let one : MinMax = record { min = v; max = v } in
    ground (arith, apply_range v v vs t.0 (omega arith) t.1, apply_all-ordered one vs (omega arith))

-- No sequence of values makes the subtraction of `spread` go below zero.
pub spread-apply_all_total : (vs : List ℕ) → (n : ℕ) × (spread (apply_all no_values vs) ≡ ok n)
unfolding spread
spread-apply_all_total vs =
    let m = apply_all no_values vs in
    (m.max - m.min, ground (arith, apply_all-ordered no_values vs (omega arith)))

-- A first value of zero is forgotten, since a range of zeros counts as empty: with positive values
-- behind it, the spread is the width of those alone, and not their maximum.
pub zero_forgotten :
    (vs : List ℕ) → All (λ v. 0 < v) vs → spread (apply_all no_values (0 ∷ vs)) ≡ ok (width vs)
unfolding apply
zero_forgotten vs t = spread-apply_all vs t
