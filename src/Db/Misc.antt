-- ===== src/Db/Misc.antt =====
-- `find_new_id` (mgmtd/src/db/misc.rs). The table is the list of the ids of the given node type.
pub mod NewId
use beegfs_rust.Prelude.{
  ℕ, suc, leb, ltb, ◌==◌, ◌&&◌, ◌||◌, not, if◌then◌else◌, Bool, false, Option, none, some, List, [],
  ◌∷◌,
}
use beegfs_rust.Result.{Result, ok, err, no_free_id}

unfoldable pub member : ℕ → List ℕ → Bool
member n [] = false
member n (i ∷ ids) = (i == n) || member n ids

abbrev pub smaller : ℕ → Option ℕ → Option ℕ
smaller n none = some n
smaller n (some m) = if leb n m then some n else some m

-- `MIN(t1.field) + 1` over the rows that the WHERE clause leaves: no row holds the next id, and that is
-- in the range.
unfoldable pub min_successor : List ℕ → ℕ → ℕ → List ℕ → Option ℕ
unfolding member
min_successor all min max [] = none
min_successor all min max (i ∷ ids) =
    let rest = min_successor all min max ids in
    if not (member (suc i) all) && (leb min (suc i) && leb (suc i) max)
    then smaller (suc i) rest
    else rest

-- `COALESCE`; a NULL in the end is an error when the row is read.
unfoldable pub find_new_id : List ℕ → ℕ → ℕ → Result ℕ
unfolding min_successor
find_new_id ids min max = elim (min_successor ids min max ids) [
  | some n ↦ ok n
  | none ↦ if member min ids then err no_free_id else ok min
]
