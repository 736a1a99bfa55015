-- ===== src/Quota/Update.antt =====
-- `fetch_and_update` (mgmtd/src/quota.rs): the rows of a target that was read without an error.
use beegfs_rust.Prelude.{
  ℕ, ltb, ◌==◌, if◌then◌else◌, Bool, true, false, ◌≢◌, Bool-cases, inl, inr, List, [], ◌∷◌, ◌++◌,
  ◌≡◌, refl, sym, ap, ◌∙◌, arith, append_assoc, append-nil,
}
use beegfs_rust.Result.{Result, ok, ◌>>=◌, both_ok}
use beegfs_rust.Types.{QuotaType}
use beegfs_rust.Message.Quota.{QuotaEntry}
use beegfs_rust.Db.Tables.{Target}
use beegfs_rust.Quota.Tables.{
  Usage, without_usage, insert_usage, usage_of, insert_entries, update_usage,
}

-- What an entry says of a target: a row for each value that is not zero.
abbrev pub reported_rows : ℕ → List QuotaEntry → List Usage
reported_rows target_id [] = []
reported_rows target_id (e ∷ entries) =
    (if ltb 0 e.space then usage_of target_id QuotaType.space e.space e ∷ [] else [])
    ++ (if ltb 0 e.inodes then usage_of target_id QuotaType.inode e.inodes e ∷ [] else [])
    ++ reported_rows target_id entries

inserted :
    (targets : List Target) (n : Usage) (us : List Usage) {us' : List Usage}
    → insert_usage targets n us ≡ ok us'
    → us' ≡ us ++ (n ∷ [])
unfolding insert_usage
inserted targets n us e = ground (arith, e)

abbrev one_row : Bool → Usage → List Usage
one_row b n = if b then n ∷ [] else []

inserted_if :
    (targets : List Target) (b : Bool) (n : Usage) (us : List Usage) {us' : List Usage}
    → (if b then insert_usage targets n us else ok us) ≡ ok us'
    → us' ≡ us ++ one_row b n
inserted_if targets true n us e = inserted targets n us e
inserted_if targets false n us {us' = us'} e =
    let same : us ≡ us' = ground (arith, e) in sym same ∙ sym (append-nil us)

entries_inserted :
    (targets : List Target) (target_id : ℕ) (entries : List QuotaEntry) (us : List Usage)
    {us' : List Usage}
    → insert_entries targets target_id entries us ≡ ok us'
    → us' ≡ us ++ reported_rows target_id entries
unfolding insert_entries
entries_inserted targets target_id [] us {us' = us'} e =
    let same : us ≡ us' = ground (arith, e) in sym same ∙ sym (append-nil us)
entries_inserted targets target_id (e ∷ entries) us {us' = us'} p =
    let space_row : Usage = usage_of target_id QuotaType.space e.space e in
    let inode_row : Usage = usage_of target_id QuotaType.inode e.inodes e in
    let first : Result (List Usage) =
      if ltb 0 e.space then insert_usage targets space_row us else ok us in
    let second : List Usage → Result (List Usage) =
      λ u. if ltb 0 e.inodes then insert_usage targets inode_row u else ok u in
    let (u1, (a, p1)) =
      both_ok first (λ u. second u >>= λ v. insert_entries targets target_id entries v) us' p in
    let (u2, (b, p2)) =
      both_ok (second u1) (λ v. insert_entries targets target_id entries v) us' p1 in
    let is1 : u1 ≡ us ++ one_row (ltb 0 e.space) space_row =
      inserted_if targets (ltb 0 e.space) space_row us a in
    let is2 : u2 ≡ u1 ++ one_row (ltb 0 e.inodes) inode_row =
      inserted_if targets (ltb 0 e.inodes) inode_row u1 b in
    let is3 = entries_inserted targets target_id entries u2 p2 in
    let s = one_row (ltb 0 e.space) space_row in
    let i = one_row (ltb 0 e.inodes) inode_row in
    let r = reported_rows target_id entries in
    is3
    ∙ ap (λ x. x ++ r) (is2 ∙ ap (λ x. x ++ i) is1)
    ∙ (rw (append_assoc us s i, append_assoc us (s ++ i) r) refl)

-- The rows of a target.
abbrev pub rows_of : ℕ → List Usage → List Usage
rows_of target_id [] = []
rows_of target_id (u ∷ us) =
    if target_id == u.target_id then u ∷ rows_of target_id us else rows_of target_id us

rows_of-append : (i : ℕ) (us vs : List Usage) → rows_of i (us ++ vs) ≡ rows_of i us ++ rows_of i vs
rows_of-append i [] vs = refl
rows_of-append i (u ∷ us) vs = ground (arith, rows_of-append i us vs)

rows_of-without_usage : (i : ℕ) (us : List Usage) → rows_of i (without_usage i us) ≡ []
unfolding without_usage
rows_of-without_usage i [] = refl
rows_of-without_usage i (u ∷ us) = ground (arith, rows_of-without_usage i us)

rows_of-without_usage_other :
    (i j : ℕ) (us : List Usage) → i ≢ j → rows_of i (without_usage j us) ≡ rows_of i us
unfolding without_usage
rows_of-without_usage_other i j [] h = refl
rows_of-without_usage_other i j (u ∷ us) h =
    let rest = rows_of-without_usage_other i j us h in
    elim (Bool-cases (u.target_id == j)) [
      | inl p ↦ let away : (i == u.target_id) ≡ false = ground (arith, h, p) in rw (p, away) rest
      | inr p ↦ ground (arith, p, rest)
    ]

reported_own :
    (i : ℕ) (entries : List QuotaEntry)
    → rows_of i (reported_rows i entries) ≡ reported_rows i entries
reported_own i [] = refl
reported_own i (e ∷ entries) = ground (arith, reported_own i entries)

reported_other :
    (i j : ℕ) (entries : List QuotaEntry) → i ≢ j → rows_of i (reported_rows j entries) ≡ []
reported_other i j [] h = refl
reported_other i j (e ∷ entries) h =
    let away : (i == j) ≡ false = ground (arith, h) in
    ground (arith, away, reported_other i j entries h)

-- When users and groups of a target were both read and the rows could be written, the rows of the target
-- are exactly one for each reported value that is not zero, so those of ids that are no longer reported
-- are gone, and every other target has the rows that it had before.
pub update_usage-reported_rows :
    (targets : List Target) (target_id other : ℕ) (users groups : List QuotaEntry) (us : List Usage)
    {us' : List Usage}
    → other ≢ target_id
    → update_usage targets target_id (ok users) (ok groups) us ≡ ok us'
    → (rows_of target_id us' ≡ reported_rows target_id (users ++ groups))
      × (rows_of other us' ≡ rows_of other us)
unfolding update_usage
update_usage-reported_rows targets target_id other users groups us {us' = us'} h e =
    let kept = without_usage target_id us in
    let new = reported_rows target_id (users ++ groups) in
    let whole = entries_inserted targets target_id (users ++ groups) kept e in
    (
      ap (rows_of target_id) whole
          ∙ rows_of-append target_id kept new
          ∙ (rw (rows_of-without_usage target_id us) (reported_own target_id (users ++ groups))),
      ap (rows_of other) whole
          ∙ rows_of-append other kept new
          ∙ (rw (reported_other other target_id (users ++ groups) h)
              (append-nil (rows_of other kept) ∙ rows_of-without_usage_other other target_id us h)),
    )
