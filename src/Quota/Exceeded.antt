-- ===== src/Quota/Exceeded.antt =====
-- The exceeded ids: the query and the messages of `distribute_exceeded` (mgmtd/src/quota.rs), and the
-- handler of `RequestExceededQuota` (mgmtd/src/bee_msg/request_exceeded_quota.rs).
use beegfs_rust.Prelude.{
  ℕ, ◌+◌, ◌^◌, ltb, ◌==◌, ◌&&◌, ◌||◌, not, if◌then◌else◌, Bool, true, false, Option, none, some,
  List, [], ◌∷◌, ◌++◌, map,
}
use beegfs_rust.Result.{Result, ok, sum_overflow, ◌>>=◌, ◌>>◌, ensure}
use beegfs_rust.Types.{NodeTypeServer, QuotaIdType, QuotaType}
use beegfs_rust.Message.Quota.{SetExceededQuota, RequestExceededQuota}
use beegfs_rust.Db.Tables.{Target, find_target}
use beegfs_rust.Db.Changes.{storage_pool_of}
use beegfs_rust.Quota.Tables.{DefaultLimit, Limit, Usage, id_variant, quota_variant}

-- A key of the GROUP BY.
pub record GroupKey : Type 0 where
  pub quota_id : ℕ
  pub id_type : QuotaIdType
  pub quota_type : QuotaType
  pub pool_id : Option ℕ

abbrev pub equal_pools : Option ℕ → Option ℕ → Bool
equal_pools none none = true
equal_pools (some p) (some q) = p == q
equal_pools _ _ = false

abbrev pub same_key : GroupKey → GroupKey → Bool
same_key a b =
    a.quota_id == b.quota_id
    && (id_variant a.id_type == id_variant b.id_type
        && (quota_variant a.quota_type == quota_variant b.quota_type
            && equal_pools a.pool_id b.pool_id))

-- The inner join with `targets`.
unfoldable pub joined_rows : List Target → List Usage → List (GroupKey × ℕ)
unfolding find_target
joined_rows targets [] = []
joined_rows targets (u ∷ us) =
    let rest = joined_rows targets us in
    elim (find_target NodeTypeServer.storage u.target_id targets) [
      | none ↦ rest
      | some t ↦
          (
            record {
              quota_id = u.quota_id;
              id_type = u.id_type;
              quota_type = u.quota_type;
              pool_id = t.pool_id;
            },
            u.value,
          )
          ∷ rest
    ]

unfoldable pub sum_of : GroupKey → List (GroupKey × ℕ) → ℕ
sum_of k [] = 0
sum_of k (r ∷ rows) = let rest = sum_of k rows in if same_key r.0 k then r.1 + rest else rest

-- `COALESCE(l.value, d.value)`; the joins are on the keys of the tables of limits.
unfoldable pub find_limit : GroupKey → List Limit → Option ℕ
find_limit k [] = none
find_limit k (l ∷ ls) =
    if l.quota_id == k.quota_id
      && (id_variant l.id_type == id_variant k.id_type
          && (quota_variant l.quota_type == quota_variant k.quota_type
              && equal_pools (some l.pool_id) k.pool_id))
    then some l.value
    else find_limit k ls

unfoldable pub find_default : GroupKey → List DefaultLimit → Option ℕ
find_default k [] = none
find_default k (d ∷ ds) =
    if id_variant d.id_type == id_variant k.id_type
      && (quota_variant d.quota_type == quota_variant k.quota_type
          && equal_pools (some d.pool_id) k.pool_id)
    then some d.value
    else find_default k ds

pub record Limits : Type 0 where
  pub limits : List Limit
  pub defaults : List DefaultLimit

unfoldable pub limit_of : GroupKey → Limits → Option ℕ
unfolding find_limit find_default
limit_of k ls = elim (find_limit k ls.limits) as (λ x. Option ℕ) [
  | some v ↦ some v
  | none ↦ find_default k ls.defaults
]

-- The HAVING clause: a comparison with NULL is not true.
unfoldable pub exceeds : Limits → List (GroupKey × ℕ) → GroupKey → Bool
unfolding limit_of sum_of
exceeds ls rows k = elim (limit_of k ls) as (λ x. Bool) [
  | none ↦ false
  | some l ↦ ltb l (sum_of k rows)
]

-- `SUM` of integers raises an error when it leaves `i64`.
unfoldable pub sums_fit : List (GroupKey × ℕ) → List (GroupKey × ℕ) → Bool
unfolding sum_of
sums_fit all [] = true
sums_fit all (r ∷ rows) = ltb (sum_of r.0 all) (2 ^ 63) && sums_fit all rows

-- The groups, each once. SQLite gives them in an order of its own.
unfoldable pub has_key : GroupKey → List (GroupKey × ℕ) → Bool
has_key k [] = false
has_key k (r ∷ rows) = same_key r.0 k || has_key k rows

unfoldable pub exceeding : Limits → List (GroupKey × ℕ) → List (GroupKey × ℕ) → List GroupKey
unfolding has_key exceeds
exceeding ls all [] = []
exceeding ls all (r ∷ rows) =
    let rest = exceeding ls all rows in
    if not (has_key r.0 rows) && exceeds ls all r.0 then r.0 ∷ rest else rest

unfoldable pub exceeded_keys : Limits → List (GroupKey × ℕ) → Result (List GroupKey)
unfolding exceeding sums_fit
exceeded_keys ls rows = do ensure (sums_fit rows rows) sum_overflow; ok (exceeding ls rows rows)

-- An empty message for each combination.
abbrev pub empty_message : ℕ → QuotaIdType → QuotaType → SetExceededQuota
empty_message pool id_type quota_type = record {
  pool_id = pool;
  id_type = id_type;
  quota_type = quota_type;
  exceeded_quota_ids = [];
}

unfoldable pub empty_messages : List ℕ → List SetExceededQuota
empty_messages [] = []
empty_messages (pool ∷ pools) =
    empty_message pool QuotaIdType.user QuotaType.space
    ∷ empty_message pool QuotaIdType.user QuotaType.inode
    ∷ empty_message pool QuotaIdType.group QuotaType.space
    ∷ empty_message pool QuotaIdType.group QuotaType.inode
    ∷ empty_messages pools

abbrev pub belongs : GroupKey → SetExceededQuota → Bool
belongs k m =
    equal_pools k.pool_id (some m.pool_id)
    && (id_variant k.id_type == id_variant m.id_type
        && quota_variant k.quota_type == quota_variant m.quota_type)

-- The first message that matches takes the id.
unfoldable pub push_id : GroupKey → List SetExceededQuota → List SetExceededQuota
push_id k [] = []
push_id k (m ∷ msges) =
    if belongs k m
    then record m { exceeded_quota_ids = m.exceeded_quota_ids ++ (k.quota_id ∷ []) } ∷ msges
    else m ∷ push_id k msges

unfoldable pub fill : List GroupKey → List SetExceededQuota → List SetExceededQuota
unfolding push_id
fill [] msges = msges
fill (k ∷ ks) msges = fill ks (push_id k msges)

-- The transaction of `distribute_exceeded`: the messages.
unfoldable pub exceeded_messages :
    Bool → List ℕ → List Target → List Usage → Limits → Result (List SetExceededQuota)
unfolding empty_messages joined_rows exceeded_keys fill
exceeded_messages quota_licensed pools targets usages ls =
    if quota_licensed
    then (do
      keys ← exceeded_keys ls (joined_rows targets usages)
      ok (fill keys (empty_messages pools)))
    else ok (empty_messages pools)

-- The rows that the WHERE clause of the request leaves.
unfoldable pub selected_rows :
    QuotaIdType → QuotaType → ℕ → List (GroupKey × ℕ) → List (GroupKey × ℕ)
selected_rows id_type quota_type pool [] = []
selected_rows id_type quota_type pool (r ∷ rows) =
    let rest = selected_rows id_type quota_type pool rows in
    if belongs r.0 (record {
      pool_id = pool;
      id_type = id_type;
      quota_type = quota_type;
      exceeded_quota_ids = [];
    })
    then r ∷ rest
    else rest

-- The handler of `RequestExceededQuota`, once the licence is verified.
unfoldable pub request_exceeded :
    RequestExceededQuota → List Target → List Usage → Limits → Result SetExceededQuota
unfolding storage_pool_of joined_rows selected_rows exceeded_keys
request_exceeded self targets usages ls = do
  pool ← (if self.pool_id == 0 then storage_pool_of self.target_id targets else ok self.pool_id)
  keys ←
      exceeded_keys ls
        (selected_rows self.id_type self.quota_type pool (joined_rows targets usages))
  ok (record {
    pool_id = self.pool_id;
    id_type = self.id_type;
    quota_type = self.quota_type;
    exceeded_quota_ids = map (λ k. k.quota_id) keys;
  })
