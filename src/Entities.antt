-- ===== src/Entities.antt =====
-- Entities: aliases and ids that are unique over all nodes, targets, groups and pools
-- (shared/src/types/entity.rs, mgmtd/src/db/entity.rs). An alias is the list of its bytes.
pub mod Unique
pub mod Lookup
use Prim.Native.Char.{code}
use Prim.Native.String.{String}
use beegfs_rust.Prelude.{
  ℕ, zero, suc, ◌+◌, ◌/◌, ◌%◌, ltb, leb, ◌==◌, ◌&&◌, ◌||◌, not, if◌then◌else◌, Bool, true, false,
  Option, none, some, List, [], ◌∷◌, ◌++◌, length,
}
use beegfs_rust.Result.{
  Result, ok, err, invalid_alias, value_exists, client_update, ◌>>=◌, ◌>>◌, ensure,
}
use beegfs_rust.Types.{NodeType, NodeTypeServer}

pub data EntityType : Type 0 where
  node target buddy_group pool : EntityType

-- The classes of the regular expression of aliases.
abbrev pub is_letter : ℕ → Bool
is_letter c = (leb b'a' c && leb c b'z') || (leb b'A' c && leb c b'Z')

abbrev pub is_alias_char : ℕ → Bool
is_alias_char c =
    is_letter c || ((leb b'0' c && leb c b'9') || (c == b'-' || (c == b'_' || c == b'.')))

unfoldable pub all_alias_chars : List ℕ → Bool
all_alias_chars [] = true
all_alias_chars (c ∷ cs) = is_alias_char c && all_alias_chars cs

-- `^[a-zA-Z][a-zA-Z0-9-_.]+$`: a letter and at least one more character.
unfoldable pub is_match : List ℕ → Bool
unfolding all_alias_chars
is_match [] = false
is_match (c ∷ []) = false
is_match (c ∷ d ∷ cs) = is_letter c && all_alias_chars (d ∷ cs)

-- `TryFrom<String> for Alias`
unfoldable pub try_from : List ℕ → Result (List ℕ)
unfolding is_match
try_from value = do
  ensure (not (ltb 32 (length value))) invalid_alias
  ensure (is_match value) invalid_alias
  ok value

unfoldable pub same_bytes : List ℕ → List ℕ → Bool
same_bytes [] [] = true
same_bytes [] (b ∷ bs) = false
same_bytes (a ∷ as') [] = false
same_bytes (a ∷ as') (b ∷ bs) = a == b && same_bytes as' bs

-- A row of `entities`.
pub record Entity : Type 0 where
  pub uid : ℕ
  pub entity_type : EntityType
  pub alias : List ℕ

-- The table with the counter of its AUTOINCREMENT key.
pub record Entities : Type 0 where
  pub rows : List Entity
  pub next_uid : ℕ

unfoldable pub get_uid : List ℕ → List Entity → Option ℕ
unfolding same_bytes
get_uid alias [] = none
get_uid alias (e ∷ es) = if same_bytes e.alias alias then some e.uid else get_uid alias es

unfoldable pub get_alias : ℕ → List Entity → Option (List ℕ)
get_alias uid [] = none
get_alias uid (e ∷ es) = if e.uid == uid then some e.alias else get_alias uid es

unfoldable pub insert : EntityType → List ℕ → Entities → Result (ℕ × Entities)
unfolding get_uid
insert entity_type alias s = elim (get_uid alias s.rows) [
  | some uid ↦ err value_exists
  | none ↦ ok (
    s.next_uid,
    record {
      rows = record { uid = s.next_uid; entity_type = entity_type; alias = alias } ∷ s.rows;
      next_uid = suc s.next_uid;
    },
  )
]

-- The triggers `auto_delete_entity_after_...` of the schema.
unfoldable pub delete : ℕ → List Entity → List Entity
delete uid [] = []
delete uid (e ∷ es) = let rest = delete uid es in if e.uid == uid then rest else e ∷ rest

-- The closure of the gRPC handler `set_alias`, on the uid and the node type that the entity resolves to.
unfoldable pub rename : ℕ → List ℕ → List Entity → List Entity
rename uid alias [] = []
rename uid alias (e ∷ es) =
    let rest = rename uid alias es in
    if e.uid == uid then record e { alias = alias } ∷ rest else e ∷ rest

abbrev pub is_client : NodeType → Bool
is_client NodeType.client = true
is_client _ = false

unfoldable pub update_alias : ℕ → NodeType → List ℕ → Entities → Result Entities
unfolding get_uid rename
update_alias uid node_type new_alias s = do
  ensure (not (is_client node_type)) client_update
  (elim (get_uid new_alias s.rows) as (λ x. Result Entities) [
    | some used ↦ err value_exists
    | none ↦ ok (record s { rows = rename uid new_alias s.rows })
  ])

-- `format!` of an integer: its decimal digits, on fuel that the number itself exceeds.
unfoldable pub digits : ℕ → ℕ → List ℕ → List ℕ
digits zero n acc = acc
digits (suc fuel) n acc =
    let more = digits fuel (n / 10) ((b'0' + n % 10) ∷ acc) in
    if ltb n 10 then (b'0' + n) ∷ acc else more

abbrev pub decimal : ℕ → List ℕ
decimal n = digits (suc n) n []

-- The bytes of an ASCII text.
abbrev pub codes : String → List ℕ
codes String.[] = []
codes (String.◌∷◌ c s) = code c ∷ codes s

-- `user_str`
abbrev pub user_str : NodeTypeServer → List ℕ
user_str NodeTypeServer.meta = codes "meta"
user_str NodeTypeServer.storage = codes "storage"
