-- ===== src/Serde/Format.antt =====
-- `Serializable` and `Deserializable` of one type together, and the helpers that the derive macro is
-- told to use for a field: `Int`, `Seq`, `Map`, `CStr` (shared/src/bee_serde.rs). A signed integer is its
-- two's complement bit pattern.
pub mod Sound
use beegfs_rust.Prelude.{ℕ, Bool, List, Option, none, some}
use beegfs_rust.Result.{invalid_value}
use beegfs_rust.Types.{WireEnum}
use beegfs_rust.Serde.Serializer.{Ser}
use beegfs_rust.Serde.Serializer
use beegfs_rust.Serde.Deserializer.{Des, ◌>>=◌, pure, fail}
use beegfs_rust.Serde.Deserializer

pub record Format (A : Type 0) : Type 0 where
  pub serialize : A → Ser
  pub deserialize : Des A

abbrev pub put : {A : Type 0} → Format A → A → Ser
put f a = f.serialize a

abbrev pub get : {A : Type 0} → Format A → Des A
get f = f.deserialize

-- `impl_traits_for_primitive!`, by the number of bytes.
unfoldable pub uint : ℕ → Format ℕ
uint k = record { serialize = Serializer.uint k; deserialize = Deserializer.uint k }

abbrev pub u8 : Format ℕ
u8 = uint 1

abbrev pub u16 : Format ℕ
u16 = uint 2

abbrev pub u32 : Format ℕ
u32 = uint 4

abbrev pub u64 : Format ℕ
u64 = uint 8

abbrev pub i32 : Format ℕ
i32 = uint 4

abbrev pub i64 : Format ℕ
i64 = uint 8

unfoldable pub decoded : {A : Type 0} → Option A → Des A
decoded none = fail invalid_value
decoded (some a) = pure a

-- `Int<Out>`: an enum by its number, as an integer of `k` bytes.
unfoldable pub int : {E : Type 0} → ℕ → WireEnum E → Format E
unfolding decoded
int k e = record {
  serialize = λ v. Serializer.uint k (e.into_bee_serde v);
  deserialize = (do n ← Deserializer.uint k; decoded (e.try_from_bee_serde n));
}

-- `CStr<ALIGN_TO>`
unfoldable pub cstr : ℕ → Format (List ℕ)
cstr align_to = record {
  serialize = Serializer.cstr align_to;
  deserialize = Deserializer.cstr align_to;
}

-- `Seq<INCLUDE_SIZE, T>`
unfoldable pub seq : {A : Type 0} → Bool → Format A → Format (List A)
seq include_size f = record {
  serialize = Serializer.seq include_size f.serialize;
  deserialize = Deserializer.seq include_size f.deserialize;
}

-- `Map<INCLUDE_SIZE, K, V>`
unfoldable pub map : {V : Type 0} → Bool → Format ℕ → Format V → Format (List (ℕ × V))
map include_size k v = record {
  serialize = Serializer.map include_size k.serialize v.serialize;
  deserialize = Deserializer.map include_size k.deserialize v.deserialize;
}

-- A message type (`impl Msg`): its number and its format.
pub record MessageType (M : Type 0) : Type 0 where
  pub id : ℕ
  pub format : Format M
