-- ===== src/Serde/RoundTrip.antt =====
-- A value that is serialized and deserialized by matching operations comes back, whatever follows it.
pub mod Containers
use beegfs_rust.Prelude.{ℕ, zero, suc, ◌+◌, ◌^◌, ◌<◌, List, [], ◌∷◌, ◌++◌, length, Bool, arith}
use beegfs_rust.Serde.Serializer.{Ser, ◌⨾◌, done}
use beegfs_rust.Serde.Serializer
use beegfs_rust.Serde.Deserializer.{Des, ◌>>=◌, pure}
use beegfs_rust.Serde.Deserializer
use beegfs_rust.Serde.Words.{to_le_bytes}
use beegfs_rust.Serde.Writes.{Writes, Writes-uint, Writes-done, Writes-⨾}
use beegfs_rust.Serde.Writes.Containers.{cstr_layout, Writes-cstr}
use beegfs_rust.Serde.Reads.{Reads, Reads-pure, Reads-bind, Reads-uint}
use beegfs_rust.Serde.Reads.Containers.{Reads-cstr}

-- `f` writes bytes that `d` reads back as `a`.
pub record RoundTrips {A : Type 0} (f : Ser) (d : Des A) (a : A) : Type 0 where
  pub wire : List ℕ
  pub writes : Writes f wire
  pub reads : Reads d wire a

unfoldable pub RoundTrips-done : {A : Type 0} (a : A) → RoundTrips done (pure a) a
RoundTrips-done a = record { wire = []; writes = Writes-done; reads = Reads-pure a }

module _ {A B : Type 0} where
  -- A field, and then the rest of the struct.
  unfoldable pub RoundTrips-bind :
      {f g : Ser} {d : Des A} {a : A} {b : B} (k : A → Des B)
      → RoundTrips f d a
      → RoundTrips g (k a) b
      → RoundTrips (f ⨾ g) (d >>= k) b
  RoundTrips-bind k x y = record {
    wire = x.wire ++ y.wire;
    writes = Writes-⨾ x.writes y.writes;
    reads = Reads-bind k x.reads y.reads;
  }

unfoldable pub RoundTrips-uint :
    (k v : ℕ) → v < 256 ^ k → RoundTrips (Serializer.uint k v) (Deserializer.uint k) v
RoundTrips-uint k v h = record {
  wire = to_le_bytes k v;
  writes = Writes-uint k v;
  reads = Reads-uint k v h;
}

unfoldable pub RoundTrips-cstr :
    (align_to : ℕ) (v : List ℕ)
    → length v < 2 ^ 32
    → RoundTrips (Serializer.cstr align_to v) (Deserializer.cstr align_to) v
RoundTrips-cstr a v h = record {
  wire = cstr_layout a v;
  writes = Writes-cstr a v h;
  reads = Reads-cstr a v h;
}
