-- ===== src/Serde/Format/Sound.antt =====
-- The formats read back what they write.
use native.Mathlib.Nat.{pow-suc}
use beegfs_rust.Prelude.{
  ℕ, zero, suc, ◌+◌, ◌*◌, ◌^◌, ◌<◌, Bool, false, List, [], ◌∷◌, length, All, All-imp, arith,
}
use beegfs_rust.Types.{WireEnum}
use beegfs_rust.Types.Laws.{IsWireEnum}
use beegfs_rust.Serde.Serializer
use beegfs_rust.Serde.Deserializer
use beegfs_rust.Serde.Deserializer.{◌>>=◌}
use beegfs_rust.Serde.Words.{to_le_bytes, length-to_le_bytes}
use beegfs_rust.Serde.Writes.{Writes-uint}
use beegfs_rust.Serde.Reads.{Reads, Reads-uint}
use beegfs_rust.Serde.Reads.Containers.{DistinctKeys}
use beegfs_rust.Serde.RoundTrip.{RoundTrips, RoundTrips-uint, RoundTrips-cstr}
use beegfs_rust.Serde.RoundTrip.Containers.{
  RoundTripsWithin, RoundTrips-seq_within, EntryRoundTrips, RoundTrips-map, RoundTrips-seq,
}
use beegfs_rust.Serde.Format.{Format, uint, int, decoded, cstr, seq, map}

-- `a` comes back.
abbrev pub Sound : {A : Type 0} → Format A → A → Type 0
Sound f a = RoundTrips (f.serialize a) f.deserialize a

-- `a` comes back, and takes at most `n` bytes.
abbrev pub SoundWithin : {A : Type 0} → Format A → ℕ → A → Type 0
SoundWithin f n a = RoundTripsWithin f.serialize f.deserialize n a

unfoldable pub Sound-uint : (k v : ℕ) → v < 256 ^ k → Sound (uint k) v
unfolding uint
Sound-uint k v h = RoundTrips-uint k v h

pub SoundWithin-uint : (k v : ℕ) → v < 256 ^ k → SoundWithin (uint k) k v
unfolding uint RoundTrips-uint
SoundWithin-uint k v h = (RoundTrips-uint k v h, omega (arith, length-to_le_bytes k v))

pub Sound-cstr : (a : ℕ) (v : List ℕ) → length v < 2 ^ 32 → Sound (cstr a) v
unfolding cstr
Sound-cstr a v h = RoundTrips-cstr a v h

pub Reads-int :
    {E : Type 0} (k : ℕ) (w : WireEnum E)
    → IsWireEnum w
    → (e : E) → w.into_bee_serde e < 256 ^ k
    → Reads (int k w).deserialize (to_le_bytes k (w.into_bee_serde e)) e
unfolding int decoded
Reads-int k w laws e h = record {
  run = λ rest hd.
      ground (arith, (Reads-uint k (w.into_bee_serde e) h).run rest hd, laws.read_back e);
}

pub SoundWithin-int :
    {E : Type 0} (k : ℕ) (w : WireEnum E)
    → IsWireEnum w
    → (e : E) → w.into_bee_serde e < 256 ^ k
    → SoundWithin (int k w) k e
unfolding int
SoundWithin-int k w laws e h = (
  record {
    wire = to_le_bytes k (w.into_bee_serde e);
    writes = Writes-uint k (w.into_bee_serde e);
    reads = Reads-int k w laws e h;
  },
  omega (arith, length-to_le_bytes k (w.into_bee_serde e)),
)

one_byte_fits : (n k : ℕ) → n < 256 → n < 256 ^ suc k
one_byte_fits n zero h = omega arith
one_byte_fits n (suc k) h = omega (arith, one_byte_fits n k h, pow-suc 256 (suc k))

-- Every variant fits an integer of at least one byte.
pub Sound-int :
    {E : Type 0} (k : ℕ) (w : WireEnum E) → IsWireEnum w → (e : E) → Sound (int (suc k) w) e
Sound-int k w laws e =
    (SoundWithin-int (suc k) w laws e (one_byte_fits (w.into_bee_serde e) k (laws.one_byte e))).0

-- A list of values that come back, and whose size fits the format.
pub record ListFits {A : Type 0} (f : Format A) (width : ℕ) (es : List A) : Type 0 where
  pub each : All (SoundWithin f width) es
  pub count : length es < 2 ^ 32
  pub size : length es * width + 8 < 2 ^ 32

pub Sound-seq :
    {A : Type 0} (sized : Bool) (f : Format A) (width : ℕ) (es : List A)
    → ListFits f width es
    → Sound (seq sized f) es
unfolding seq
Sound-seq sized f width es h =
    RoundTrips-seq_within f.serialize f.deserialize width sized es h.each h.count h.size

pub each_uint : (k : ℕ) (vs : List ℕ) → All (λ v. v < 256 ^ k) vs → All (SoundWithin (uint k) k) vs
each_uint k [] h = tt
each_uint k (v ∷ vs) h = (SoundWithin-uint k v h.0, each_uint k vs h.1)

-- A list of integers of `k` bytes.
pub record UintsFit (k : ℕ) (vs : List ℕ) : Type 0 where
  pub each : All (λ v. v < 256 ^ k) vs
  pub count : length vs < 2 ^ 32
  pub size : length vs * k + 8 < 2 ^ 32

pub Sound-uints :
    (sized : Bool) (k : ℕ) (vs : List ℕ) → UintsFit k vs → Sound (seq sized (uint k)) vs
Sound-uints sized k vs h =
    Sound-seq sized (uint k) k vs
      (record { each = each_uint k vs h.each; count = h.count; size = h.size })

-- A list without the total size, of values with the property `P`.
pub record PlainFits {A : Type 0} (P : A → Type 0) (es : List A) : Type 0 where
  pub each : All P es
  pub count : length es < 2 ^ 32

pub Sound-plain :
    {A : Type 0} (f : Format A) (P : A → Type 0)
    → ((a : A) → P a → Sound f a)
    → (es : List A) → PlainFits P es
    → Sound (seq false f) es
unfolding seq
Sound-plain f P sound es h =
    RoundTrips-seq f.serialize f.deserialize false es (All-imp sound es h.each) (h.count, tt)

-- A map without sizes: keys are integers of `k` bytes, each once, and the values have the property `P`.
pub record MapFits {V : Type 0} (k : ℕ) (P : V → Type 0) (m : List (ℕ × V)) : Type 0 where
  pub keys : All (λ e. e.0 < 256 ^ k) m
  pub values : All (λ e. P e.1) m
  pub distinct : DistinctKeys m
  pub count : length m < 2 ^ 32

each_entry :
    {V : Type 0} (k : ℕ) (f : Format V) (m : List (ℕ × V))
    → All (λ e. e.0 < 256 ^ k) m
    → All (λ e. Sound f e.1) m
    → All (EntryRoundTrips (Serializer.uint k) f.serialize (Deserializer.uint k) f.deserialize) m
each_entry k f [] hk hv = tt
each_entry k f (e ∷ m) hk hv = ((RoundTrips-uint k e.0 hk.0, hv.0), each_entry k f m hk.1 hv.1)

pub Sound-map :
    {V : Type 0} (k : ℕ) (f : Format V) (P : V → Type 0)
    → ((v : V) → P v → Sound f v)
    → (m : List (ℕ × V)) → MapFits k P m
    → Sound (map false (uint k) f) m
unfolding map uint
Sound-map k f P sound m h =
    RoundTrips-map (Serializer.uint k) f.serialize (Deserializer.uint k) f.deserialize false m
      (each_entry k f m h.keys (All-imp (λ e. sound e.1) m h.values)) h.distinct (h.count, tt)

-- A list of variants, in one byte each.
pub record EnumsFit {E : Type 0} (es : List E) : Type 0 where
  pub count : length es < 2 ^ 32
  pub size : length es + 8 < 2 ^ 32

each_enum :
    {E : Type 0} (w : WireEnum E) → IsWireEnum w → (es : List E) → All (SoundWithin (int 1 w) 1) es
each_enum w laws [] = tt
each_enum w laws (e ∷ es) =
    (SoundWithin-int 1 w laws e (one_byte_fits _ 0 (laws.one_byte e)), each_enum w laws es)

pub Sound-enums :
    {E : Type 0} (sized : Bool) (w : WireEnum E)
    → IsWireEnum w
    → (es : List E) → EnumsFit es
    → Sound (seq sized (int 1 w)) es
Sound-enums sized w laws es h =
    Sound-seq sized (int 1 w) 1 es
      (record { each = each_enum w laws es; count = h.count; size = omega (arith, h.size) })
