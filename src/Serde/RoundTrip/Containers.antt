-- ===== src/Serde/RoundTrip/Containers.antt =====
-- Sequences and maps of values that come back, come back.
use beegfs_rust.Prelude.{
  ℕ, ◌+◌, ◌^◌, ◌<◌, List, [], ◌∷◌, ◌++◌, length, Bool, true, false, All, ◌≤◌, ◌*◌, length-append,
  arith,
}
use beegfs_rust.Serde.Serializer.{Ser, entry}
use beegfs_rust.Serde.Serializer
use beegfs_rust.Serde.Deserializer.{Des}
use beegfs_rust.Serde.Deserializer
use beegfs_rust.Serde.Words.{length-to_le_bytes}
use beegfs_rust.Serde.Writes.{Writes, Writes-⨾, Writes-done}
use beegfs_rust.Serde.Writes.Containers.{WritesEach, seq_layout, Writes-seq_plain, Writes-seq_sized}
use beegfs_rust.Serde.Reads.Containers.{ReadsEach, ReadsEntries, DistinctKeys, Reads-seq, Reads-map}
use beegfs_rust.Serde.RoundTrip.{RoundTrips, RoundTrips-uint}

-- The counts and sizes that the format stores fit their 32 bits.
abbrev pub Fits : Bool → ℕ → List ℕ → Type 0
Fits true count body = (count < 2 ^ 32) × (8 + length body < 2 ^ 32)
Fits false count body = (count < 2 ^ 32) × Unit {0}

Writes-seq :
    {A : Type 0} {f : A → Ser} {es : List A} {body : List ℕ} (sized : Bool)
    → WritesEach f es body
    → Fits sized (length es) body
    → Writes (Serializer.seq sized f es) (seq_layout sized (length es) body)
Writes-seq true each fits = Writes-seq_sized each fits.0 fits.1
Writes-seq false each fits = Writes-seq_plain each fits.0

Fits-count : (sized : Bool) (count : ℕ) (body : List ℕ) → Fits sized count body → count < 2 ^ 32
Fits-count true count body h = h.0
Fits-count false count body h = h.0

module _ {A : Type 0} (f : A → Ser) (d : Des A) where
  abbrev pub body_of : (es : List A) → All (λ e. RoundTrips (f e) d e) es → List ℕ
  body_of [] t = []
  body_of (e ∷ es) t = t.0.wire ++ body_of es t.1

  writes_of :
      (es : List A) (t : All (λ e. RoundTrips (f e) d e) es) → WritesEach f es (body_of es t)
  writes_of [] t = WritesEach.nil
  writes_of (e ∷ es) t = WritesEach.cons t.0.writes (writes_of es t.1)

  reads_of : (es : List A) (t : All (λ e. RoundTrips (f e) d e) es) → ReadsEach d es (body_of es t)
  reads_of [] t = ReadsEach.nil
  reads_of (e ∷ es) t = ReadsEach.cons t.0.reads (reads_of es t.1)

  pub RoundTrips-seq :
      (sized : Bool) (es : List A) (t : All (λ e. RoundTrips (f e) d e) es)
      → Fits sized (length es) (body_of es t)
      → RoundTrips (Serializer.seq sized f es) (Deserializer.seq sized d) es
  RoundTrips-seq sized es t fits = record {
    wire = seq_layout sized (length es) (body_of es t);
    writes = Writes-seq sized (writes_of es t) fits;
    reads = Reads-seq sized (reads_of es t) (Fits-count sized (length es) (body_of es t) fits);
  }

module _ {V : Type 0} (f_key : ℕ → Ser) (f_value : V → Ser) (d_key : Des ℕ) (d_value : Des V) where
  -- The key and the value of an entry come back.
  abbrev pub EntryRoundTrips : ℕ × V → Type 0
  EntryRoundTrips e = RoundTrips (f_key e.0) d_key e.0 × RoundTrips (f_value e.1) d_value e.1

  abbrev pub entries_of : (es : List (ℕ × V)) → All EntryRoundTrips es → List ℕ
  entries_of [] t = []
  entries_of (e ∷ es) t = (t.0.0.wire ++ (t.0.1.wire ++ [])) ++ entries_of es t.1

  writes_entries :
      (es : List (ℕ × V)) (t : All EntryRoundTrips es)
      → WritesEach (entry f_key f_value) es (entries_of es t)
  writes_entries [] t = WritesEach.nil
  writes_entries ((k, v) ∷ es) t =
      WritesEach.cons (Writes-⨾ t.0.0.writes (Writes-⨾ t.0.1.writes Writes-done))
        (writes_entries es t.1)

  reads_entries :
      (es : List (ℕ × V)) (t : All EntryRoundTrips es)
      → ReadsEntries d_key d_value es (entries_of es t)
  reads_entries [] t = ReadsEntries.nil
  reads_entries ((k, v) ∷ es) t = ReadsEntries.cons t.0.0.reads t.0.1.reads (reads_entries es t.1)

  pub RoundTrips-map :
      (sized : Bool) (es : List (ℕ × V)) (t : All EntryRoundTrips es)
      → DistinctKeys es
      → Fits sized (length es) (entries_of es t)
      → RoundTrips (Serializer.map sized f_key f_value es) (Deserializer.map sized d_key d_value) es
  unfolding Serializer.map
  RoundTrips-map sized es t distinct fits = record {
    wire = seq_layout sized (length es) (entries_of es t);
    writes = Writes-seq sized (writes_entries es t) fits;
    reads =
        Reads-map sized (reads_entries es t) distinct
          (Fits-count sized (length es) (entries_of es t) fits);
  }

-- A sequence of values that take at most `width` bytes each, such as integers.
module _ {A : Type 0} (f : A → Ser) (d : Des A) (width : ℕ) where
  -- The value comes back, from at most `width` bytes.
  abbrev pub RoundTripsWithin : A → Type 0
  RoundTripsWithin e = (t : RoundTrips (f e) d e) × (length t.wire ≤ width)

  each_of : (es : List A) → All RoundTripsWithin es → All (λ e. RoundTrips (f e) d e) es
  each_of [] t = tt
  each_of (e ∷ es) t = (t.0.0, each_of es t.1)

  length-body_of :
      (es : List A) (t : All RoundTripsWithin es)
      → length (body_of f d es (each_of es t)) ≤ length es * width
  unfolding each_of
  length-body_of [] t = omega arith
  length-body_of (e ∷ es) t = omega (
    arith,
    t.0.1,
    length-append t.0.0.wire (body_of f d es (each_of es t.1)),
    length-body_of es t.1,
  )

  pub RoundTrips-seq_within :
      (sized : Bool) (es : List A)
      → All RoundTripsWithin es
      → length es < 2 ^ 32
      → length es * width + 8 < 2 ^ 32
      → RoundTrips (Serializer.seq sized f es) (Deserializer.seq sized d) es
  RoundTrips-seq_within true es t n small =
      RoundTrips-seq f d true es (each_of es t) (n, omega (arith, length-body_of es t))
  RoundTrips-seq_within false es t n small = RoundTrips-seq f d false es (each_of es t) (n, tt)

-- A sequence of integers of `k` bytes.
pub RoundTrips-seq_uint :
    (k : ℕ) (sized : Bool) (vs : List ℕ)
    → All (λ v. v < 256 ^ k) vs
    → length vs * k + 8 < 2 ^ 32
    → length vs < 2 ^ 32
    → RoundTrips
        (Serializer.seq sized (Serializer.uint k) vs)
        (Deserializer.seq sized (Deserializer.uint k))
        vs
RoundTrips-seq_uint k sized vs r small n =
    RoundTrips-seq_within (Serializer.uint k) (Deserializer.uint k) k sized vs (each vs r) n small
  where
    each :
        (vs : List ℕ)
        → All (λ v. v < 256 ^ k) vs
        → All (RoundTripsWithin (Serializer.uint k) (Deserializer.uint k) k) vs
    each [] r = tt
    each (v ∷ vs) r = (
      (RoundTrips-uint k v r.0, unfold RoundTrips-uint in omega (arith, length-to_le_bytes k v)),
      each vs r.1,
    )
