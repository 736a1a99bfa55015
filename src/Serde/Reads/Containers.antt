-- ===== src/Serde/Reads/Containers.antt =====
-- Strings, sequences and maps are read back from their layout.
use beegfs_rust.Prelude.{
  ℕ, ◌+◌, ◌%◌, ◌^◌, ◌<◌, ◌==◌, if◌then◌else◌, Bool, true, false, List, [], ◌∷◌, ◌++◌, length,
  replicate, All, ◌≢◌, ◌≡◌, refl, arith, append-nil, append_assoc, length-replicate, Bool-cases,
  inl, inr,
}
use beegfs_rust.Serde.Words.{length-to_le_bytes}
use beegfs_rust.Serde.Deserializer.{
  Des, pure, skip_pad, cstr, repeat, seq, insert, repeat_insert, map,
}
use beegfs_rust.Serde.Reads.{
  Reads, Reads-pure, Reads-bind, Reads-bytes, Reads-skip, Reads-uint, Reads-map as Reads-apply,
}
use beegfs_rust.Serde.Writes.Containers.{padding, cstr_layout, seq_layout}

Reads-pad :
    (n a : ℕ) → Reads (if a == 0 then pure tt else skip_pad n a) (replicate (padding n a) 0) tt
unfolding skip_pad
Reads-pad n a = elim (Bool-cases (a == 0)) [
  | inl e ↦ rw e (Reads-pure tt)
  | inr e ↦ rw e (elim (Bool-cases ((n + 4 + 1) % a == 0)) [
    | inl o ↦ rw o (Reads-pure tt)
    | inr o ↦ rw o (Reads-skip _ _ (length-replicate _ 0))
  ])
]

pub Reads-cstr :
    (align_to : ℕ) (v : List ℕ)
    → length v < 2 ^ 32
    → Reads (cstr align_to) (cstr_layout align_to v) v
unfolding cstr
Reads-cstr a v h = Reads-bind _ (Reads-uint 4 (length v) h) (
    Reads-bind _ (Reads-bytes v)
      (Reads-bind _ (Reads-uint 1 0 (omega arith)) (Reads-apply _ (Reads-pad (length v) a))))

module _ {A : Type 0} (d : Des A) where
  -- The elements `es` are read one after the other from `body`.
  pub data ReadsEach : List A → List ℕ → Type 0 where
    nil : ReadsEach [] []
    cons :
        {e : A} {es : List A} {bs body : List ℕ}
        → Reads d bs e
        → ReadsEach es body
        → ReadsEach (e ∷ es) (bs ++ body)

module _ {A : Type 0} {d : Des A} where
  Reads-repeat :
      {es : List A} {body : List ℕ} (each : ReadsEach d es body) (v : List A)
      → Reads (repeat d (length es) v) body (v ++ es)
  unfolding repeat
  Reads-repeat nil v = rw (append-nil v) (Reads-pure v)
  Reads-repeat (cons {e} {es} {bs} {body} re each) v =
      rw (← append_assoc v (e ∷ []) es) (Reads-bind _ re (Reads-repeat each (v ++ (e ∷ []))))

  pub Reads-seq :
      (sized : Bool) {es : List A} {body : List ℕ} (each : ReadsEach d es body)
      → length es < 2 ^ 32
      → Reads (seq sized d) (seq_layout sized (length es) body) es
  unfolding seq
  Reads-seq true {body = body} each n =
      Reads-bind _ (Reads-skip 4 _ (length-to_le_bytes 4 (8 + length body)))
        (Reads-bind _ (Reads-uint 4 _ n) (Reads-repeat each []))
  Reads-seq false each n = Reads-bind _ (Reads-uint 4 _ n) (Reads-repeat each [])

module _ {V : Type 0} where
  -- No entry of `m` has the key `k`.
  abbrev pub Fresh : ℕ → List (ℕ × V) → Type 0
  Fresh k m = All (λ e. e.0 ≢ k) m

  abbrev pub DistinctKeys : List (ℕ × V) → Type 0
  DistinctKeys [] = Unit {0}
  DistinctKeys (e ∷ m) = Fresh e.0 m × DistinctKeys m

  Fresh-append :
      (k : ℕ) (m : List (ℕ × V)) (e : ℕ × V) (es : List (ℕ × V)) → Fresh k (m ++ (e ∷ es)) → e.0 ≢ k
  Fresh-append k [] e es h = h.0
  Fresh-append k (x ∷ m) e es h = Fresh-append k m e es h.1

  insert_fresh :
      (k : ℕ) (v : V) (m es : List (ℕ × V))
      → DistinctKeys (m ++ ((k, v) ∷ es))
      → insert k v m ≡ m ++ ((k, v) ∷ [])
  unfolding insert
  insert_fresh k v [] es h = refl
  insert_fresh k v ((j, w) ∷ m) es h =
      ground (arith, insert_fresh k v m es h.1, Fresh-append j m (k, v) es h.0)

module _ {V : Type 0} (f_key : Des ℕ) (f_value : Des V) where
  pub data ReadsEntries : List (ℕ × V) → List ℕ → Type 0 where
    nil : ReadsEntries [] []
    cons :
        {k : ℕ} {v : V} {es : List (ℕ × V)} {ks vs body : List ℕ}
        → Reads f_key ks k
        → Reads f_value vs v
        → ReadsEntries es body
        → ReadsEntries ((k, v) ∷ es) ((ks ++ (vs ++ [])) ++ body)

module _ {V : Type 0} {f_key : Des ℕ} {f_value : Des V} where
  Reads-repeat_insert :
      {es : List (ℕ × V)} {body : List ℕ} (each : ReadsEntries f_key f_value es body)
      (m : List (ℕ × V))
      → DistinctKeys (m ++ es)
      → Reads (repeat_insert f_key f_value (length es) m) body (m ++ es)
  unfolding repeat_insert
  Reads-repeat_insert nil m h = rw (append-nil m) (Reads-pure m)
  Reads-repeat_insert (cons {k} {v} {es} {ks} {vs} {body} rk rv each) m h =
      rw (append-nil vs, append_assoc ks vs body)
        (Reads-bind _ rk (
          Reads-bind _ rv (
            rw (insert_fresh k v m es h, ← append_assoc m ((k, v) ∷ []) es)
              (Reads-repeat_insert each (m ++ ((k, v) ∷ []))
                (rw (append_assoc m ((k, v) ∷ []) es) h)))))

  pub Reads-map :
      (sized : Bool) {es : List (ℕ × V)} {body : List ℕ} (each : ReadsEntries f_key f_value es body)
      → DistinctKeys es
      → length es < 2 ^ 32
      → Reads (map sized f_key f_value) (seq_layout sized (length es) body) es
  unfolding map
  Reads-map true {body = body} each distinct n =
      Reads-bind _ (Reads-skip 4 _ (length-to_le_bytes 4 (8 + length body)))
        (Reads-bind _ (Reads-uint 4 _ n) (Reads-repeat_insert each [] distinct))
  Reads-map false each distinct n =
      Reads-bind _ (Reads-uint 4 _ n) (Reads-repeat_insert each [] distinct)
