-- ===== src/Serde/Writes/Containers.antt =====
-- What the operations for strings and sequences write.
use native.Mathlib.Nat.{mod-eq_of_lt}
use beegfs_rust.Prelude.{
  ℕ, ◌+◌, ◌-◌, ◌%◌, ◌^◌, ◌<◌, ◌==◌, leb, if◌then◌else◌, Bool, true, false, List, [], ◌∷◌, ◌++◌,
  length, drop, replicate, ◌≡◌, arith, length-append, length-drop, append-nil, append_assoc,
  Bool-cases, inl, inr,
}
use beegfs_rust.Result.{ok, err, buffer_full}
use beegfs_rust.Serde.Header.{Header}
use beegfs_rust.Serde.Words.{to_le_bytes, length-to_le_bytes}
use beegfs_rust.Serde.Serializer.{Ser, done, zeroes, pad, cstr, patch, seq_loop, seq}
use beegfs_rust.Serde.Writes.{
  Writes, at, overwrite_middle, Writes-bytes, Writes-uint, Writes-zeroes, Writes-⨾, drop-drop,
}

-- The number of padding bytes behind a string of `n` bytes.
abbrev pub padding : ℕ → ℕ → ℕ
padding n align_to =
    let over = (n + 4 + 1) % align_to in
    if align_to == 0 then 0 else if over == 0 then 0 else align_to - over

-- Length, content, terminator and padding.
abbrev pub cstr_layout : ℕ → List ℕ → List ℕ
cstr_layout align_to v =
    to_le_bytes 4 (length v)
    ++ (v ++ (to_le_bytes 1 0 ++ replicate (padding (length v) align_to) 0))

pad_amount : (n a : ℕ) → (if a == 0 then done else pad n a) ≡ zeroes (padding n a)
unfolding pad zeroes
pad_amount n a = elim (Bool-cases (a == 0)) [
  | inl e ↦ rw e
  | inr e ↦ rw e (elim (Bool-cases ((n + 4 + 1) % a == 0)) [ inl o ↦ rw o | inr o ↦ rw o ])
]

pub Writes-cstr :
    (align_to : ℕ) (v : List ℕ)
    → length v < 2 ^ 32
    → Writes (cstr align_to v) (cstr_layout align_to v)
unfolding cstr
Writes-cstr a v h =
    rw (mod-eq_of_lt h, pad_amount (length v) a)
      (Writes-⨾ (Writes-uint 4 (length v)) (
        Writes-⨾ (Writes-bytes v)
          (Writes-⨾ (Writes-uint 1 0) (Writes-zeroes (padding (length v) a)))))

module _ {A : Type 0} (f : A → Ser) where
  -- The elements `es`, written one after the other, make up `body`.
  pub data WritesEach : List A → List ℕ → Type 0 where
    nil : WritesEach [] []
    cons :
        {e : A} {es : List A} {bs body : List ℕ}
        → Writes (f e) bs
        → WritesEach es body
        → WritesEach (e ∷ es) (bs ++ body)

module _ {A : Type 0} {f : A → Ser} where
  seq_loop_lem :
      {es : List A} {body : List ℕ} (each : WritesEach f es body) (c : ℕ) (w r : List ℕ)
      (h : Header)
      → c < 2 ^ 32
      → seq_loop f es c (at w r h) ≡ (
          if leb (length body) (length r)
          then ok (at (w ++ body) (drop (length body) r) h, (c + length es) % 2 ^ 32)
          else err buffer_full)
  unfolding seq_loop
  seq_loop_lem nil c w r h lt = rw (append-nil w) (ground arith)
  seq_loop_lem (cons {e} {es} {bs} {body} we each) c w r h lt = ground (
    arith,
    we.run w r h,
    seq_loop_lem each ((c + 1) % 2 ^ 32) (w ++ bs) (drop (length bs) r) h (omega arith),
    length-append bs body,
    length-drop (length bs) r,
    drop-drop (length body) (length bs) r,
    append_assoc w bs body,
  )

-- The total size if it is included, the number of elements, and the elements.
abbrev pub seq_layout : Bool → ℕ → List ℕ → List ℕ
seq_layout true count body = to_le_bytes 4 (8 + length body) ++ (to_le_bytes 4 count ++ body)
seq_layout false count body = to_le_bytes 4 count ++ body

abbrev placeholder : List ℕ
placeholder = to_le_bytes 4 0xffff_ffff

patch_lem :
    (w old new t r : List ℕ) (h : Header)
    → length new ≡ length old
    → patch (length w) new (at (w ++ (old ++ t)) r h) ≡ ok (at (w ++ (new ++ t)) r h)
unfolding patch
patch_lem w old new t r h e = ground (
  arith,
  append_assoc w (old ++ t) r,
  append_assoc old t r,
  overwrite_middle w old new (t ++ r) e,
  append_assoc w (new ++ t) r,
  append_assoc new t r,
  length-append w (old ++ t),
  length-append old t,
  length-append w (new ++ t),
  length-append new t,
)

module _ {A : Type 0} {f : A → Ser} {es : List A} {body : List ℕ} where
  pub Writes-seq_plain :
      WritesEach f es body
      → length es < 2 ^ 32
      → Writes (seq false f es) (seq_layout false (length es) body)
  unfolding seq
  Writes-seq_plain each n = record {
    run = λ w r h. ground (
      arith,
      (Writes-uint 4 0xffff_ffff).run w r h,
      length-to_le_bytes 4 0xffff_ffff,
      length-to_le_bytes 4 (length es),
      seq_loop_lem each 0 (w ++ placeholder) (drop 4 r) h (omega arith),
      length-append (to_le_bytes 4 (length es)) body,
      length-drop 4 r,
      drop-drop (length body) 4 r,
      append_assoc w placeholder body,
      append_assoc w (to_le_bytes 4 (length es)) body,
      patch_lem w placeholder (to_le_bytes 4 (length es)) body (drop (4 + length body) r) h
          (omega (arith, length-to_le_bytes 4 0xffff_ffff, length-to_le_bytes 4 (length es))),
    );
  }

  pub Writes-seq_sized :
      WritesEach f es body
      → length es < 2 ^ 32
      → 8 + length body < 2 ^ 32
      → Writes (seq true f es) (seq_layout true (length es) body)
  unfolding seq
  Writes-seq_sized each n small = record {
    run = λ w r h.
        let size = to_le_bytes 4 (8 + length body) in
        let count = to_le_bytes 4 (length es) in
        ground (
          arith,
          (Writes-uint 4 0xffff_ffff).run w r h,
          (Writes-uint 4 0xffff_ffff).run (w ++ placeholder) (drop 4 r) h,
          length-to_le_bytes 4 0xffff_ffff,
          length-to_le_bytes 4 (length es),
          length-to_le_bytes 4 (8 + length body),
          seq_loop_lem each 0 ((w ++ placeholder) ++ placeholder) (drop 8 r) h (omega arith),
          length-append (w ++ placeholder) placeholder,
          length-append w placeholder,
          length-append ((w ++ placeholder) ++ placeholder) body,
          length-append size (count ++ body),
          length-append count body,
          length-drop 4 r,
          length-drop 8 r,
          drop-drop 4 4 r,
          drop-drop (length body) 8 r,
          append_assoc (w ++ placeholder) placeholder body,
          append_assoc w placeholder (placeholder ++ body),
          append_assoc w size (placeholder ++ body),
          append_assoc w size (count ++ body),
          length-append w size,
          patch_lem w placeholder size (placeholder ++ body) (drop (8 + length body) r) h (
              omega
                (arith, length-to_le_bytes 4 0xffff_ffff, length-to_le_bytes 4 (8 + length body))),
          patch_lem (w ++ size) placeholder count body (drop (8 + length body) r) h
              (omega (arith, length-to_le_bytes 4 0xffff_ffff, length-to_le_bytes 4 (length es))),
        );
  }
