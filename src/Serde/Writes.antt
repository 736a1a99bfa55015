-- ===== src/Serde/Writes.antt =====
-- What each operation of the serializer does to a buffer of which `w` is written and `r` is free.
pub mod Containers
use Prim.Native.Nat.add
use native.Mathlib.Nat.{zero-add}
use beegfs_rust.Prelude.{
  ℕ, zero, suc, ◌+◌, ◌-◌, ◌%◌, ◌^◌, ◌≤◌, ◌<◌, ◌==◌, leb, if◌then◌else◌, Bool, true, false, List, [],
  ◌∷◌, ◌++◌, length, take, drop, replicate, Option, none, some, ◌≡◌, refl, sym, ap, ◌∙◌, arith,
  length-append, length-drop, take-append, drop-append, append-nil, append_assoc, Bool-cases, inl,
  inr,
}
use beegfs_rust.Result.{Result, ok, err, panicked, buffer_full, ◌>>=◌}
use beegfs_rust.Serde.Header.{Header}
use beegfs_rust.Serde.Words.{to_le_bytes, length-to_le_bytes}
use beegfs_rust.Serde.Serializer.{
  Serializer, Ser, ◌⨾◌, done, overwrite, bytes, uint, u8, zeroes, patch,
}

abbrev pub at : List ℕ → List ℕ → Header → Serializer
at w r h = record { target_buf = w ++ r; write_pos = length w; header = h }

-- `f` appends `bs` to what is written if there is room, and fails if there is none.
abbrev pub appended : List ℕ → List ℕ → List ℕ → Header → Result Serializer
appended bs w r h =
    if leb (length bs) (length r) then ok (at (w ++ bs) (drop (length bs) r) h) else err buffer_full

pub record Writes (f : Ser) (bs : List ℕ) : Type 0 where
  pub run : (w r : List ℕ) (h : Header) → f (at w r h) ≡ appended bs w r h

drop-nil : (n : ℕ) → drop {A = ℕ} n [] ≡ []
drop-nil zero = refl
drop-nil (suc n) = refl

pub drop-drop : (n m : ℕ) (xs : List ℕ) → drop n (drop m xs) ≡ drop (m + n) xs
drop-drop n zero xs = rw zero-add
drop-drop n (suc m) [] = rw (drop-nil n, drop-nil (suc m + n))
drop-drop n (suc m) (x ∷ xs) = rw (add.suc m n) (drop-drop n m xs)

drop-append_add : (w : List ℕ) (n : ℕ) (r : List ℕ) → drop (length w + n) (w ++ r) ≡ drop n r
drop-append_add w n r = sym (drop-drop n (length w) (w ++ r)) ∙ ap (drop n) (drop-append w r)

-- Written over the free part, from its start.
pub overwrite_at :
    (w r v : List ℕ)
    → overwrite (w ++ r) (length w) v
      ≡ (if leb (length v) (length r) then some ((w ++ v) ++ drop (length v) r) else none)
unfolding overwrite
overwrite_at w r v =
    rw (take-append w r, drop-append_add w (length v) r, append_assoc w v (drop (length v) r))
      (ground (arith, length-append w r))

-- Written over the part `old` in the middle, of the same length.
pub overwrite_middle :
    (w old new r : List ℕ)
    → length new ≡ length old
    → overwrite (w ++ (old ++ r)) (length w) new ≡ some (w ++ (new ++ r))
unfolding overwrite
overwrite_middle w old new r e =
    rw (take-append w (old ++ r), drop-append_add w (length new) (old ++ r), e, drop-append old r)
      (ground (arith, length-append w (old ++ r), length-append old r))

pub Writes-bytes : (v : List ℕ) → Writes (bytes v) v
unfolding bytes
Writes-bytes v = record { run = λ w r h. ground (arith, overwrite_at w r v, length-append w v) }

pub Writes-uint : (k v : ℕ) → Writes (uint k v) (to_le_bytes k v)
unfolding uint
Writes-uint k v = Writes-bytes (to_le_bytes k v)

pub Writes-done : Writes done []
Writes-done = record { run = λ w r h. rw (append-nil w) (ground arith) }

-- Room for `a ++ b` is room for `a` and then, in what is left, for `b`.
pub Writes-⨾ : {f g : Ser} {a b : List ℕ} → Writes f a → Writes g b → Writes (f ⨾ g) (a ++ b)
Writes-⨾ {f} {g} {a} {b} wf wg = record {
  run = λ w r h. ground (
    arith,
    wf.run w r h,
    wg.run (w ++ a) (drop (length a) r) h,
    length-append a b,
    length-drop (length a) r,
    drop-drop (length b) (length a) r,
    append_assoc w a b,
  );
}

pub Writes-zeroes : (n : ℕ) → Writes (zeroes n) (replicate n 0)
unfolding zeroes to_le_bytes
Writes-zeroes zero = record { run = Writes-done.run }
Writes-zeroes (suc n) = record { run = (Writes-⨾ (Writes-uint 1 0) (Writes-zeroes n)).run }
