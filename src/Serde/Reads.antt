-- ===== src/Serde/Reads.antt =====
-- What each operation of the deserializer returns on a buffer that begins with given bytes.
pub mod Containers
use native.Mathlib.Nat.{mod-eq_of_lt}
use beegfs_rust.Prelude.{
  ℕ, zero, suc, ◌+◌, ◌-◌, ◌%◌, ◌^◌, ◌≤◌, ◌<◌, leb, if◌then◌else◌, List, [], ◌∷◌, ◌++◌, length, take,
  drop, replicate, ◌≡◌, refl, sym, ap, ◌∙◌, arith, length-append, take-append, drop-append,
  append_assoc, length-replicate,
}
use beegfs_rust.Result.{Result, ok, err, panicked, end_of_buffer}
use beegfs_rust.Serde.Header.{Header}
use beegfs_rust.Serde.Words.{
  to_le_bytes, from_le_bytes, length-to_le_bytes, from_le_bytes-to_le_bytes,
}
use beegfs_rust.Serde.Deserializer.{Deserializer, Des, with_header, ◌>>=◌, pure, bytes, skip, uint}

-- `d` takes `bs` off the front of the buffer, leaves what follows, and returns `a`.
pub record Reads {A : Type 0} (d : Des A) (bs : List ℕ) (a : A) : Type 0 where
  pub run :
      (rest : List ℕ) (h : Header) → d (with_header (bs ++ rest) h) ≡ ok (a, with_header rest h)

pub Reads-pure : {A : Type 0} (a : A) → Reads (pure a) [] a
Reads-pure a = record { run = λ rest h. refl }

module _ {A B : Type 0} where
  pub Reads-bind :
      {d : Des A} {bs cs : List ℕ} {a : A} {b : B} (k : A → Des B)
      → Reads d bs a
      → Reads (k a) cs b
      → Reads (d >>= k) (bs ++ cs) b
  Reads-bind {bs = bs} {cs = cs} k rd rk = record {
    run = λ rest h. ground (arith, append_assoc bs cs rest, rd.run (cs ++ rest) h, rk.run rest h);
  }

  pub Reads-map :
      {d : Des A} {bs : List ℕ} {a : A} (f : A → B)
      → Reads d bs a
      → Reads (d >>= λ x. pure (f x)) bs (f a)
  Reads-map f rd = record { run = λ rest h. ground (arith, rd.run rest h) }

pub Reads-bytes : (v : List ℕ) → Reads (bytes (length v)) v v
unfolding bytes
Reads-bytes v = record {
  run = λ rest h. ground (arith, length-append v rest, take-append v rest, drop-append v rest);
}

pub Reads-skip : (n : ℕ) (v : List ℕ) → length v ≡ n → Reads (skip n) v tt
unfolding skip
Reads-skip n v e = record { run = λ rest h. rw (← e) (ground (arith, (Reads-bytes v).run rest h)) }

pub Reads-uint : (k v : ℕ) → v < 256 ^ k → Reads (uint k) (to_le_bytes k v) v
unfolding uint
Reads-uint k v lt = record {
  run = λ rest h. ground (
    arith,
    subst_length,
    from_le_bytes-to_le_bytes k v lt,
    (Reads-bytes (to_le_bytes k v)).run rest h,
  );
}
  where
    subst_length : bytes (length (to_le_bytes k v)) ≡ bytes k
    subst_length = ap bytes (length-to_le_bytes k v)
