-- ===== src/Serde/Serializer.antt =====
-- `Serializer` of shared/src/bee_serde.rs. An operation takes the serializer and returns the new one;
-- after an error the caller drops it. Numbers are given in range by the callers' types.
use beegfs_rust.Prelude.{
  ℕ, zero, suc, ◌+◌, ◌-◌, ◌%◌, ◌^◌, ◌==◌, leb, if◌then◌else◌, Bool, List, [], ◌∷◌, ◌++◌, length,
  take, drop, Option, none, some,
}
use beegfs_rust.Result.{Result, ok, err, panicked, buffer_full, ◌>>=◌}
use beegfs_rust.Serde.Header.{Header, default_header}
use beegfs_rust.Serde.Words.{to_le_bytes}

pub record Serializer : Type 0 where
  pub target_buf : List ℕ
  pub write_pos : ℕ
  pub header : Header

abbrev pub Ser : Type 0
Ser = Serializer → Result Serializer

-- `Serializer::with_header` and `Serializer::new`.
abbrev pub with_header : List ℕ → Header → Serializer
with_header buf header = record { target_buf = buf; write_pos = 0; header = header }

abbrev pub new : List ℕ → Serializer
new buf = with_header buf default_header

-- Operations in a row, each followed by `?`; `done` is the final `Ok(())`.
infixr 30 ◌⨾◌
abbrev pub ◌⨾◌ : Ser → Ser → Ser
◌⨾◌ f g s = f s >>= g

abbrev pub done : Ser
done s = ok s

-- The slice `buf[pos..pos + v.len()]` with `v` written over it; `none` if it is out of range.
unfoldable pub overwrite : List ℕ → ℕ → List ℕ → Option (List ℕ)
overwrite buf pos v =
    if leb (pos + length v) (length buf)
    then some (take pos buf ++ (v ++ drop (pos + length v) buf))
    else none

unfoldable pub bytes : List ℕ → Ser
bytes v s = elim (overwrite s.target_buf s.write_pos v) [
  | some buf ↦ ok (record s { target_buf = buf; write_pos = s.write_pos + length v })
  | none ↦ err buffer_full
]

-- `fn_serialize_primitive!`, by the number of bytes.
unfoldable pub uint : ℕ → ℕ → Ser
uint k v = bytes (to_le_bytes k v)

abbrev pub u8 : ℕ → Ser
u8 = uint 1

abbrev pub u16 : ℕ → Ser
u16 = uint 2

abbrev pub u32 : ℕ → Ser
u32 = uint 4

abbrev pub u64 : ℕ → Ser
u64 = uint 8

unfoldable pub zeroes : ℕ → Ser
zeroes zero s = ok s
zeroes (suc n) s = u8 0 s >>= zeroes n

-- The padding behind a string of `n` bytes; the guard of `align_to != 0` is in `cstr`.
unfoldable pub pad : ℕ → ℕ → Ser
pad n align_to =
    let padding = (n + 4 + 1) % align_to in
    if padding == 0 then done else zeroes (align_to - padding)

unfoldable pub cstr : ℕ → List ℕ → Ser
unfolding pad
cstr align_to v =
    u32 (length v % 2 ^ 32)
    ⨾ bytes v
    ⨾ u8 0
    ⨾ (if align_to == 0 then done else pad (length v) align_to)

-- `slice.clone_from_slice`: an index out of range panics.
unfoldable pub patch : ℕ → List ℕ → Ser
patch pos v s = elim (overwrite s.target_buf pos v) [
  | some buf ↦ ok (record s { target_buf = buf })
  | none ↦ panicked
]

module _ {A : Type 0} where
  -- The loop of `seq`, with its counter, a u32.
  unfoldable pub seq_loop : (A → Ser) → List A → ℕ → Serializer → Result (Serializer × ℕ)
  seq_loop f [] count s = ok (s, count)
  seq_loop f (e ∷ es) count s = do s' ← f e s; seq_loop f es ((count + 1) % 2 ^ 32) s'

  unfoldable pub seq : Bool → (A → Ser) → List A → Ser
  seq include_total_size f elements s = do
    let before = s.write_pos
    let size_pos = if include_total_size then s.write_pos else 0
    s₁ ← (if include_total_size then u32 0xffff_ffff s else ok s)
    let count_pos = s₁.write_pos
    s₂ ← u32 0xffff_ffff s₁
    (s₃, count) ← seq_loop f elements 0 s₂
    let written = (s₃.write_pos - before) % 2 ^ 32
    s₄ ← (if include_total_size then patch size_pos (to_le_bytes 4 written) s₃ else ok s₃)
    patch count_pos (to_le_bytes 4 count) s₄

-- A key and its value in one element.
abbrev pub entry : {K V : Type 0} → (K → Ser) → (V → Ser) → K × V → Ser
entry f_key f_value (k, v) = f_key k ⨾ f_value v ⨾ done

unfoldable pub map : {K V : Type 0} → Bool → (K → Ser) → (V → Ser) → List (K × V) → Ser
map include_total_size f_key f_value elements =
    seq include_total_size (entry f_key f_value) elements
