-- ===== src/Serde/Deserializer.antt =====
-- `Deserializer` of shared/src/bee_serde.rs. A `HashMap` is the list of its entries, one for each key.
use beegfs_rust.Prelude.{
  ℕ, zero, suc, ◌+◌, ◌-◌, ◌%◌, ◌==◌, leb, ltb, if◌then◌else◌, Bool, List, [], ◌∷◌, ◌++◌, length,
  take, drop,
}
use beegfs_rust.Result.{
  Result, Error, ok, err, panicked, end_of_buffer, invalid_terminator, bytes_left,
}
use beegfs_rust.Serde.Header.{Header, default_header}
use beegfs_rust.Serde.Words.{from_le_bytes}

pub record Deserializer : Type 0 where
  pub source_buf : List ℕ
  pub header : Header

abbrev pub Des : Type 0 → Type 0
Des A = Deserializer → Result (A × Deserializer)

abbrev pub with_header : List ℕ → Header → Deserializer
with_header buf header = record { source_buf = buf; header = header }

abbrev pub new : List ℕ → Deserializer
new buf = with_header buf default_header

infixl 5 ◌>>=◌ ◌>>◌
abbrev pub ◌>>=◌ : {A B : Type 0} → Des A → (A → Des B) → Des B
◌>>=◌ m f d = elim (m d) [ ok (a, d') ↦ f a d' | err e ↦ err e | panicked ↦ panicked ]

abbrev pub ◌>>◌ : {B : Type 0} → Des (Unit {0}) → Des B → Des B
m >> k = m >>= λ _. k

abbrev pub pure : {A : Type 0} → A → Des A
pure a d = ok (a, d)

abbrev pub fail : {A : Type 0} → Error → Des A
fail e d = err e

-- `Deserializer::finish`: the whole buffer must be used up.
unfoldable pub finish : Deserializer → Result (Unit {0})
finish d = if ltb 0 (length d.source_buf) then err bytes_left else ok tt

-- `Deserializer::take`, and `bytes`, which copies what `take` returns.
unfoldable pub bytes : ℕ → Des (List ℕ)
bytes n d =
    if leb n (length d.source_buf)
    then ok (take n d.source_buf, record d { source_buf = drop n d.source_buf })
    else err end_of_buffer

unfoldable pub skip : ℕ → Des (Unit {0})
skip n = do _ ← bytes n; pure tt

-- `fn_deserialize_primitive!`, by the number of bytes.
unfoldable pub uint : ℕ → Des ℕ
uint k = do b ← bytes k; pure (from_le_bytes b)

abbrev pub u8 : Des ℕ
u8 = uint 1

abbrev pub u16 : Des ℕ
u16 = uint 2

abbrev pub u32 : Des ℕ
u32 = uint 4

abbrev pub u64 : Des ℕ
u64 = uint 8

abbrev pub ensure : Bool → Error → Des (Unit {0})
ensure holds reason = if holds then pure tt else fail reason

unfoldable pub skip_pad : ℕ → ℕ → Des (Unit {0})
skip_pad n align_to =
    let padding = (n + 4 + 1) % align_to in
    if padding == 0 then pure tt else skip (align_to - padding)

unfoldable pub cstr : ℕ → Des (List ℕ)
unfolding skip_pad
cstr align_to = do
  len ← u32
  v ← bytes len
  terminator ← u8
  ensure (terminator == 0) invalid_terminator
  (if align_to == 0 then pure tt else skip_pad (length v) align_to)
  pure v

-- The element count is a u32; that there is memory for so many is not modelled.
unfoldable pub repeat : {A : Type 0} → Des A → ℕ → List A → Des (List A)
repeat f zero v = pure v
repeat f (suc n) v = do e ← f; repeat f n (v ++ (e ∷ []))

unfoldable pub seq : {A : Type 0} → Bool → Des A → Des (List A)
seq include_total_size f = do
  (if include_total_size then skip 4 else pure tt)
  len ← u32
  repeat f len []

-- `HashMap::insert`: the value of a key that is there is replaced.
unfoldable pub insert : {V : Type 0} → ℕ → V → List (ℕ × V) → List (ℕ × V)
insert k v [] = (k, v) ∷ []
insert k v ((j, w) ∷ m) = if j == k then (k, v) ∷ m else (j, w) ∷ insert k v m

unfoldable pub repeat_insert : {V : Type 0} → Des ℕ → Des V → ℕ → List (ℕ × V) → Des (List (ℕ × V))
repeat_insert f_key f_value zero m = pure m
repeat_insert f_key f_value (suc n) m = do
  k ← f_key
  v ← f_value
  repeat_insert f_key f_value n (insert k v m)

-- The keys of every map of the program are integers.
unfoldable pub map : {V : Type 0} → Bool → Des ℕ → Des V → Des (List (ℕ × V))
map include_total_size f_key f_value = do
  (if include_total_size then skip 4 else pure tt)
  len ← u32
  repeat_insert f_key f_value len []
