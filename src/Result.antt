-- ===== src/Result.antt =====
-- `anyhow::Result`: what the fallible functions of the program return. A panic (a slice index out
-- of range, an unsigned subtraction below zero) is an outcome of its own.
use beegfs_rust.Prelude.{Bool, if◌then◌else◌, ◌≡◌, refl, ◌⊎◌, inl, inr}

-- One constructor for each place that raises an error; the text of the message is left out.
pub data Error : Type 0 where
  buffer_full end_of_buffer invalid_terminator bytes_left invalid_value : Error
  short_header invalid_prefix low_below_emergency : Error
  unauthenticated unexpected_eof : Error
  row_count value_not_found multiple_matches no_rows : Error
  out_of_range no_server_type pre_shutdown length_mismatch no_free_id : Error
  client_update sum_overflow no_address no_connection timed_out : Error
  no_migrations not_contiguous up_to_date outside_range : Error
  invalid_alias value_exists constraint zero_id in_group other_pool owns_root no_column : Error
  join_error : Error

pub data Result {ℓ} (T : Type ℓ) : Type ℓ where
  panicked : Result T
  err : Error → Result T
  ok : T → Result T

-- The `?` operator: the first error or panic ends the function.
infixl 5 ◌>>=◌ ◌>>◌
abbrev pub ◌>>=◌ {ℓ κ} : {S : Type ℓ} {T : Type κ} → Result S → (S → Result T) → Result T
panicked >>= next = panicked
err reason >>= next = err reason
ok value >>= next = next value

abbrev pub ◌>>◌ {κ} : {T : Type κ} → Result (Unit {0}) → Result T → Result T
first >> second = first >>= λ _. second

-- `anyhow::ensure!`, and `if … { bail!(…) }` with the test turned round.
abbrev pub ensure : Bool → Error → Result (Unit {0})
ensure holds reason = if holds then ok tt else err reason

-- To split on a computed result and keep the equation.
pub Result-cases {ℓ} :
    {T : Type ℓ} (r : Result T)
    → (r ≡ panicked) ⊎ (((e : Error) × (r ≡ err e)) ⊎ ((v : T) × (r ≡ ok v)))
Result-cases panicked = inl refl
Result-cases (err e) = inr (inl (e, refl))
Result-cases (ok v) = inr (inr (v, refl))

-- A sequence of two steps that succeeds is two steps that succeed.
pub both_ok :
    {S T : Type 0} (m : Result S) (next : S → Result T) (v : T)
    → (m >>= next) ≡ ok v
    → (u : S) × ((m ≡ ok u) × (next u ≡ ok v))
both_ok (ok u) next v e = (u, (refl, e))
both_ok (err r) next v e = absurd (cc)
both_ok panicked next v e = absurd (cc)
