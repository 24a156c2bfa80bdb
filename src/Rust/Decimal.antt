-- ===== src/Rust/Decimal.antt =====
-- Decimal numbers: `u64::to_string` (also `{}` and `{:#?}` in a format) and `str::parse::<u64>`.
pub mod RoundTrip
use subfile_data_service.Prelude.{
  ℕ, zero, suc, Bytes, codes, ◌+◌, ◌-◌, ◌*◌, ◌/◌, ◌%◌, ◌++◌, ◌≡◌, refl, [], ◌∷◌, ltb, ◌||◌, ◌==◌,
  if◌then◌else◌,
}
use subfile_data_service.Rust.Result.{Io, done, failed}
use subfile_data_service.Rust.Words.{u64_mod}

-- Each round divides by ten, so `n + 1` rounds are enough.
decimal_go : ℕ → ℕ → Bytes
decimal_go zero n = []
decimal_go (suc rounds) n =
    let front = decimal_go rounds (n / 10) in
    if ltb n 10 then (b'0' + n) ∷ [] else front ++ (b'0' + n % 10) ∷ []

unfoldable pub decimal : ℕ → Bytes
unfolding decimal_go
decimal n = decimal_go (suc n) n

-- The value of the digits behind `n`; `u64` refuses what does not fit.
scan : ℕ → Bytes → Io ℕ
scan n [] = done n
scan n (c ∷ s) =
    if ltb c b'0' || ltb b'9' c
    then failed (codes "invalid digit found in string")
    else if ltb (n * 10 + (c - b'0')) u64_mod
    then scan (n * 10 + (c - b'0')) s
    else failed (codes "number too large to fit in target type")

-- A leading `+` is accepted, but not alone.
unfoldable pub parse_u64 : Bytes → Io ℕ
unfolding scan
parse_u64 [] = failed (codes "cannot parse integer from empty string")
parse_u64 (c ∷ []) =
    if c == b'+' then failed (codes "invalid digit found in string") else scan 0 (c ∷ [])
parse_u64 (c ∷ d ∷ s) = if c == b'+' then scan 0 (d ∷ s) else scan 0 (c ∷ d ∷ s)

parse_test : parse_u64 (codes "18446744073709551615") ≡ done (u64_mod - 1)
unfolding parse_u64
parse_test = refl

decimal_test : decimal 1048576 ≡ codes "1048576"
unfolding decimal
decimal_test = refl
