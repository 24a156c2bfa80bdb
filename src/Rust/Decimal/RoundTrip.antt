-- ===== src/Rust/Decimal/RoundTrip.antt =====
-- Decimal print and parse of a `u64`.
use subfile_data_service.Prelude.{
  ℕ, zero, suc, Bytes, ◌+◌, ◌-◌, ◌*◌, ◌/◌, ◌%◌, ◌≤◌, ◌<◌, ◌++◌, ◌≡◌, ◌≢◌, refl, [], ◌∷◌, inl, inr,
  arith, ltb, ltb→lt, Bool-cases, All, All-append, Lacks,
}
use subfile_data_service.Rust.Result.{done}
use subfile_data_service.Rust.Words.{u64_mod}
use subfile_data_service.Rust.Decimal.{decimal_go, decimal, scan, parse_u64}

abbrev IsDigit : ℕ → Type 0
IsDigit c = (b'0' ≤ c) × (c ≤ b'9')

scan-append :
    (n m c : ℕ) (s : Bytes)
    → scan n s ≡ done m
    → IsDigit c
    → m * 10 + (c - b'0') < u64_mod
    → scan n (s ++ c ∷ []) ≡ done (m * 10 + (c - b'0'))
unfolding scan
scan-append n m c [] e h fits = ground arith
scan-append n m c (x ∷ s) e h fits = ground (arith, scan-append (n * 10 + (x - b'0')) m c s)

scan-decimal_go : (f n : ℕ) → n < f → n < u64_mod → scan 0 (decimal_go f n) ≡ done n
unfolding decimal_go
scan-decimal_go zero n h fits = absurd (omega arith)
scan-decimal_go (suc f) n h fits = elim (Bool-cases (ltb n 10)) [
  | inl small ↦ rw small (unfold scan in ground arith)
  | inr big ↦ rw big (
      ground (
        arith,
        scan-append 0 (n / 10) (b'0' + n % 10) (decimal_go f (n / 10)),
        scan-decimal_go f (n / 10),
      ))
]

decimal_go-digits : (f n : ℕ) → All IsDigit (decimal_go f n)
unfolding decimal_go
decimal_go-digits zero n = tt
decimal_go-digits (suc f) n = elim (Bool-cases (ltb n 10)) [
  | inl small ↦ let lt = ltb→lt n 10 small in rw small (omega arith)
  | inr big ↦
      rw big
        (All-append IsDigit (decimal_go f (n / 10)) _ (decimal_go-digits f (n / 10)) (omega arith))
]

Digits-Lacks : (s : Bytes) (c : ℕ) → c < b'0' → All IsDigit s → Lacks c s
Digits-Lacks [] c h d = tt
Digits-Lacks (x ∷ s) c h d = (omega arith, Digits-Lacks s c h d.1)

-- A decimal print holds no byte below `0`, so no `-` and no `+`.
pub decimal-Lacks : (n c : ℕ) → c < b'0' → Lacks c (decimal n)
unfolding decimal
decimal-Lacks n c h = Digits-Lacks _ c h (decimal_go-digits (suc n) n)

decimal-ne-nil : (n : ℕ) → decimal n ≢ []
unfolding decimal
decimal-ne-nil n e = elim (Bool-cases (ltb n 10)) [
  | inl small ↦ cc (rw small at e)
  | inr big ↦ snoc_ne (decimal_go n (n / 10)) (b'0' + n % 10) (rw big at e)
]
  where
    snoc_ne : (s : Bytes) (c : ℕ) → s ++ c ∷ [] ≢ []
    snoc_ne [] c e = cc
    snoc_ne (x ∷ s) c e = cc

parse_u64-scan : (s : Bytes) → s ≢ [] → Lacks b'+' s → parse_u64 s ≡ scan 0 s
unfolding parse_u64
parse_u64-scan [] h l = absurd (h refl)
parse_u64-scan (c ∷ []) h l = ground arith
parse_u64-scan (c ∷ d ∷ s) h l = ground arith

pub parse_u64-decimal : (n : ℕ) → n < u64_mod → parse_u64 (decimal n) ≡ done n
parse_u64-decimal n fits =
    rw (parse_u64-scan (decimal n) (decimal-ne-nil n) (decimal-Lacks n b'+' (omega arith)))
      (unfold decimal in scan-decimal_go (suc n) n (omega arith) fits)
