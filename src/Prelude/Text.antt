-- ===== src/Prelude/Text.antt =====
-- Byte strings: file contents, headers and texts (a Rust `String` is its UTF-8 bytes).
use Prim.Native.Nat.{ℕ}
use Prim.Native.Char.{code}
use Prim.Native.String.{String}
use mathlib.Core.Path.{◌≡◌, refl, ap}
use mathlib.Core.Logic.{◌↔◌, ◌≢◌}
use mathlib.Core.Bool.{Bool, true, false, ◌&&◌}
use mathlib.Core.List.{List, [], ◌∷◌, ◌++◌, append-nil, append_assoc}
use mathlib.Core.Option.{Option, none, some}
use native.Mathlib.Omega.{arith}
use subfile_data_service.Prelude.Tests.{◌==◌, ==_refl, if◌then◌else◌}

abbrev pub Bytes : Type 0
Bytes = List ℕ

-- The bytes of a text literal (all literals here are ASCII).
abbrev pub codes : String → Bytes
codes String.[] = []
codes (String.◌∷◌ c s) = code c ∷ codes s

-- `==` on strings and on vectors of bytes.
unfoldable pub bytes_eq : Bytes → Bytes → Bool
bytes_eq [] [] = true
bytes_eq [] (y ∷ ys) = false
bytes_eq (x ∷ xs) [] = false
bytes_eq (x ∷ xs) (y ∷ ys) = (x == y) && bytes_eq xs ys

pub bytes_eq_refl : (xs : Bytes) → bytes_eq xs xs ≡ true
unfolding bytes_eq
bytes_eq_refl [] = refl
bytes_eq_refl (x ∷ xs) = rw (==_refl x) (bytes_eq_refl xs)

bytes_eq_sound : (xs ys : Bytes) → bytes_eq xs ys ≡ true → xs ≡ ys
unfolding bytes_eq
bytes_eq_sound [] [] h = refl
bytes_eq_sound [] (y ∷ ys) h = cc
bytes_eq_sound (x ∷ xs) [] h = cc
bytes_eq_sound (x ∷ xs) (y ∷ ys) h = ground (arith, bytes_eq_sound xs ys)

pub bytes_eq_iff : (xs ys : Bytes) → (bytes_eq xs ys ≡ true) ↔ (xs ≡ ys)
bytes_eq_iff xs ys = (bytes_eq_sound xs ys, λ e. rw e (bytes_eq_refl ys))

-- `str::strip_prefix`, with which `starts_with` and the slices behind a prefix are written.
unfoldable pub strip_prefix : Bytes → Bytes → Option Bytes
strip_prefix [] s = some s
strip_prefix (p ∷ ps) [] = none
strip_prefix (p ∷ ps) (c ∷ s) = let rest = strip_prefix ps s in if p == c then rest else none

unfoldable pub starts_with : Bytes → Bytes → Bool
unfolding strip_prefix
starts_with p s = elim (strip_prefix p s) [ none ↦ false | some _ ↦ true ]

pub strip_prefix-append : (p s : Bytes) → strip_prefix p (p ++ s) ≡ some s
unfolding strip_prefix
strip_prefix-append [] s = refl
strip_prefix-append (p ∷ ps) s = rw (==_refl p) (strip_prefix-append ps s)

pub strip_prefix-eq_some : (p s r : Bytes) → strip_prefix p s ≡ some r → s ≡ p ++ r
unfolding strip_prefix
strip_prefix-eq_some [] s r h = cc
strip_prefix-eq_some (p ∷ ps) [] r h = cc
strip_prefix-eq_some (p ∷ ps) (c ∷ s) r h = ground (arith, strip_prefix-eq_some ps s r)

-- `str::split` on a one-byte pattern. There is always at least one part.
split_go : ℕ → Bytes → Bytes → List Bytes
split_go sep cur [] = cur ∷ []
split_go sep cur (c ∷ s) = elim (c == sep) [
  | true ↦ cur ∷ split_go sep [] s
  | false ↦ split_go sep (cur ++ c ∷ []) s
]

unfoldable pub split : ℕ → Bytes → List Bytes
unfolding split_go
split sep s = split_go sep [] s

-- A text without the separator.
abbrev pub Lacks : ℕ → Bytes → Type 0
Lacks sep [] = Unit
Lacks sep (c ∷ s) = (c ≢ sep) × Lacks sep s

split_go-Lacks : (sep : ℕ) (cur s : Bytes) → Lacks sep s → split_go sep cur s ≡ (cur ++ s) ∷ []
unfolding split_go
split_go-Lacks sep cur [] h = rw append-nil
split_go-Lacks sep cur (c ∷ s) h =
    ground (arith, split_go-Lacks sep (cur ++ c ∷ []) s, append_assoc cur (c ∷ []) s)

split_go-append :
    (sep : ℕ) (cur a b : Bytes)
    → Lacks sep a
    → split_go sep cur (a ++ sep ∷ b) ≡ (cur ++ a) ∷ split_go sep [] b
unfolding split_go
split_go-append sep cur [] b h = ground (arith, append-nil cur)
split_go-append sep cur (c ∷ a) b h =
    ground (arith, split_go-append sep (cur ++ c ∷ []) a b, append_assoc cur (c ∷ []) a)

-- A text with one separator has the two parts beside it.
pub split_two :
    (sep : ℕ) (a b : Bytes) → Lacks sep a → Lacks sep b → split sep (a ++ sep ∷ b) ≡ a ∷ b ∷ []
unfolding split
split_two sep a b ha hb =
    rw (split_go-append sep [] a b ha) (ap (λ t. a ∷ t) (split_go-Lacks sep [] b hb))
