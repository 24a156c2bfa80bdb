-- ===== src/Rust/Words.antt =====
-- `u64` arithmetic (`usize` is `u64` on the 64-bit targets) under both build profiles: overflow panics
-- in a debug build and wraps around in a release build.
use subfile_data_service.Prelude.{
  ℕ, ◌+◌, ◌-◌, ◌*◌, ◌/◌, ◌%◌, ◌^◌, ◌≤◌, ◌<◌, ◌≡◌, ◌⊎◌, inl, inr, Bool-cases, arith, ltb, leb, ◌==◌,
  if◌then◌else◌,
}
use subfile_data_service.Rust.Result.{Result, ok, panic}

abbrev pub u64_mod : ℕ
u64_mod = 2 ^ 64

abbrev pub isize_max : ℕ
isize_max = 2 ^ 63 - 1

pub data Build : Type 0 where
  debug : Build
  release : Build

unfoldable pub overflow : Build → ℕ → Result ℕ
overflow debug wrapped = panic
overflow release wrapped = ok wrapped

unfoldable pub add_u64 : Build → ℕ → ℕ → Result ℕ
unfolding overflow
add_u64 b x y = if ltb (x + y) u64_mod then ok (x + y) else overflow b ((x + y) % u64_mod)

unfoldable pub sub_u64 : Build → ℕ → ℕ → Result ℕ
unfolding overflow
sub_u64 b x y = if leb y x then ok (x - y) else overflow b (x + u64_mod - y)

unfoldable pub mul_u64 : Build → ℕ → ℕ → Result ℕ
unfolding overflow
mul_u64 b x y = if ltb (x * y) u64_mod then ok (x * y) else overflow b (x * y % u64_mod)

-- Division by zero panics in every build.
unfoldable pub div_u64 : ℕ → ℕ → Result ℕ
div_u64 x y = if y == 0 then panic else ok (x / y)

-- `vec![0; n]` panics when the capacity passes `isize::MAX`.
unfoldable pub vec_zeroed : ℕ → Result (Unit {0})
vec_zeroed n = if leb n isize_max then ok tt else panic

pub add_u64-eq-ok : (b : Build) (x y : ℕ) → x + y < u64_mod → add_u64 b x y ≡ ok (x + y)
unfolding add_u64
add_u64-eq-ok b x y h = ground arith

pub sub_u64-eq-ok : (b : Build) (x y : ℕ) → y ≤ x → sub_u64 b x y ≡ ok (x - y)
unfolding sub_u64
sub_u64-eq-ok b x y h = ground arith

pub mul_u64-eq-ok : (b : Build) (x y : ℕ) → x * y < u64_mod → mul_u64 b x y ≡ ok (x * y)
unfolding mul_u64
mul_u64-eq-ok b x y h = ground arith

pub div_u64-eq-ok : (x y : ℕ) → 0 < y → div_u64 x y ≡ ok (x / y)
unfolding div_u64
div_u64-eq-ok x y h = ground arith

pub vec_zeroed-eq-ok : (n : ℕ) → n ≤ isize_max → vec_zeroed n ≡ ok tt
unfolding vec_zeroed
vec_zeroed-eq-ok n h = ground arith

pub sub_u64-cases :
    (b : Build) (x y : ℕ) → (sub_u64 b x y ≡ panic) ⊎ ((r : ℕ) × (sub_u64 b x y ≡ ok r))
unfolding sub_u64
sub_u64-cases debug x y = elim (Bool-cases (leb y x)) [
  | inl e ↦ inr (x - y, rw e)
  | inr e ↦ inl (rw e)
]
sub_u64-cases release x y = elim (Bool-cases (leb y x)) [
  | inl e ↦ inr (x - y, rw e)
  | inr e ↦ inr (x + u64_mod - y, rw e)
]
