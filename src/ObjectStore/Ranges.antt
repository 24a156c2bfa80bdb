-- ===== src/ObjectStore/Ranges.antt =====
-- The ranges of a multipart read or write, and the parts that they cut.
use subfile_data_service.Prelude.{
  ℕ, zero, suc, Bytes, List, [], ◌∷◌, ◌++◌, ◌+◌, ◌-◌, ◌*◌, ◌/◌, ◌≤◌, ◌<◌, ◌≡◌, refl, sym, ap, ◌∙◌,
  min, map, arith, length, length-take, take, drop, concat, take-add, drop-drop, All, Option, none,
  some, if◌then◌else◌, ltb, ltb→lt, Bool-cases, inl, inr,
}
use subfile_data_service.Rust.Result.{ok, panic}
use subfile_data_service.Rust.Words.{
  Build, u64_mod, isize_max, div_u64, add_u64-eq-ok, mul_u64-eq-ok, div_u64-eq-ok,
}
use subfile_data_service.Subfile.Reader.Chunks.{pieces}
use subfile_data_service.Subfile.Validate.Chunk.{whole_chunk}
use subfile_data_service.ObjectStore.Local.{Inside, cut}
use subfile_data_service.ObjectStore.Store.{part_range, part_ranges, part_rounds, step_of}

div_le : (n step : ℕ) → 0 < step → n / step ≤ n
div_le n step pos = grind arith

pub suc_mul : (i step : ℕ) → suc i * step ≡ i * step + step
suc_mul i step = grind arith

-- The ranges of the rounds from `i` on.
abbrev pub ranges_of : (step size rounds i : ℕ) → List (ℕ × ℕ)
ranges_of step size zero i = []
ranges_of step size (suc rounds) i =
    (i * step, min (suc i * step) size) ∷ ranges_of step size rounds (suc i)

module _ (build : Build) (step size : ℕ) (pos : 0 < step) (fits : step ≤ isize_max)
    (bounded : size ≤ isize_max) where
  pub part_range-eq :
      (i : ℕ)
      → i * step ≤ size
      → part_range build step size i ≡ ok (i * step, min (suc i * step) size)
  unfolding part_range
  part_range-eq i inside =
      let next : i + 1 ≡ suc i = omega arith in
      rw (
        mul_u64-eq-ok build i step (omega arith),
        add_u64-eq-ok build i 1 (omega (arith, le_mul i step pos)),
        next,
        mul_u64-eq-ok build (suc i) step (omega (arith, suc_mul i step)),
      )
    where
      le_mul : (i step : ℕ) → 0 < step → i ≤ i * step
      le_mul i step pos = grind arith

  pub part_ranges-eq :
      (rounds i : ℕ)
      → (i + rounds) * step ≤ size + step
      → part_ranges build step size rounds i ≡ ok (ranges_of step size rounds i)
  unfolding part_ranges
  part_ranges-eq zero i tight = refl
  part_ranges-eq (suc rounds) i tight = rw (
    part_range-eq i (first i rounds tight),
    part_ranges-eq rounds (suc i) (rw (shift i rounds) at tight),
  )
    where
      first : (i rounds : ℕ) → (i + suc rounds) * step ≤ size + step → i * step ≤ size
      first i rounds h = grind arith

      shift : (i rounds : ℕ) → i + suc rounds ≡ suc i + rounds
      shift i rounds = omega arith

  pub part_rounds-eq : part_rounds build step size ≡ ok (size / step + 1)
  unfolding part_rounds
  part_rounds-eq =
      rw (div_u64-eq-ok size step pos)
        (add_u64-eq-ok build (size / step) 1 (small size step pos bounded))
    where
      small : (n step : ℕ) → 0 < step → n ≤ isize_max → n / step + 1 < u64_mod
      small n step pos h = let le = div_le n step pos in omega arith

  pub part_ranges_all :
      part_ranges build step size (size / step + 1) 0 ≡ ok (ranges_of step size (size / step + 1) 0)
  part_ranges_all = part_ranges-eq (size / step + 1) 0 (tight size step pos)
    where
      tight : (n step : ℕ) → 0 < step → (0 + (n / step + 1)) * step ≤ n + step
      tight n step pos = grind arith

-- Each round begins inside the bytes or at their end.
pub ranges_of-Inside :
    (step : ℕ) (content : Bytes) (rounds i : ℕ)
    → (i + rounds) * step ≤ length content + step
    → All (Inside content) (ranges_of step (length content) rounds i)
ranges_of-Inside step content zero i tight = tt
ranges_of-Inside step content (suc rounds) i tight = (
  (omega (arith, suc_mul i step, first i rounds (length content) step tight), omega arith),
  ranges_of-Inside step content rounds (suc i) (rw (shift i rounds) at tight),
)
  where
    first : (i rounds n step : ℕ) → (i + suc rounds) * step ≤ n + step → i * step ≤ n
    first i rounds n step h = grind arith

    shift : (i rounds : ℕ) → i + suc rounds ≡ suc i + rounds
    shift i rounds = omega arith

-- For a step between 1 and isize and an object within isize, in both builds: the number of
-- rounds and every range are computed without overflow, and every range starts at or before its
-- end and ends inside the object.
pub part_ranges-Inside :
    (build : Build) (step : ℕ) (content : Bytes)
    → 0 < step
    → step ≤ isize_max
    → length content ≤ isize_max
    → (rounds : ℕ) × (ranges : List (ℕ × ℕ)) × (part_rounds build step (length content) ≡ ok rounds)
      × (part_ranges build step (length content) rounds 0 ≡ ok ranges)
      × All (Inside content) ranges
part_ranges-Inside build step content pos fits bounded = (
  length content / step + 1,
  ranges_of step (length content) (length content / step + 1) 0,
  part_rounds-eq build step (length content) pos fits bounded,
  part_ranges_all build step (length content) pos fits bounded,
  ranges_of-Inside step content (length content / step + 1) 0 (tight (length content) step pos),
)
  where
    tight : (n step : ℕ) → 0 < step → (0 + (n / step + 1)) * step ≤ n + step
    tight n step pos = grind arith

pub cut-ranges_of :
    (step : ℕ) (content : Bytes) (rounds i : ℕ)
    → map (cut content) (ranges_of step (length content) rounds i)
      ≡ pieces step content rounds (i * step)
cut-ranges_of step content zero i = refl
cut-ranges_of step content (suc rounds) i =
    let len : min (suc i * step) (length content) - i * step
        ≡ min step (length content - i * step) =
      omega (arith, suc_mul i step) in
    let next : suc i * step ≡ i * step + step = suc_mul i step in
    rw (len, ← whole_chunk step content i, cut-ranges_of step content rounds (suc i), next)

-- Pieces, joined, spell the content from the first one's start on.
pub concat-pieces :
    (step : ℕ) (content : Bytes) (rounds start : ℕ)
    → concat (pieces step content rounds start) ≡ take (rounds * step) (drop start content)
concat-pieces step content zero start =
    let none_left : 0 ≡ 0 * step = omega arith in ap (λ n. take n (drop start content)) none_left
concat-pieces step content (suc rounds) start =
    ap (λ xs. take step (drop start content) ++ xs)
      (concat-pieces step content rounds (start + step)
        ∙ ap (take (rounds * step)) (sym (drop-drop step start content)))
    ∙ sym (take-add step (rounds * step) (drop start content))
    ∙ ap (λ n. take n (drop start content)) (sum rounds step)
  where
    sum : (rounds step : ℕ) → step + rounds * step ≡ suc rounds * step
    sum rounds step = grind arith

pub pieces-le :
    (step : ℕ) (content : Bytes) (rounds start : ℕ)
    → All (λ (p : Bytes). length p ≤ step) (pieces step content rounds start)
pieces-le step content zero start = tt
pieces-le step content (suc rounds) start = (
  omega (arith, length-take step (drop start content)),
  pieces-le step content rounds (start + step),
)

-- The chunk size that an operation gets can be used: it is above zero, or there is none and the
-- object has bytes.
abbrev pub IsUsable : (size : ℕ) → Option ℕ → Type 0
IsUsable size none = 0 < size
IsUsable size (some step) = (0 < step) × (step ≤ isize_max)

pub step_of-eq :
    (concurrency size : ℕ) (chunk_size : Option ℕ)
    → 0 < concurrency
    → size ≤ isize_max
    → IsUsable size chunk_size
    → (step : ℕ) × (step_of concurrency size chunk_size ≡ ok step) × (0 < step) × (step ≤ isize_max)
unfolding step_of
step_of-eq concurrency size (some step) pos bounded usable =
    (step, rw (div_u64-eq-ok size concurrency pos), usable.0, usable.1)
step_of-eq concurrency size none pos bounded usable =
    elim (Bool-cases (ltb 0 (size / concurrency))) [
      | inl e ↦ (
        size / concurrency,
        rw (div_u64-eq-ok size concurrency pos, e),
        ltb→lt 0 _ e,
        omega (arith, div_le size concurrency pos),
      )
      | inr e ↦ (size, rw (div_u64-eq-ok size concurrency pos, e), usable, bounded)
    ]

-- The chunk size is 0, or there is none for an object without bytes.
abbrev pub IsUnusable : (size : ℕ) → Option ℕ → Type 0
IsUnusable size none = size ≡ 0
IsUnusable size (some step) = step ≡ 0

pub step_of_zero :
    (concurrency size : ℕ) (chunk_size : Option ℕ)
    → 0 < concurrency
    → IsUnusable size chunk_size
    → step_of concurrency size chunk_size ≡ ok 0
unfolding step_of
step_of_zero concurrency size (some step) pos e = rw (div_u64-eq-ok size concurrency pos, e)
step_of_zero concurrency size none pos e =
    rw (e, div_u64-eq-ok 0 concurrency pos) (zero_over (0 / concurrency) (div_le 0 concurrency pos))
  where
    zero_over : (q : ℕ) → q ≤ 0 → ok (if ltb 0 q then q else 0) ≡ ok 0
    zero_over q le = ground arith

-- By a step of 0 the number of parts cannot be divided.
pub part_rounds_zero : (build : Build) (size : ℕ) → part_rounds build 0 size ≡ panic
unfolding part_rounds div_u64
part_rounds_zero build size = refl
