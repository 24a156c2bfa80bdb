-- ===== src/Subfile/Spans.antt =====
-- Contents that agree on a span of bytes.
use mathlib.Core.Path.{subst₂}
use subfile_data_service.Prelude.{
  ℕ, Bytes, ◌++◌, ◌+◌, ◌≡◌, sym, ap, ◌∙◌, slice, take, drop, take-add, drop-drop, take-take_add,
  drop-take_add,
}

-- Two contents have the same `m` bytes at `s`.
abbrev pub Same : Bytes → Bytes → (s m : ℕ) → Type 0
Same xs ys s m = slice s m xs ≡ slice s m ys

pub Same-join :
    (xs ys : Bytes) (s a b : ℕ) → Same xs ys s a → Same xs ys (s + a) b → Same xs ys s (a + b)
Same-join xs ys s a b p q =
    rw (take-add a b (drop s xs), take-add a b (drop s ys), drop-drop a s xs, drop-drop a s ys, p)
      (ap (λ t. slice s a ys ++ t) q)

pub Same-front : (xs ys : Bytes) (s a b : ℕ) → Same xs ys s (a + b) → Same xs ys s a
Same-front xs ys s a b p =
    sym (take-take_add a b (drop s xs)) ∙ ap (take a) p ∙ take-take_add a b (drop s ys)

pub Same-back : (xs ys : Bytes) (s a b : ℕ) → Same xs ys s (a + b) → Same xs ys (s + a) b
Same-back xs ys s a b p =
    ap (take b) (sym (drop-drop a s xs))
    ∙ sym (drop-take_add a b (drop s xs))
    ∙ ap (drop a) p
    ∙ drop-take_add a b (drop s ys)
    ∙ ap (take b) (drop-drop a s ys)

pub Same-cast :
    (xs ys : Bytes) (s s' m m' : ℕ) → s ≡ s' → m ≡ m' → Same xs ys s m → Same xs ys s' m'
Same-cast xs ys s s' m m' e f = subst₂ (λ a b. Same xs ys a b) e f
