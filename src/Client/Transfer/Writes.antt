-- ===== src/Client/Transfer/Writes.antt =====
-- What a file holds after a write.
use subfile_data_service.Prelude.{
  ℕ, zero, suc, Bytes, ◌++◌, ◌+◌, ◌-◌, ◌≤◌, ◌≡◌, refl, sym, ap, ◌∙◌, arith, length, slice, take,
  drop, length-append, length-take, length-drop, append_assoc, take-append-drop, drop-append_le,
  take-append_le, drop-drop, drop-length_append,
}
use subfile_data_service.Client.Transfer.{zeros, write_at}

length-zeros : (n : ℕ) → length (zeros n) ≡ n
length-zeros zero = refl
length-zeros (suc n) = ap suc (length-zeros n)

slice-append_le :
    (s m : ℕ) (xs ys : Bytes) → s + m ≤ length xs → slice s m (xs ++ ys) ≡ slice s m xs
slice-append_le s m xs ys h =
    ap (take m) (drop-append_le s xs ys (omega arith))
    ∙ take-append_le m (drop s xs) ys (omega (arith, length-drop s xs))

pub slice-take :
    (s m n : ℕ) (xs : Bytes) → s + m ≤ n → s + m ≤ length xs → slice s m (take n xs) ≡ slice s m xs
slice-take s m n xs hn hx =
    sym (slice-append_le s m (take n xs) (drop n xs) (omega (arith, length-take n xs)))
    ∙ ap (slice s m) (take-append-drop n xs)

module _ (start : ℕ) (chunk file : Bytes) where
  -- The bytes before the write, filled up to its start.
  front : Bytes
  front = take start file ++ zeros (start - length file)

  length-front : length front ≡ start
  unfolding front
  length-front = omega (
    arith,
    length-append (take start file) (zeros (start - length file)),
    length-take start file,
    length-zeros (start - length file),
  )

  write_at-front : write_at start chunk file ≡ front ++ (chunk ++ drop (start + length chunk) file)
  unfolding write_at front
  write_at-front = sym (
      append_assoc (take start file) (zeros (start - length file))
        (chunk ++ drop (start + length chunk) file))

  pub slice-write_at_before :
      (s m : ℕ)
      → s + m ≤ start
      → s + m ≤ length file
      → slice s m (write_at start chunk file) ≡ slice s m file
  slice-write_at_before s m h long =
      ap (slice s m) write_at-front
      ∙ slice-append_le s m front _ (omega (arith, length-front))
      ∙ unfold front in
        (slice-append_le s m (take start file) (zeros (start - length file))
            (omega (arith, length-take start file))
          ∙ slice-take s m start file h long)

  behind :
      drop (start + length chunk) (write_at start chunk file) ≡ drop (start + length chunk) file
  behind =
      ap (drop (start + length chunk)) (write_at-front ∙ sym (append_assoc front chunk _))
      ∙ ap (λ n. drop n ((front ++ chunk) ++ drop (start + length chunk) file))
          (omega (arith, length-front, length-append front chunk))
      ∙ drop-length_append (front ++ chunk) (drop (start + length chunk) file)

  pub slice-write_at_behind :
      (s m : ℕ) → start + length chunk ≤ s → slice s m (write_at start chunk file) ≡ slice s m file
  slice-write_at_behind s m h =
      let e : s ≡ start + length chunk + (s - (start + length chunk)) = omega arith in
      rw e (
        ap (take m) (
          sym (drop-drop (s - (start + length chunk)) (start + length chunk) _)
          ∙ ap (drop (s - (start + length chunk))) behind
          ∙ drop-drop (s - (start + length chunk)) (start + length chunk) file))

  pub slice-write_at_self :
      (m : ℕ) → m ≤ length chunk → slice start m (write_at start chunk file) ≡ take m chunk
  slice-write_at_self m h =
      ap (slice start m) write_at-front
      ∙ ap (λ n. slice n m (front ++ (chunk ++ drop (start + length chunk) file)))
          (sym length-front)
      ∙ ap (take m) (drop-length_append front _)
      ∙ take-append_le m chunk _ h

  pub length-write_at :
      (n : ℕ) → start + length chunk ≤ n → length file ≤ n → length (write_at start chunk file) ≤ n
  length-write_at n h fits = omega (
    arith,
    ap (λ (xs : Bytes). length xs) write_at-front,
    length-front,
    length-append front (chunk ++ drop (start + length chunk) file),
    length-append chunk (drop (start + length chunk) file),
    length-drop (start + length chunk) file,
  )
