-- ===== src/Client/Rounds/Overwrite.antt =====
-- What a write of a chunk, whole or torn, does to the chunks of the file.
use subfile_data_service.Prelude.{
  ℕ, Bytes, ◌+◌, ◌-◌, ◌*◌, ◌≤◌, ◌<◌, ◌≡◌, refl, ap, ◌∙◌, arith, length, slice, drop, length-take,
  length-drop, take-eq_self, dec_lt,
}
use mathlib.Core.Path.{subst}
use subfile_data_service.Subfile.Spans.{Same, Same-cast, Same-join, Same-back}
use subfile_data_service.Subfile.Validate.Chunk.{chunk_length}
use subfile_data_service.Client.Transfer.{write_at}
use subfile_data_service.Client.Transfer.Writes.{
  slice-write_at_before, slice-write_at_behind, slice-write_at_self, length-write_at,
}

-- Chunk `i` of the file is that of the content.
abbrev pub Agrees : (size : ℕ) (content : Bytes) (i : ℕ) (file : Bytes) → Type 0
Agrees size content i file =
    Same file content (i * size) (chunk_length size (length content) (i * size))

mul_lt : (size i j : ℕ) → j < i → j * size + size ≤ i * size
mul_lt size i j h = grind arith

-- A file that agrees on a chunk is long enough to hold it.
pub Agrees-length :
    (size : ℕ) (content file : Bytes) (i : ℕ)
    → 0 < size
    → i * size < length content
    → Agrees size content i file
    → i * size + chunk_length size (length content) (i * size) ≤ length file
Agrees-length size content file i pos inside e = omega (
  arith,
  ap (λ (xs : Bytes). length xs) e,
  length-take (chunk_length size (length content) (i * size)) (drop (i * size) file),
  length-take (chunk_length size (length content) (i * size)) (drop (i * size) content),
  length-drop (i * size) file,
  length-drop (i * size) content,
)

-- `piece` is the front part of chunk `i`, or the chunk.
module _ (size : ℕ) (content file : Bytes) (pos : 0 < size) (i : ℕ)
    (inside : i * size < length content) (piece : Bytes)
    (right : piece ≡ slice (i * size) (length piece) content)
    (short : length piece ≤ chunk_length size (length content) (i * size)) where
  abbrev file' : Bytes
  file' = write_at (i * size) piece file

  piece-Same : Same file' content (i * size) (length piece)
  piece-Same =
      slice-write_at_self (i * size) piece file (length piece) (omega arith)
      ∙ take-eq_self (length piece) piece (omega arith)
      ∙ right

  pub Agrees_made :
      length piece ≡ chunk_length size (length content) (i * size) → Agrees size content i file'
  Agrees_made e = Same-cast file' content (i * size) (i * size) (length piece) _ refl e piece-Same

  Agrees_self : Agrees size content i file → Agrees size content i file'
  Agrees_self e =
      let n = chunk_length size (length content) (i * size) in
      let m = length piece in
      Same-cast file' content (i * size) (i * size) (m + (n - m)) n refl (omega arith) (
        Same-join file' content (i * size) m (n - m) piece-Same (
          slice-write_at_behind (i * size) piece file (i * size + m) (n - m) (omega arith)
          ∙ Same-back file content (i * size) m (n - m)
              (Same-cast file content (i * size) (i * size) n (m + (n - m)) refl (omega arith) e)))

  -- No chunk that agreed is spoilt.
  pub Agrees_kept :
      (j : ℕ) → j * size < length content → Agrees size content j file → Agrees size content j file'
  Agrees_kept j inside_j e = elim (dec_lt j i) [
    | yes lt ↦
        slice-write_at_before (i * size) piece file (j * size)
          (chunk_length size (length content) (j * size)) (omega (arith, mul_lt size i j lt))
          (Agrees-length size content file j pos inside_j e)
        ∙ e
    | no ge ↦ elim (dec_lt i j) [
      | yes gt ↦
          slice-write_at_behind (i * size) piece file (j * size)
            (chunk_length size (length content) (j * size)) (omega (arith, mul_lt size j i gt))
          ∙ e
      | no le ↦
          let same : i ≡ j = omega arith in
          subst (λ k. Agrees size content k file → Agrees size content k file') same Agrees_self e
    ]
  ]

  pub length_kept : length file ≤ length content → length file' ≤ length content
  length_kept h = length-write_at (i * size) piece file (length content) (omega arith) h
