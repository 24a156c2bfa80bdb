-- ===== src/Subfile/Validate/Files.antt =====
-- `read_and_validate_file` on a file whose content was published.
use subfile_data_service.Prelude.{
  ℕ, zero, suc, Bytes, ◌+◌, ◌-◌, ◌*◌, ◌/◌, ◌%◌, ◌≤◌, ◌<◌, ◌≡◌, ◌≢◌, ◌↔◌, refl, sym, ap, inl, inr,
  ◌∙◌, min, arith, length, take, take-eq_self, map, get_elem?, none, get_elem?-ge, length-map,
  dec_lt,
}
use subfile_data_service.Rust.Result.{ok, panic, >>=-eq-ok}
use subfile_data_service.Rust.Words.{
  Build, isize_max, add_u64-eq-ok, mul_u64-eq-ok, div_u64-eq-ok, sub_u64-cases,
}
use subfile_data_service.System.{FileSystem, Holds}
use subfile_data_service.Subfile.Hasher.{Digest, CollisionFree, hash_chunk}
use subfile_data_service.Subfile.Reader.Chunks.{
  num_chunks, chunks_of, num_chunks_covers, num_chunks_tight,
}
use subfile_data_service.Subfile.Spans.{Same, Same-cast, Same-join, Same-front, Same-back}
use subfile_data_service.Subfile.Types.{ChunkFileMeta, Subfile}
use subfile_data_service.Subfile.ChunkFiles.{
  push, chunk_range, chunk_rounds, validate_chunk, validate_chunks, read_and_validate_file,
}
use subfile_data_service.Subfile.Validate.Chunk.{
  published, chunk_length, length-pieces, validate_chunk_sound, validate_chunk_complete,
}

pub num_chunks_part : (size n : ℕ) → 0 < size → n % size ≢ 0 → num_chunks size n ≡ n / size + 1
num_chunks_part size n pos part = grind arith

pub div_exact : (size n k : ℕ) → 0 < size → k * size ≡ n → n / size ≡ k
div_exact size n k pos e = grind arith

pub num_chunks_exact : (size n k : ℕ) → 0 < size → k * size ≡ n → num_chunks size n ≤ k
num_chunks_exact size n k pos e = grind arith

le_mul : (size k : ℕ) → 0 < size → k ≤ k * size
le_mul size k pos = grind arith

module _ (build : Build) (fs : FileSystem) (d : Digest) (free : CollisionFree d)
    (path local content : Bytes) (h : Holds fs path local) (size : ℕ) (file : ChunkFileMeta)
    (made : file.chunk_file ≡ published d size content) (pos : 0 < size) (fits : size ≤ isize_max)
    (bounded : length content ≤ isize_max) where
  abbrev total : ℕ
  total = length content

  validate_chunks_sound :
      (rounds i : ℕ)
      → total ≤ (i + rounds) * size
      → (i + rounds) * size < total + size
      → validate_chunks build fs d path file rounds i ≡ ok tt
      → Same local content (i * size) (total - i * size)
  unfolding validate_chunks
  validate_chunks_sound zero i covers tight e =
      let none_left : total - i * size ≡ 0 = omega arith in rw none_left
  validate_chunks_sound (suc rounds) i covers tight e =
      let (u, first, rest) = >>=-eq-ok (validate_chunk build fs d path file i) _ e in
      let agrees =
        validate_chunk_sound build fs d free path local content h size file made pos fits bounded i
          (omega arith) first in
      let others = validate_chunks_sound rounds (i + 1) (omega arith) (omega arith) rest in
      elim (dec_lt (i * size + size) total) [
        | yes more ↦
            Same-cast local content (i * size) (i * size) (size + (total - (i + 1) * size)) _ refl
              (omega arith)
              (Same-join local content (i * size) size (total - (i + 1) * size)
                (Same-cast local content (i * size) _ (min size (total - i * size)) size refl
                  (omega arith) agrees)
                (Same-cast local content ((i + 1) * size) (i * size + size) (total - (i + 1) * size)
                  _ (omega arith) refl others))
        | no last ↦
            Same-cast local content (i * size) _ (min size (total - i * size)) (total - i * size)
              refl (omega arith) agrees
      ]

  -- The first chunk of what is left, and what is left behind it.
  first_agrees :
      (i : ℕ)
      → i * size < total
      → Same local content (i * size) (total - i * size)
      → Same local content (i * size) (chunk_length size total (i * size))
  first_agrees i inside same =
      Same-front local content (i * size) (min size (total - i * size))
        (total - i * size - min size (total - i * size))
        (Same-cast local content _ (i * size) (total - i * size) _ refl (omega arith) same)

  pub rest_agrees :
      (i : ℕ)
      → i * size < total
      → Same local content (i * size) (total - i * size)
      → Same local content ((i + 1) * size) (total - (i + 1) * size)
  rest_agrees i inside same = elim (dec_lt (i * size + size) total) [
    | yes more ↦
        Same-cast local content (i * size + size) ((i + 1) * size) (total - (i + 1) * size) _
          (omega arith) refl
          (Same-back local content (i * size) size (total - (i + 1) * size)
            (Same-cast local content _ (i * size) (total - i * size) _ refl (omega arith) same))
    | no last ↦ let none_left : total - (i + 1) * size ≡ 0 = omega arith in rw none_left
  ]

  pub validate_first :
      (i : ℕ)
      → i * size < total
      → Same local content (i * size) (total - i * size)
      → validate_chunk build fs d path file i ≡ ok tt
  validate_first i inside same =
      validate_chunk_complete build fs d free path local content h size file made pos fits bounded i
        inside (first_agrees i inside same)

  pub validate_chunks_complete :
      (rounds i : ℕ)
      → (i + rounds) * size < total + size
      → Same local content (i * size) (total - i * size)
      → validate_chunks build fs d path file rounds i ≡ ok tt
  unfolding validate_chunks
  validate_chunks_complete zero i tight same = refl
  validate_chunks_complete (suc rounds) i tight same =
      rw (validate_first i (omega arith) same)
        (validate_chunks_complete rounds (i + 1) (omega arith) (rest_agrees i (omega arith) same))

  no_hash :
      (k : ℕ) → k * size ≡ total → get_elem? (map (hash_chunk d) (chunks_of size content)) k ≡ none
  no_hash k e = get_elem?-ge _ k (
      omega (
        arith,
        length-map (chunks_of size content) (hash_chunk d),
        length-pieces size content (num_chunks size total) 0,
        num_chunks_exact size total k pos e,
      ))

  -- The round behind the last chunk looks up a hash that is not there.
  validate_behind : (k : ℕ) → k * size ≡ total → validate_chunk build fs d path file k ≡ panic
  unfolding validate_chunk chunk_range
  validate_behind k e = elim (sub_u64-cases build (min (k * size + size) total) 1) [
    | inl p ↦ rw (
      made,
      mul_u64-eq-ok build k size (omega arith),
      add_u64-eq-ok build (k * size) size (omega arith),
      p,
    )
    | inr (r, p) ↦ rw (
      made,
      mul_u64-eq-ok build k size (omega arith),
      add_u64-eq-ok build (k * size) size (omega arith),
      p,
      no_hash k e,
    )
  ]

  validate_chunks-panic :
      (rounds i k : ℕ)
      → i + rounds ≡ k
      → k * size ≡ total
      → Same local content (i * size) (total - i * size)
      → validate_chunks build fs d path file (suc rounds) i ≡ panic
  unfolding validate_chunks
  validate_chunks-panic zero i k here e same =
      let at_k : i ≡ k = omega arith in rw (at_k, validate_behind k e)
  validate_chunks-panic (suc rounds) i k here e same =
      let e' : (i + suc rounds) * size ≡ total = rw here e in
      let inside : i * size < total = omega arith in
      rw (validate_first i inside same)
        (validate_chunks-panic rounds (i + 1) k (omega arith) e (rest_agrees i inside same))

  rounds_eq : total % size ≢ 0 → chunk_rounds build file.chunk_file ≡ ok (num_chunks size total)
  unfolding chunk_rounds
  rounds_eq part =
      rw (made, div_u64-eq-ok total size pos, num_chunks_part size total pos part)
        (add_u64-eq-ok build (total / size) 1 (omega arith))

  rounds_exact : (k : ℕ) → k * size ≡ total → chunk_rounds build file.chunk_file ≡ ok (suc k)
  unfolding chunk_rounds
  rounds_exact k e =
      let q : total / size ≡ k = div_exact size total k pos e in
      rw (made, div_u64-eq-ok total size pos, q)
        (add_u64-eq-ok build k 1 (omega (arith, le_mul size k pos)) ∙ ap ok (omega arith))

-- A file of a subfile on the local disk: its path holds `local`, and its chunk file is the one
-- made from `content` with a chunk size above zero.
module _ (build : Build) (fs : FileSystem) (d : Digest) (free : CollisionFree d) (subfile : Subfile)
    (file : ChunkFileMeta) (local content : Bytes)
    (h : Holds fs (push subfile.local_path file.meta_info.name) local) (size : ℕ)
    (made : file.chunk_file ≡ published d size content) (pos : 0 < size) (fits : size ≤ isize_max)
    (bounded : length content ≤ isize_max) where
  abbrev path : Bytes
  path = push subfile.local_path file.meta_info.name

  abbrev n : ℕ
  n = length content

  whole : take n local ≡ content → Same local content (0 * size) (n - 0 * size)
  whole e =
      Same-cast local content 0 (0 * size) n (n - 0 * size) (omega arith) (omega arith)
        (e ∙ sym (take-eq_self n content (omega arith)))

  -- Let the hash functions be collision-free and the chunk file be the one of the content, with
  -- a chunk size above zero that does not divide its length, both within isize. Then the
  -- validation accepts exactly the local files that begin with the content.
  pub read_and_validate_file_iff :
      length content % size ≢ 0
      → (read_and_validate_file build fs d subfile file ≡ ok tt)
        ↔ (take (length content) local ≡ content)
  unfolding read_and_validate_file
  read_and_validate_file_iff part = (
    λ e.
        Same-cast local content (0 * size) 0 (n - 0 * size) n (omega arith) (omega arith) (
          validate_chunks_sound build fs d free path local content h size file made pos fits bounded
            (num_chunks size n) 0 (omega (arith, num_chunks_covers size n pos))
            (omega (arith, num_chunks_tight size n pos)) (rw rounds at e))
        ∙ take-eq_self n content (omega arith),
    λ e. rw rounds (
        validate_chunks_complete build fs d free path local content h size file made pos fits
          bounded (num_chunks size n) 0 (omega (arith, num_chunks_tight size n pos)) (whole e)),
  )
    where
      rounds : chunk_rounds build file.chunk_file ≡ ok (num_chunks size n)
      rounds = rounds_eq build fs d free path local content h size file made pos fits bounded part

  -- Let the chunk file be the one of the content, with a chunk size above zero that divides its
  -- length, and the hash functions collision-free. Then the validation of an intact local file
  -- panics, in every build: the loop makes one round more than there are hashes.
  pub read_and_validate_file-panic :
      (k : ℕ)
      → k * size ≡ length content
      → take (length content) local ≡ content
      → read_and_validate_file build fs d subfile file ≡ panic
  unfolding read_and_validate_file
  read_and_validate_file-panic k e same =
      rw (rounds_exact build fs d free path local content h size file made pos fits bounded k e) (
        validate_chunks-panic build fs d free path local content h size file made pos fits bounded k
          0 k (omega arith) e (whole same))
