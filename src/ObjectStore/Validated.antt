-- ===== src/ObjectStore/Validated.antt =====
-- The server's validation against a chunk file that the store has made.
use subfile_data_service.Prelude.{
  ℕ, zero, suc, Bytes, List, [], ◌∷◌, ◌++◌, ◌+◌, ◌-◌, ◌*◌, ◌/◌, ◌≤◌, ◌<◌, ◌≡◌, refl, sym, ap, ◌∙◌,
  min, arith, length, length-map, get_elem?, some,
}
use subfile_data_service.Errors.{invalid_range}
use subfile_data_service.Rust.Result.{ok, err}
use subfile_data_service.Rust.Words.{
  Build, isize_max, add_u64-eq-ok, sub_u64-eq-ok, mul_u64-eq-ok, div_u64-eq-ok,
}
use subfile_data_service.System.{FileSystem, Holds}
use subfile_data_service.Subfile.Hasher.{Digest, CollisionFree, hash_chunk}
use subfile_data_service.Subfile.Types.{ChunkFileMeta}
use subfile_data_service.Subfile.Reader.{out_of_bound}
use subfile_data_service.Subfile.Reader.Chunks.{chunks_of, num_chunks}
use subfile_data_service.Subfile.Reader.Ranges.{read_chunk-eq-range_of, range_of}
use subfile_data_service.Subfile.ChunkFiles.{
  chunk_range, chunk_rounds, validate_chunk, validate_chunks,
}
use subfile_data_service.Subfile.Validate.Chunk.{published, length-pieces}
use subfile_data_service.Subfile.Validate.Files.{div_exact, validate_first}

get_elem?-append_lt :
    (xs ys : List Bytes) (i : ℕ) → i < length xs → get_elem? (xs ++ ys) i ≡ get_elem? xs i
get_elem?-append_lt [] ys i h = absurd (omega arith)
get_elem?-append_lt (x ∷ xs) ys zero h = refl
get_elem?-append_lt (x ∷ xs) ys (suc i) h = get_elem?-append_lt xs ys i (omega arith)

get_elem?-append_length :
    (xs : List Bytes) (y : Bytes) (i : ℕ) → i ≡ length xs → get_elem? (xs ++ y ∷ []) i ≡ some y
get_elem?-append_length [] y i e = rw e
get_elem?-append_length (x ∷ xs) y zero e = absurd (omega arith)
get_elem?-append_length (x ∷ xs) y (suc i) e = get_elem?-append_length xs y i (omega arith)

-- A chunk file with one more hash behind that of the content, whose length the chunk size divides.
module _ (build : Build) (fs : FileSystem) (d : Digest) (free : CollisionFree d)
    (path content : Bytes) (h : Holds fs path content) (size k : ℕ) (file : ChunkFileMeta)
    (extra : Bytes)
    (made : file.chunk_file ≡ record (published d size content) {
      chunk_hashes = (published d size content).chunk_hashes ++ extra ∷ [];
    })
    (pos : 0 < size) (fits : size ≤ isize_max) (whole : suc k * size ≡ length content) where
  abbrev plain_file : ChunkFileMeta
  plain_file = record file { chunk_file = published d size content }

  num_chunks-eq : num_chunks size (length content) ≡ suc k
  num_chunks-eq = chunks k size (length content) pos whole
    where
      chunks : (k size n : ℕ) → 0 < size → suc k * size ≡ n → num_chunks size n ≡ suc k
      chunks k size n pos h = grind arith

  length-hashes : length (published d size content).chunk_hashes ≡ suc k
  length-hashes =
      length-map (chunks_of size content) (hash_chunk d)
      ∙ length-pieces size content (num_chunks size (length content)) 0
      ∙ num_chunks-eq

  validate_same :
      (i : ℕ)
      → i < suc k
      → validate_chunk build fs d path file i ≡ validate_chunk build fs d path plain_file i
  unfolding validate_chunk chunk_range
  validate_same i lt = rw (
    made,
    get_elem?-append_lt (published d size content).chunk_hashes (extra ∷ []) i
        (omega (arith, length-hashes)),
  )

  validate_inside : (i : ℕ) → i < suc k → validate_chunk build fs d path file i ≡ ok tt
  validate_inside i lt =
      validate_same i lt
      ∙ validate_first build fs d free path content content h size plain_file refl pos fits
          h.bounded i (inside i k size (length content) pos lt whole) refl
    where
      inside : (i k size n : ℕ) → 0 < size → i < suc k → suc k * size ≡ n → i * size < n
      inside i k size n pos lt e = grind arith

  -- The chunk at the end of the file has no first byte.
  validate_end :
      validate_chunk build fs d path file (suc k)
      ≡ err (invalid_range (out_of_bound (length content) (length content - 1) (length content)))
  unfolding validate_chunk chunk_range range_of
  validate_end =
      let behind : min (length content + size) (length content) ≡ length content = omega arith in
      let some_bytes : 1 ≤ length content = least k size (length content) pos whole in
      rw
        (
          made,
          mul_u64-eq-ok build (suc k) size (omega (arith, h.bounded)),
          whole,
          add_u64-eq-ok build (length content) size (omega (arith, h.bounded)),
          behind,
          sub_u64-eq-ok build (length content) 1 some_bytes,
          get_elem?-append_length (published d size content).chunk_hashes extra (suc k)
              (sym length-hashes),
          read_chunk-eq-range_of fs path content h,
        )
        (ground arith)
    where
      least : (k size n : ℕ) → 0 < size → suc k * size ≡ n → 1 ≤ n
      least k size n pos e = grind arith

  pub validate_chunks-rejected :
      (rounds i : ℕ)
      → i + rounds ≡ suc k
      → validate_chunks build fs d path file (suc rounds) i
        ≡ err (invalid_range (out_of_bound (length content) (length content - 1) (length content)))
  unfolding validate_chunks
  validate_chunks-rejected zero i here =
      let at_end : i ≡ suc k = omega arith in rw (at_end, validate_end)
  validate_chunks-rejected (suc rounds) i here =
      rw (validate_inside i (omega arith)) (validate_chunks-rejected rounds (i + 1) (omega arith))

  pub rounds-eq : chunk_rounds build file.chunk_file ≡ ok (suc (suc k))
  unfolding chunk_rounds
  rounds-eq =
      let q : length content / size ≡ suc k = div_exact size (length content) (suc k) pos whole in
      rw (made, div_u64-eq-ok (length content) size pos, q)
        (add_u64-eq-ok build (suc k) 1
            (omega (arith, le_mul (suc k) size (length content) pos whole, h.bounded))
          ∙ ap ok (omega arith))
    where
      le_mul : (k size n : ℕ) → 0 < size → k * size ≡ n → k ≤ n
      le_mul k size n pos e = grind arith
