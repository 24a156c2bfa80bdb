-- ===== src/Subfile/Validate/Chunk.antt =====
-- One round of the validation, for a chunk file made from known content.
use subfile_data_service.Prelude.{
  ℕ, zero, suc, Bytes, ◌+◌, ◌-◌, ◌*◌, ◌≤◌, ◌<◌, ◌≡◌, refl, sym, ap, ◌∙◌, min, map, arith, length,
  slice, drop, length-take, length-drop, get_elem?, get_elem?-map, take-min-length, codes, ◌++◌,
  some, bytes_eq_iff, bytes_eq_refl, Bool, true, false,
}
use subfile_data_service.Errors.{Error, invalid_config}
use subfile_data_service.Rust.Result.{ok, ◌>>=◌, >>=-eq-ok}
use subfile_data_service.Rust.Words.{Build, isize_max, add_u64-eq-ok, sub_u64-eq-ok, mul_u64-eq-ok}
use subfile_data_service.System.{FileSystem, Holds}
use subfile_data_service.Subfile.Hasher.{Digest, CollisionFree, hash_chunk, verify_chunk}
use subfile_data_service.Subfile.Reader.Chunks.{num_chunks, pieces, chunks_of}
use subfile_data_service.Subfile.Reader.Ranges.{
  read_chunk-eq-range_of, range_of, range_of-eq-ok, range_of_inside,
}
use subfile_data_service.Subfile.Types.{ChunkFile, ChunkFileMeta}
use subfile_data_service.Subfile.ChunkFiles.{chunk_range, check, validate_chunk}

-- The chunk file of `content` in chunks of `size` bytes: what `new` makes of a file.
abbrev pub published : Digest → ℕ → Bytes → ChunkFile
published d size content = record {
  total_bytes = length content;
  chunk_size = size;
  chunk_hashes = map (hash_chunk d) (chunks_of size content);
}

-- The length of the chunk that begins at `start`.
abbrev pub chunk_length : ℕ → ℕ → ℕ → ℕ
chunk_length size total start = min size (total - start)

-- Behind the last byte there is nothing to cut off.
pub whole_chunk :
    (size : ℕ) (content : Bytes) (i : ℕ)
    → slice (i * size) size content
      ≡ slice (i * size) (chunk_length size (length content) (i * size)) content
whole_chunk size content i =
    sym (take-min-length size _ (drop (i * size) content) (length-drop (i * size) content))

get_elem?-pieces :
    (size : ℕ) (content : Bytes) (rounds start i : ℕ)
    → i < rounds
    → get_elem? (pieces size content rounds start) i ≡ some (slice (start + i * size) size content)
get_elem?-pieces size content zero start i h = absurd (omega arith)
get_elem?-pieces size content (suc rounds) start zero h =
    ap (λ n. some (slice n size content)) (omega arith)
get_elem?-pieces size content (suc rounds) start (suc i) h =
    get_elem?-pieces size content rounds (start + size) i (omega arith)
    ∙ ap (λ n. some (slice n size content)) (omega arith)

pub length-pieces :
    (size : ℕ) (content : Bytes) (rounds start : ℕ)
    → length (pieces size content rounds start) ≡ rounds
length-pieces size content zero start = refl
length-pieces size content (suc rounds) start =
    ap suc (length-pieces size content rounds (start + size))

lt-num_chunks : (size n i : ℕ) → 0 < size → i * size < n → i < num_chunks size n
lt-num_chunks size n i h lt = grind arith

module _ (build : Build) (d : Digest) (content : Bytes) (size : ℕ) where
  pub chunk_range-eq :
      (i : ℕ)
      → i * size < length content
      → length content ≤ isize_max
      → 0 < size
      → size ≤ isize_max
      → chunk_range build (published d size content) i
        ≡ ok (i * size, i * size + chunk_length size (length content) (i * size) - 1)
  unfolding chunk_range
  chunk_range-eq i inside bounded pos fits = ground (
    arith,
    mul_u64-eq-ok build i size,
    add_u64-eq-ok build (i * size) size,
    sub_u64-eq-ok build (min (i * size + size) (length content)) 1,
  )

  pub get_elem?-chunk_hashes :
      (i : ℕ)
      → i * size < length content
      → 0 < size
      → get_elem? (map (hash_chunk d) (chunks_of size content)) i
        ≡ some (hash_chunk d (slice (i * size) size content))
  get_elem?-chunk_hashes i inside pos =
      get_elem?-map (chunks_of size content) (hash_chunk d) i
        (get_elem?-pieces size content _ 0 i (lt-num_chunks size (length content) i pos inside))
      ∙ ap (λ n. some (hash_chunk d (slice n size content))) (omega arith)

check-eq-ok : (b : Bool) (e : Error) → check b e ≡ ok tt → b ≡ true
unfolding check
check-eq-ok true e h = refl
check-eq-ok false e h = cc

pub hash_injective :
    (d : Digest) → CollisionFree d → (a b : Bytes) → hash_chunk d a ≡ hash_chunk d b → a ≡ b
unfolding hash_chunk
hash_injective d free a b e = free.sha256_injective a b (free.base64_injective _ _ e)

-- One chunk of a file that holds `local`, against the chunk file of `content`.
module _ (build : Build) (fs : FileSystem) (d : Digest) (free : CollisionFree d)
    (path local content : Bytes) (h : Holds fs path local) (size : ℕ) (file : ChunkFileMeta)
    (made : file.chunk_file ≡ published d size content) (pos : 0 < size) (fits : size ≤ isize_max)
    (bounded : length content ≤ isize_max) (i : ℕ) (inside : i * size < length content) where
  abbrev n : ℕ
  n = chunk_length size (length content) (i * size)

  -- The `n` bytes of the chunk are the same in both.
  abbrev pub Agrees : Type 0
  Agrees = slice (i * size) n local ≡ slice (i * size) n content

  abbrev failure : Error
  failure =
      invalid_config (codes "Failed to validate the local version of file " ++ file.meta_info.hash)

  validate_chunk-eq : validate_chunk build fs d path file i ≡ (
      range_of build local (i * size) (i * size + n - 1) >>= λ chunk_data.
      check (verify_chunk d chunk_data (hash_chunk d (slice (i * size) n content))) failure)
  unfolding validate_chunk
  validate_chunk-eq = rw (
    made,
    chunk_range-eq build d content size i inside bounded pos fits,
    get_elem?-chunk_hashes build d content size i inside pos,
    read_chunk-eq-range_of fs path local h,
    whole_chunk size content i,
  )

  pub validate_chunk_sound : validate_chunk build fs d path file i ≡ ok tt → Agrees
  validate_chunk_sound e =
      let (chunk_data, read, checked) =
        >>=-eq-ok (range_of build local (i * size) (i * size + n - 1)) _
          (rw validate_chunk-eq at e) in
      let (lt, same) =
        range_of-eq-ok build local (i * size) (i * size + n - 1) chunk_data (omega arith) read in
      ap (λ k. slice (i * size) k local) (omega arith)
      ∙ same
      ∙ hash_injective d free chunk_data (slice (i * size) n content)
          (unfold verify_chunk in (bytes_eq_iff _ _).0 (check-eq-ok _ _ checked))

  agrees_inside : Agrees → i * size + n ≤ length local
  agrees_inside e = omega (
    arith,
    ap (λ (xs : Bytes). length xs) e,
    length-take n (drop (i * size) local),
    length-take n (drop (i * size) content),
    length-drop (i * size) local,
    length-drop (i * size) content,
  )

  pub validate_chunk_complete : Agrees → validate_chunk build fs d path file i ≡ ok tt
  unfolding check verify_chunk
  validate_chunk_complete e =
      let room = agrees_inside e in
      let k : i * size + n - 1 - i * size + 1 ≡ n = omega arith in
      rw (
        validate_chunk-eq,
        range_of_inside build local (i * size) (i * size + n - 1) (omega arith) (omega arith),
        k,
        e,
        bytes_eq_refl (hash_chunk d (slice (i * size) n content)),
      )
