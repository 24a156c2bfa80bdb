-- ===== src/ObjectStore/Hashed.antt =====
-- The chunk file that the store makes of an object.
use subfile_data_service.Prelude.{
  ℕ, zero, suc, Bytes, List, [], ◌∷◌, ◌++◌, ◌+◌, ◌*◌, ◌/◌, ◌%◌, ◌≤◌, ◌<◌, ◌≡◌, ◌≢◌, ap, ◌∙◌, min,
  map, arith, length, length-append, length-take, slice, take, concat, take-eq_self, some,
  drop-eq-nil,
}
use mathlib.Core.List.{map-append}
use subfile_data_service.Rust.Result.{ok}
use subfile_data_service.Rust.Words.{Build, u64_mod, isize_max, add_u64-eq-ok, div_u64-eq-ok}
use subfile_data_service.Subfile.Hasher.{Digest, hash_chunk}
use subfile_data_service.Subfile.Reader.Chunks.{pieces, num_chunks}
use subfile_data_service.Subfile.Types.{ChunkFile}
use subfile_data_service.Subfile.Validate.Chunk.{published}
use subfile_data_service.Subfile.Validate.Files.{num_chunks_part, div_exact}
use subfile_data_service.ObjectStore.Local.{LocalFileSystem, Stores}
use subfile_data_service.ObjectStore.Store.{Store, step_of, sum_lengths, chunk_object, first}
use subfile_data_service.ObjectStore.Ranges.{concat-pieces}
use subfile_data_service.ObjectStore.Parts.{multipart_read-pieces}

sum_lengths-eq :
    (build : Build) (parts : List Bytes) (total : ℕ)
    → total + length (concat parts) < u64_mod
    → sum_lengths build total parts ≡ ok (total + length (concat parts))
unfolding sum_lengths
sum_lengths-eq build [] total room = ap ok (omega arith)
sum_lengths-eq build (part ∷ parts) total room =
    let len = length-append part (concat parts) in
    rw (add_u64-eq-ok build total (length part) (omega (arith, len))) (
      sum_lengths-eq build parts (total + length part) (omega (arith, len))
      ∙ ap ok (omega (arith, len)))

-- What the store makes of `content` with parts of `step` bytes: also a part at the end of the
-- object, and as chunk size the length of the first part.
abbrev pub of_parts : Digest → ℕ → Bytes → ChunkFile
of_parts d step content = record {
  total_bytes = length content;
  chunk_size = min step (length content);
  chunk_hashes = map (hash_chunk d) (pieces step content (length content / step + 1) 0);
}

pub concat-pieces_all :
    (step : ℕ) (content : Bytes)
    → 0 < step
    → concat (pieces step content (length content / step + 1) 0) ≡ content
concat-pieces_all step content pos =
    concat-pieces step content (length content / step + 1) 0
    ∙ take-eq_self ((length content / step + 1) * step) content (covers step (length content) pos)
  where
    covers : (step n : ℕ) → 0 < step → n ≤ (n / step + 1) * step
    covers step n pos = grind arith

module _ (fs : LocalFileSystem) (build : Build) (d : Digest) (self : Store fs)
    (location content : Bytes) (disk : fs.Disk)
    (h : Stores fs self.local_file_system location content disk) (many : 0 < self.read_concurrency)
    (bounded : length content ≤ isize_max) (step : ℕ) (pos : 0 < step)
    (fits : step ≤ isize_max) where
  abbrev parts : List Bytes
  parts = pieces step content (length content / step + 1) 0

  some_step : step_of self.read_concurrency (length content) (some step) ≡ ok step
  unfolding step_of
  some_step = rw (div_u64-eq-ok (length content) self.read_concurrency many)

  first-parts : first parts ≡ some (slice 0 step content)
  unfolding first
  first-parts = first_of (length content / step)
    where
      first_of : (q : ℕ) → first (pieces step content (q + 1) 0) ≡ some (slice 0 step content)
      first_of q = let e : q + 1 ≡ suc q = omega arith in rw e

  pub chunk_object-eq :
      chunk_object fs build d self location (some step) disk ≡ ok (of_parts d step content)
  unfolding chunk_object
  chunk_object-eq =
      let joined = ap (λ (xs : Bytes). length xs) (concat-pieces_all step content pos) in
      let total : 0 + length (concat parts) ≡ length content = omega (arith, joined) in
      let front : length (take step content) ≡ min step (length content) =
        length-take step content in
      rw (
        multipart_read-pieces fs build self location content disk h (some step) step some_step pos
            fits bounded,
        sum_lengths-eq build parts 0 (omega (arith, joined)),
        total,
        first-parts,
        front,
      )

pieces-tail :
    (step : ℕ) (content : Bytes) (rounds start : ℕ)
    → length content ≤ start + rounds * step
    → pieces step content (suc rounds) start ≡ pieces step content rounds start ++ [] ∷ []
pieces-tail step content zero start ends =
    ap (λ xs. take step xs ∷ []) (drop-eq-nil start content (omega arith))
    ∙ ap (λ (xs : Bytes). xs ∷ []) (take-eq_self step [] (omega arith))
pieces-tail step content (suc rounds) start ends =
    ap (λ ps. slice start step content ∷ ps)
      (pieces-tail step content rounds (start + step)
        (more rounds start (length content) step ends))
  where
    more :
        (rounds start n step : ℕ) → n ≤ start + suc rounds * step → n ≤ start + step + rounds * step
    more rounds start n step h = grind arith

module _ (d : Digest) (step : ℕ) (content : Bytes) (pos : 0 < step) where
  -- When the parts neither end with the object nor are longer than it, nothing differs.
  pub of_parts-eq-published :
      length content % step ≢ 0
      → step ≤ length content
      → of_parts d step content ≡ published d step content
  of_parts-eq-published part le =
      let size : min step (length content) ≡ step = omega arith in
      rw (size, num_chunks_part step (length content) pos part)

  -- An object that is shorter than a part is one chunk, and its length the chunk size.
  pub of_parts-small :
      0 < length content
      → length content < step
      → of_parts d step content ≡ published d (length content) content
  of_parts-small some_bytes small =
      let size : min step (length content) ≡ length content = omega arith in
      let one : length content / step + 1 ≡ suc 0 = small_div (length content) step small in
      let whole : num_chunks (length content) (length content) ≡ suc 0 =
        one_chunk (length content) some_bytes in
      rw (
        size,
        one,
        whole,
        take-eq_self step content (omega arith),
        take-eq_self (length content) content (omega arith),
      )
    where
      small_div : (n step : ℕ) → n < step → n / step + 1 ≡ suc 0
      small_div n step h = grind arith

      one_chunk : (n : ℕ) → 0 < n → num_chunks n n ≡ suc 0
      one_chunk n h = grind arith

  -- When the parts end with the object, there is one more hash, of no bytes.
  pub of_parts-exact :
      (k : ℕ)
      → suc k * step ≡ length content
      → of_parts d step content ≡ record (published d step content) {
        chunk_hashes = (published d step content).chunk_hashes ++ hash_chunk d [] ∷ [];
      }
  of_parts-exact k e =
      let size : min step (length content) ≡ step =
        omega (arith, longer k step (length content) e) in
      let q : length content / step + 1 ≡ suc (suc k) =
        omega (arith, div_exact step (length content) (suc k) pos e) in
      let n : num_chunks step (length content) ≡ suc k = chunks k step (length content) pos e in
      rw (size, q, n)
        (ap (λ hs. record (published d step content) { chunk_hashes = hs })
          (ap (map (hash_chunk d)) (pieces-tail step content (suc k) 0 (omega arith))
            ∙ map-append (hash_chunk d) (pieces step content (suc k) 0) ([] ∷ [])))
    where
      longer : (k step n : ℕ) → suc k * step ≡ n → step ≤ n
      longer k step n h = grind arith

      chunks : (k step n : ℕ) → 0 < step → suc k * step ≡ n → num_chunks step n ≡ suc k
      chunks k step n pos h = grind arith
