-- ===== src/Client/Rounds/Tasks.antt =====
-- What one task's transfer does to the file of a download.
use mathlib.Core.Path.{subst}
use subfile_data_service.Prelude.{
  ℕ, Bytes, List, ◌+◌, ◌-◌, ◌*◌, ◌≤◌, ◌<◌, ◌≡◌, sym, ap, ◌∙◌, arith, length, slice, take, drop,
  length-take, length-drop, length-map, take-take-length, get_elem?, get_elem?-ge, map, true,
  Option, dec_lt, bytes_eq_iff,
}
use subfile_data_service.Rust.Result.{Result, ok, panic, Io, >>=-eq-ok, ok-injective, unwrap, ok_or}
use subfile_data_service.Rust.Words.{Build, isize_max}
use subfile_data_service.Subfile.Hasher.{Digest, CollisionFree, hash_chunk, verify_chunk}
use subfile_data_service.Subfile.Types.{ChunkFileMeta}
use subfile_data_service.Subfile.Reader.Chunks.{num_chunks, chunks_of, num_chunks_tight}
use subfile_data_service.Subfile.ChunkFiles.{chunk_range}
use subfile_data_service.Subfile.Validate.Chunk.{
  published, chunk_length, chunk_range-eq, get_elem?-chunk_hashes, length-pieces, whole_chunk,
  hash_injective,
}
use subfile_data_service.Client.Targets.{IndexerEndpoint, SubfileDownloader}
use subfile_data_service.Client.Request.{
  DownloadRangeRequest, GetRequest, GetResponse, download_range_request,
}
use subfile_data_service.Client.Transfer.{WriteOutcome, download_chunk_and_write_to_file}
use subfile_data_service.Client.Transfer.Attempts.{
  Outcome, stored, torn, unchanged, aborted, download_chunk-Outcome,
}
use subfile_data_service.Client.Rounds.Overwrite.{Agrees, Agrees_made, Agrees_kept, length_kept}

lt_of_num_chunks : (size n i : ℕ) → 0 < size → i < num_chunks size n → i * size < n
lt_of_num_chunks size n i pos h = let tight = num_chunks_tight size n pos in grind arith

-- What a transfer leaves in the file, whichever way it ends.
pub record Kept (size : ℕ) (content : Bytes) (i : ℕ) (file : Bytes) (p : Result (Unit {0}) × Bytes)
    : Type 0 where
  pub within : length file ≤ length content → length p.1 ≤ length content
  pub kept :
      (j : ℕ) → j * size < length content → Agrees size content j file → Agrees size content j p.1
  pub stores : p.0 ≡ ok tt → Agrees size content i p.1

module _ (build : Build) (d : Digest) (free : CollisionFree d) (self : SubfileDownloader)
    (meta : ChunkFileMeta) (content : Bytes) (size : ℕ)
    (made : meta.chunk_file ≡ published d size content) (pos : 0 < size) (fits : size ≤ isize_max)
    (bounded : length content ≤ isize_max) where
  abbrev n : ℕ → ℕ
  n i = chunk_length size (length content) (i * size)

  hash_inside :
      (i : ℕ) (hash : Bytes)
      → unwrap (get_elem? meta.chunk_file.chunk_hashes i) ≡ ok hash
      → i * size < length content
  hash_inside i hash found = elim (dec_lt i (num_chunks size (length content))) [
    | yes lt ↦ lt_of_num_chunks size (length content) i pos lt
    | no ge ↦ absurd (
        panic-ne-ok hash (
          rw
            (
              made,
              get_elem?-ge (map (hash_chunk d) (chunks_of size content)) i (
                  omega (
                    arith,
                    length-map (chunks_of size content) (hash_chunk d),
                    length-pieces size content (num_chunks size (length content)) 0,
                  )),
            )
            at found))
  ]
    where
      panic-ne-ok : (x : Bytes) → panic ≡ ok x → ⊥
      panic-ne-ok x e = cc

  range_at :
      (i : ℕ)
      → i * size < length content
      → ok (i * size, i * size + n i - 1) ≡ chunk_range build meta.chunk_file i
  range_at i inside = rw made (sym (chunk_range-eq build d content size i inside bounded pos fits))

  hash_at :
      (i : ℕ)
      → i * size < length content
      → ok (hash_chunk d (slice (i * size) (n i) content))
        ≡ unwrap (get_elem? meta.chunk_file.chunk_hashes i)
  hash_at i inside =
      rw
        (made, get_elem?-chunk_hashes build d content size i inside pos, whole_chunk size content i)

  -- A request that is made is for a chunk of the content, at its place and with its hash.
  request_of :
      (choose : List IndexerEndpoint → Option IndexerEndpoint) (i : ℕ) (req : DownloadRangeRequest)
      → download_range_request build choose self meta i ≡ ok req
      → (i * size < length content)
        × (req.start ≡ i * size)
        × (req.chunk_hash ≡ hash_chunk d (slice (i * size) (n i) content))
  unfolding download_range_request
  request_of choose i req e =
      let (endpoint, chosen, more) = >>=-eq-ok (ok_or (choose self.indexer_urls) _) _ e in
      let (range, ranged, more') = >>=-eq-ok (chunk_range build meta.chunk_file i) _ more in
      let (hash, found, same) =
        >>=-eq-ok (unwrap (get_elem? meta.chunk_file.chunk_hashes i)) _ more' in
      let inside = hash_inside i hash found in
      (
        inside,
        sym (ap (λ (r : DownloadRangeRequest). r.start) (ok-injective same))
            ∙ sym (ap (λ (r : ℕ × ℕ). r.0) (ok-injective (range_at i inside ∙ ranged))),
        sym (ap (λ (r : DownloadRangeRequest). r.chunk_hash) (ok-injective same))
            ∙ sym (ok-injective (hash_at i inside ∙ found)),
      )

  -- A verified chunk is the chunk of the content.
  verified :
      (i : ℕ) (req : DownloadRangeRequest) (chunk : Bytes)
      → req.chunk_hash ≡ hash_chunk d (slice (i * size) (n i) content)
      → verify_chunk d chunk req.chunk_hash ≡ true
      → chunk ≡ slice (i * size) (n i) content
  unfolding verify_chunk
  verified i req chunk e v =
      hash_injective d free chunk (slice (i * size) (n i) content)
        ((bytes_eq_iff (hash_chunk d chunk) req.chunk_hash).0 v ∙ e)

  length-chunk : (i : ℕ) → i * size < length content → length (slice (i * size) (n i) content) ≡ n i
  length-chunk i inside =
      omega (arith, length-take (n i) (drop (i * size) content), length-drop (i * size) content)

  -- The front part of a verified chunk.
  front_of :
      (i k : ℕ) (chunk : Bytes)
      → i * size < length content
      → chunk ≡ slice (i * size) (n i) content
      → (take k chunk ≡ slice (i * size) (length (take k chunk)) content)
        × (length (take k chunk) ≤ n i)
  front_of i k chunk inside e = (
    rw e (take-take-length k (n i) (drop (i * size) content)),
    omega (arith, ap (λ (xs : Bytes). length xs) e, length-take k chunk, length-chunk i inside),
  )

  Outcome-Kept :
      (i : ℕ) (req : DownloadRangeRequest) (file : Bytes) {p : Result (Unit {0}) × Bytes}
      → i * size < length content
      → req.start ≡ i * size
      → req.chunk_hash ≡ hash_chunk d (slice (i * size) (n i) content)
      → Outcome d req file p
      → Kept size content i file p
  Outcome-Kept i req file inside at hashed (stored chunk v) =
      let e = verified i req chunk hashed v in
      let len : length chunk ≡ n i = ap (λ (xs : Bytes). length xs) e ∙ length-chunk i inside in
      let right : chunk ≡ slice (i * size) (length chunk) content =
        e ∙ ap (λ m. slice (i * size) m content) (sym len) in
      rw at (record {
        within = length_kept size content file pos i inside chunk right (omega arith);
        kept = Agrees_kept size content file pos i inside chunk right (omega arith);
        stores = λ h. Agrees_made size content file pos i inside chunk right (omega arith) len;
      })
  Outcome-Kept i req file inside at hashed (torn e k chunk v) =
      let (right, short) = front_of i k chunk inside (verified i req chunk hashed v) in
      rw at (record {
        within = length_kept size content file pos i inside (take k chunk) right short;
        kept = Agrees_kept size content file pos i inside (take k chunk) right short;
        stores = λ h. cc;
      })
  Outcome-Kept i req file inside at hashed (unchanged e) = record {
    within = λ h. h;
    kept = λ j h a. a;
    stores = λ h. cc;
  }
  Outcome-Kept i req file inside at hashed (aborted no_token) = record {
    within = λ h. h;
    kept = λ j h a. a;
    stores = λ h. cc;
  }

  pub transfer-Kept :
      (choose : List IndexerEndpoint → Option IndexerEndpoint) (i : ℕ) (req : DownloadRangeRequest)
      (send : ℕ → GetRequest → Io GetResponse) (outcome : WriteOutcome) (file file' : Bytes)
      (r : Result (Unit {0}))
      → download_range_request build choose self meta i ≡ ok req
      → download_chunk_and_write_to_file d send outcome req file ≡ (r, file')
      → Kept size content i file (r, file')
  transfer-Kept choose i req send outcome file file' r made_req ran =
      let (inside, at, hashed) = request_of choose i req made_req in
      subst (λ p. Kept size content i file p) ran
        (Outcome-Kept i req file inside at hashed (download_chunk-Outcome d outcome req file send))
