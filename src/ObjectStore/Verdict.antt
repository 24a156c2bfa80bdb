-- ===== src/ObjectStore/Verdict.antt =====
-- `read_and_validate_file` on an intact file whose chunk file `Store::chunk_file` has made.
use subfile_data_service.Prelude.{
  ℕ, suc, Bytes, [], ◌∷◌, ◌++◌, ◌*◌, ◌-◌, ◌%◌, ◌≤◌, ◌<◌, ◌≡◌, ◌≢◌, sym, ◌∙◌, arith, length, some,
  take, take-eq_self,
}
use subfile_data_service.Errors.{invalid_range}
use subfile_data_service.Rust.Result.{ok, err, panic, ok-injective}
use subfile_data_service.Rust.Words.{Build, isize_max}
use subfile_data_service.System.{FileSystem, Holds}
use subfile_data_service.Subfile.Hasher.{Digest, CollisionFree, hash_chunk}
use subfile_data_service.Subfile.Types.{ChunkFileMeta, Subfile}
use subfile_data_service.Subfile.Reader.{out_of_bound}
use subfile_data_service.Subfile.ChunkFiles.{push, read_and_validate_file}
use subfile_data_service.Subfile.Validate.Chunk.{published}
use subfile_data_service.Subfile.Validate.Files.{
  read_and_validate_file_iff, read_and_validate_file-panic,
}
use subfile_data_service.ObjectStore.Local.{LocalFileSystem, Stores}
use subfile_data_service.ObjectStore.Store.{Store, chunk_object}
use subfile_data_service.ObjectStore.Hashed.{
  of_parts, chunk_object-eq, of_parts-eq-published, of_parts-small, of_parts-exact,
}
use subfile_data_service.ObjectStore.Validated.{validate_chunks-rejected, rounds-eq}

module _ (build : Build) (fs : FileSystem) (d : Digest) (free : CollisionFree d) (subfile : Subfile)
    (file : ChunkFileMeta) (content : Bytes)
    (h : Holds fs (push subfile.local_path file.meta_info.name) content) (size : ℕ) (pos : 0 < size)
    (fits : size ≤ isize_max) where
  exact_rejected :
      (k : ℕ) (extra : Bytes)
      → suc k * size ≡ length content
      → file.chunk_file ≡ record (published d size content) {
        chunk_hashes = (published d size content).chunk_hashes ++ extra ∷ [];
      }
      → read_and_validate_file build fs d subfile file
        ≡ err (invalid_range (out_of_bound (length content) (length content - 1) (length content)))
  unfolding read_and_validate_file
  exact_rejected k extra whole made =
      let path = push subfile.local_path file.meta_info.name in
      rw (rounds-eq build fs d free path content h size k file extra made pos fits whole) (
        validate_chunks-rejected build fs d free path content h size k file extra made pos fits
          whole (suc k) 0 (omega arith))

  module _ (store : LocalFileSystem) (self : Store store) (location : Bytes) (disk : store.Disk)
      (stored : Stores store self.local_file_system location content disk)
      (many : 0 < self.read_concurrency)
      (made : chunk_object store build d self location (some size) disk ≡ ok file.chunk_file) where
    made_of : file.chunk_file ≡ of_parts d size content
    made_of = sym (
        ok-injective (
          sym (
            chunk_object-eq store build d self location content disk stored many h.bounded size pos
              fits)
          ∙ made))

    -- Let a chunk file be made by the object store from an object with a chunk size between 1
    -- and isize, and the hash functions be collision-free. The validation of an intact local
    -- copy then succeeds when the chunk size does not divide the length and is at most the
    -- length; it fails with a range out of bounds when the chunk size divides a length above
    -- zero; and it panics when the length is above zero and below the chunk size.
    pub validate_chunk_object :
        (length content % size ≢ 0
          → size ≤ length content
          → read_and_validate_file build fs d subfile file ≡ ok tt)
        × ((k : ℕ)
            → suc k * size ≡ length content
            → read_and_validate_file build fs d subfile file
              ≡ err (
                  invalid_range
                    (out_of_bound (length content) (length content - 1) (length content))))
        × (0 < length content
            → length content < size
            → read_and_validate_file build fs d subfile file ≡ panic)
    validate_chunk_object = (
      λ part le.
          (read_and_validate_file_iff build fs d free subfile file content content h size
              (made_of ∙ of_parts-eq-published d size content pos part le) pos fits h.bounded
              part).1
            same,
      λ k whole.
          exact_rejected k (hash_chunk d []) whole
            (made_of ∙ of_parts-exact d size content pos k whole),
      λ some_bytes small.
          read_and_validate_file-panic build fs d free subfile file content content h
            (length content) (made_of ∙ of_parts-small d size content pos some_bytes small)
            some_bytes h.bounded h.bounded 1 one same,
    )
      where
        same : take (length content) content ≡ content
        same = take-eq_self (length content) content (omega arith)

        one : 1 * length content ≡ length content
        one = omega arith
