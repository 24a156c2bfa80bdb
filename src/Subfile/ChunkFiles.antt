-- ===== src/Subfile/ChunkFiles.antt =====
-- `ChunkFile::new` and the validation of local files of subfile-exchange/src/subfile/mod.rs.
use subfile_data_service.Prelude.{
  ℕ, zero, suc, Bytes, codes, List, [], ◌∷◌, ◌++◌, ◌+◌, min, map, Bool, true, false, if◌then◌else◌,
  get_elem?, starts_with,
}
use subfile_data_service.Errors.{Error, invalid_config}
use subfile_data_service.Rust.Result.{Result, ok, err, ◌>>=◌, ◌>>◌, unwrap}
use subfile_data_service.Rust.Words.{Build, add_u64, sub_u64, mul_u64, div_u64}
use subfile_data_service.System.{FileSystem}
use subfile_data_service.Subfile.Hasher.{Digest, hash_chunk, verify_chunk}
use subfile_data_service.Subfile.Reader.{read_chunk, chunk_file, format_path, ends_with_slash}
use subfile_data_service.Subfile.Types.{ChunkFile, ChunkFileMeta, Subfile}

-- `ChunkFile::new`
unfoldable pub new :
    Build
    → FileSystem
    → Digest
    → (fuel : ℕ) (read_dir file_name : Bytes) (chunk_size : ℕ) → Result ChunkFile
new build fs d fuel read_dir file_name chunk_size = do
  (total_bytes, chunks) ← chunk_file build fs fuel (format_path read_dir file_name) chunk_size
  ok (record {
    total_bytes = total_bytes;
    chunk_size = chunk_size;
    chunk_hashes = map (hash_chunk d) chunks;
  })

-- `PathBuf::push`: an absolute path replaces what is there.
unfoldable pub push : Bytes → Bytes → Bytes
unfolding starts_with ends_with_slash
push [] name = name
push (c ∷ path) name =
    if starts_with (codes "/") name
    then name
    else if ends_with_slash (c ∷ path)
    then (c ∷ path) ++ name
    else (c ∷ path) ++ codes "/" ++ name

-- The range of chunk `i`, first and last byte. The client computes it by the same steps.
unfoldable pub chunk_range : Build → ChunkFile → ℕ → Result (ℕ × ℕ)
chunk_range build file i = do
  start ← mul_u64 build i file.chunk_size
  behind ← add_u64 build start file.chunk_size
  end ← sub_u64 build (min behind file.total_bytes) 1
  ok (start, end)

-- `total_bytes / chunk_size + 1`, the number of rounds.
unfoldable pub chunk_rounds : Build → ChunkFile → Result ℕ
chunk_rounds build file = do whole ← div_u64 file.total_bytes file.chunk_size; add_u64 build whole 1

unfoldable pub check : Bool → Error → Result (Unit {0})
check true e = ok tt
check false e = err e

-- The body of the loop for chunk `i`.
unfoldable pub validate_chunk :
    Build → FileSystem → Digest → Bytes → ChunkFileMeta → ℕ → Result (Unit {0})
validate_chunk build fs d file_path file i = do
  range ← chunk_range build file.chunk_file i
  chunk_hash ← unwrap (get_elem? file.chunk_file.chunk_hashes i)
  chunk_data ← read_chunk build fs file_path range
  check (verify_chunk d chunk_data chunk_hash) (
      invalid_config (codes "Failed to validate the local version of file " ++ file.meta_info.hash))

-- The rounds that are left, from chunk `i` on.
unfoldable pub validate_chunks :
    Build → FileSystem → Digest → Bytes → ChunkFileMeta → (rounds i : ℕ) → Result (Unit {0})
validate_chunks build fs d file_path file zero i = ok tt
validate_chunks build fs d file_path file (suc rounds) i = do
  validate_chunk build fs d file_path file i
  validate_chunks build fs d file_path file rounds (i + 1)

unfoldable pub read_and_validate_file :
    Build → FileSystem → Digest → Subfile → ChunkFileMeta → Result (Unit {0})
read_and_validate_file build fs d subfile file = do
  rounds ← chunk_rounds build file.chunk_file
  validate_chunks build fs d (push subfile.local_path file.meta_info.name) file rounds 0

unfoldable pub validate_files :
    Build → FileSystem → Digest → Subfile → List ChunkFileMeta → Result (Unit {0})
validate_files build fs d subfile [] = ok tt
validate_files build fs d subfile (file_meta ∷ files) = do
  read_and_validate_file build fs d subfile file_meta
  validate_files build fs d subfile files

unfoldable pub validate_local_subfile : Build → FileSystem → Digest → Subfile → Result (Unit {0})
validate_local_subfile build fs d subfile = validate_files build fs d subfile subfile.chunk_files
