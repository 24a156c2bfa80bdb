-- ===== src/Subfile/Reader.antt =====
-- subfile-exchange/src/subfile/file_reader.rs
pub mod Ranges
pub mod Chunks
use subfile_data_service.Prelude.{
  ℕ, zero, suc, Bytes, codes, List, [], ◌∷◌, ◌++◌, ◌+◌, Bool, true, false, Option, none, some, ◌||◌,
  ◌==◌, leb, if◌then◌else◌, length,
}
use subfile_data_service.Errors.{Error, file_io_error, invalid_range}
use subfile_data_service.Rust.Result.{Result, ok, err, out_of_fuel, ◌>>=◌, ◌>>◌, map_err}
use subfile_data_service.Rust.Words.{Build, add_u64, sub_u64, vec_zeroed}
use subfile_data_service.Rust.Decimal.{decimal}
use subfile_data_service.System.{FileHandle, FileSystem}

-- The text about a range that a file does not have; the server answers with it too.
unfoldable pub out_of_bound : ℕ → ℕ → ℕ → Bytes
out_of_bound start end file_size =
    codes "Range ("
    ++ decimal start
    ++ codes ", "
    ++ decimal end
    ++ codes ") out of bound for file size "
    ++ decimal file_size

unfoldable pub read_chunk : Build → FileSystem → Bytes → ℕ × ℕ → Result Bytes
read_chunk build fs file_path (start, end) = do
  file ← map_err (fs.open_file file_path) file_io_error
  file_size ← map_err file.metadata file_io_error
  if leb file_size start || leb file_size end
      then err (invalid_range (out_of_bound start end file_size))
      else do
        span ← sub_u64 build end start
        length ← add_u64 build span 1
        map_err (file.seek start) file_io_error
        vec_zeroed length
        map_err (file.read_exact start length) file_io_error

-- The loop of `chunk_file`. Each round but the last reads a byte or more.
unfoldable pub chunk_loop :
    Build → FileHandle → ℕ → (fuel pos total_bytes : ℕ) → List Bytes → Result (ℕ × List Bytes)
chunk_loop build reader chunk_size zero pos total_bytes chunks = out_of_fuel
chunk_loop build reader chunk_size (suc fuel) pos total_bytes chunks = do
  vec_zeroed chunk_size
  buffer ← map_err (reader.read pos chunk_size) file_io_error
  elim (length buffer == 0) [
    | true ↦ ok (total_bytes, chunks)
    | false ↦ do
      total_bytes' ← add_u64 build total_bytes (length buffer)
      chunk_loop build reader chunk_size fuel (pos + length buffer) total_bytes'
          (chunks ++ buffer ∷ [])
  ]

unfoldable pub chunk_file : Build → FileSystem → ℕ → Bytes → ℕ → Result (ℕ × List Bytes)
chunk_file build fs fuel file_path chunk_size = do
  reader ← map_err (fs.open_file file_path) file_io_error
  chunk_loop build reader chunk_size fuel 0 0 []

unfoldable pub ends_with_slash : Bytes → Bool
ends_with_slash [] = false
ends_with_slash (c ∷ []) = c == b'/'
ends_with_slash (c ∷ d ∷ s) = ends_with_slash (d ∷ s)

unfoldable pub format_path : Bytes → Bytes → Bytes
unfolding ends_with_slash
format_path read_dir file_name =
    read_dir ++ (if ends_with_slash read_dir then [] else codes "/") ++ file_name
