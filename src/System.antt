-- ===== src/System.antt =====
-- The operating system's files, as parameters: `std::fs::File`, `std::io::BufReader`, `std::fs::read`
-- and `Path::exists`, with what their documentation promises of a file that holds given bytes.
use subfile_data_service.Prelude.{ℕ, Bytes, Bool, ◌+◌, ◌≤◌, ◌<◌, ◌≡◌, length, slice}
use subfile_data_service.Rust.Result.{Io, done}
use subfile_data_service.Rust.Words.{isize_max}

pub record FileHandle : Type 0 where
  -- `metadata().len()`
  pub metadata : Io ℕ
  -- `seek(SeekFrom::Start(n))`
  pub seek : ℕ → Io (Unit {0})
  -- `read_exact` of so many bytes at the position where a seek has left the file
  pub read_exact : ℕ → ℕ → Io Bytes
  -- `BufReader::read` into a buffer of that length, at the position where the last read ended
  pub read : ℕ → ℕ → Io Bytes

pub record FileSystem : Type 0 where
  pub open_file : Bytes → Io FileHandle
  pub read_all : Bytes → Io Bytes
  pub path_exists : Bytes → Bool

-- The file at `path` holds `content`, and the system's calls on it succeed.
pub record Holds (fs : FileSystem) (path content : Bytes) : Type 0 where
  pub handle : FileHandle
  pub opened : fs.open_file path ≡ done handle
  pub sized : handle.metadata ≡ done (length content)
  pub seeks : (n : ℕ) → n ≤ length content → handle.seek n ≡ done tt
  pub exact :
      (start n : ℕ)
      → start + n ≤ length content
      → handle.read_exact start n ≡ done (slice start n content)
  pub whole : fs.read_all path ≡ done content
  pub bounded : length content ≤ isize_max

-- Sequential reads of `content`: a read at `pos` returns `count pos n` of the bytes that follow, at
-- most the buffer's length, and at least one while there is one.
pub record Reads (handle : FileHandle) (content : Bytes) (count : ℕ → ℕ → ℕ) : Type 0 where
  pub some_of : (pos n : ℕ) → handle.read pos n ≡ done (slice pos (count pos n) content)
  pub at_most : (pos n : ℕ) → count pos n ≤ n
  pub progress : (pos n : ℕ) → 0 < n → pos < length content → 0 < count pos n

-- The reads that fill the buffer as long as there are bytes.
pub record Fills (handle : FileHandle) (content : Bytes) : Type 0 where
  pub filled : (pos n : ℕ) → handle.read pos n ≡ done (slice pos n content)
