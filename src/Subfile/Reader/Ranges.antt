-- ===== src/Subfile/Reader/Ranges.antt =====
-- What `read_chunk` returns on each kind of range.
use subfile_data_service.Prelude.{
  ℕ, Bytes, ◌+◌, ◌-◌, ◌≤◌, ◌<◌, ◌≡◌, ◌∙◌, ◌||◌, ◌==◌, leb, if◌then◌else◌, length, slice, arith,
}
use subfile_data_service.Errors.{invalid_range}
use subfile_data_service.Rust.Result.{Result, ok, err, panic, ◌>>=◌}
use subfile_data_service.Rust.Words.{Build, debug, release, add_u64, sub_u64, vec_zeroed}
use subfile_data_service.System.{FileSystem, Holds}
use subfile_data_service.Subfile.Reader.{out_of_bound, read_chunk}

-- The length of the buffer for a range inside the file, once it is allocated. With the end before
-- the start the subtraction overflows: a panic in a debug build; in a release build the length wraps
-- to 0 if the start is just behind the end, and passes the largest allocation otherwise.
unfoldable pub buffer_length : Build → ℕ → ℕ → Result ℕ
buffer_length debug start end = if leb start end then ok (end - start + 1) else panic
buffer_length release start end =
    if leb start end then ok (end - start + 1) else if start == end + 1 then ok 0 else panic

-- The bytes that answer a range, for a file of which only the content is known.
unfoldable pub range_of : Build → Bytes → ℕ → ℕ → Result Bytes
range_of build content start end =
    if leb (length content) start || leb (length content) end
    then err (invalid_range (out_of_bound start end (length content)))
    else (buffer_length build start end >>= λ n. ok (slice start n content))

pub range_of-eq-ok :
    (build : Build) (content : Bytes) (start end : ℕ) (x : Bytes)
    → start ≤ end
    → range_of build content start end ≡ ok x
    → (end < length content) × (slice start (end - start + 1) content ≡ x)
unfolding range_of buffer_length
range_of-eq-ok debug content start end x le e = (ground arith, ground arith)
range_of-eq-ok release content start end x le e = (ground arith, ground arith)

pub range_of_inside :
    (build : Build) (content : Bytes) (start end : ℕ)
    → start ≤ end
    → end < length content
    → range_of build content start end ≡ ok (slice start (end - start + 1) content)
unfolding range_of buffer_length
range_of_inside debug content start end le lt = ground arith
range_of_inside release content start end le lt = ground arith

module _ (fs : FileSystem) (path content : Bytes) (h : Holds fs path content) where
  -- In a debug build or a release build, whatever the range: the outcome of read_chunk on a
  -- file that holds some content is the one that the content and the range determine.
  pub read_chunk-eq-range_of :
      (build : Build) (start end : ℕ)
      → read_chunk build fs path (start, end) ≡ range_of build content start end
  unfolding read_chunk range_of buffer_length sub_u64 add_u64 vec_zeroed
  read_chunk-eq-range_of debug start end =
      rw (h.opened)
        (ground (arith, h.sized, h.seeks start, h.exact start (end - start + 1), h.bounded))
  read_chunk-eq-range_of release start end = rw (h.opened) (
      ground (
        arith,
        h.sized,
        h.seeks start,
        h.exact start (end - start + 1),
        h.exact start 0,
        h.bounded,
      ))

  -- A range inside the file is read whole, byte by byte.
  pub read_chunk_in_range :
      (build : Build) (start end : ℕ)
      → start ≤ end
      → end < length content
      → read_chunk build fs path (start, end) ≡ ok (slice start (end - start + 1) content)
  read_chunk_in_range build start end le lt =
      read_chunk-eq-range_of build start end ∙ range_of_inside build content start end le lt
