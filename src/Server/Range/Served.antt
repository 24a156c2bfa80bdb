-- ===== src/Server/Range/Served.antt =====
-- What the server answers to a range of a file that it holds.
use subfile_data_service.Prelude.{
  ℕ, Bytes, ◌+◌, ◌-◌, ◌≤◌, ◌<◌, ◌≡◌, ◌∙◌, refl, ◌||◌, leb, if◌then◌else◌, length, slice, arith,
}
use subfile_data_service.Rust.Result.{Result, ok, panic, ◌>>=◌}
use subfile_data_service.Rust.Words.{Build, debug, release, add_u64, sub_u64, vec_zeroed}
use subfile_data_service.System.{Holds}
use subfile_data_service.Http.{Response, respond, range_not_satisfiable}
use subfile_data_service.Subfile.Reader.{out_of_bound}
use subfile_data_service.Subfile.Reader.Ranges.{buffer_length}
use subfile_data_service.Server.State.{Host}
use subfile_data_service.Server.Range.{partial_response, serve_file_range}

-- The answer that the content and the range determine.
unfoldable pub range_response : Build → Bytes → ℕ → ℕ → Result Response
range_response build content start end =
    if leb (length content) start || leb (length content) end
    then ok (respond range_not_satisfiable (out_of_bound start end (length content)))
    else (buffer_length build start end >>= λ n.
        ok (partial_response start end (length content) n (slice start n content)))

module _ (host : Host) (path content : Bytes) (h : Holds host.fs path content) where
  serve_file_range_in :
      (b : Build) (start end : ℕ)
      → host.build ≡ b
      → serve_file_range host path (start, end) ≡ range_response b content start end
  unfolding serve_file_range range_response buffer_length sub_u64 add_u64 vec_zeroed
  serve_file_range_in debug start end e =
      rw (h.opened, e)
        (ground (arith, h.sized, h.seeks start, h.exact start (end - start + 1), h.bounded))
  serve_file_range_in release start end e =
      rw (h.opened, e)
        (ground (
          arith,
          h.sized,
          h.seeks start,
          h.exact start (end - start + 1),
          h.exact start 0,
          h.bounded,
        ))

  -- For every range and both builds, the server's answer about a file that it holds is the one
  -- that the content and the range determine: "range not satisfiable" exactly when an end lies
  -- outside, and otherwise a partial answer with the bytes, or a panic.
  pub serve_file_range-eq-range_response :
      (start end : ℕ)
      → serve_file_range host path (start, end) ≡ range_response host.build content start end
  serve_file_range-eq-range_response start end = serve_file_range_in host.build start end refl

  -- A range inside the file is answered with exactly its bytes.
  pub serve_file_range_inside :
      (start end : ℕ)
      → start ≤ end
      → end < length content
      → serve_file_range host path (start, end)
        ≡ ok (
            partial_response start end
              (length content)
              (end - start + 1)
              (slice start (end - start + 1) content))
  unfolding range_response buffer_length
  serve_file_range_inside start end le lt =
      serve_file_range-eq-range_response start end ∙ inside host.build
    where
      inside :
          (b : Build)
          → range_response b content start end
            ≡ ok (
                partial_response start end
                  (length content)
                  (end - start + 1)
                  (slice start (end - start + 1) content))
      inside debug = ground arith
      inside release = ground arith

  -- A range inside the file whose end lies two or more before its start ends the process.
  pub serve_file_range_inverted :
      (start end : ℕ)
      → end + 1 < start
      → start < length content
      → serve_file_range host path (start, end) ≡ panic
  unfolding range_response buffer_length
  serve_file_range_inverted start end lt inside =
      serve_file_range-eq-range_response start end ∙ inverted host.build
    where
      inverted : (b : Build) → range_response b content start end ≡ panic
      inverted debug = ground arith
      inverted release = ground arith
