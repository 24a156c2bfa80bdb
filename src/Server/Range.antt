-- ===== src/Server/Range.antt =====
-- subfile-service/src/subfile_server/range.rs
pub mod Header
pub mod Served
use subfile_data_service.Prelude.{
  ℕ, Bytes, codes, List, [], ◌∷◌, ◌++◌, ◌||◌, leb, if◌then◌else◌, none, some, split, strip_prefix,
}
use subfile_data_service.Errors.{ExternalError, invalid_range, file_io_error}
use subfile_data_service.Rust.Result.{Result, ok, err, Io, done, failed, ◌>>=◌, ◌>>◌, map_err}
use subfile_data_service.Rust.Words.{add_u64, sub_u64, vec_zeroed}
use subfile_data_service.Rust.Decimal.{decimal, parse_u64}
use subfile_data_service.Subfile.Reader.{out_of_bound}
use subfile_data_service.Http.{
  StatusCode, Response, respond, content_range, content_length, partial_content,
  range_not_satisfiable, internal_server_error,
}
use subfile_data_service.Server.State.{Host}

-- The two numbers of a range; a third part, or a missing one, is refused.
parse_ranges : List Bytes → Result (ℕ × ℕ)
parse_ranges (first ∷ last ∷ []) = do
  start ← map_err (parse_u64 first) (λ e. invalid_range (codes "Invalid start range: " ++ e))
  end ← map_err (parse_u64 last) (λ e. invalid_range (codes "Invalid end range: " ++ e))
  ok (start, end)
parse_ranges _ = err (invalid_range (codes "Invalid Range header format"))

unfoldable pub parse_range_str : Bytes → Result (ℕ × ℕ)
unfolding parse_ranges
parse_range_str range_str = elim (strip_prefix (codes "bytes=") range_str) [
  | none ↦ err (invalid_range (codes "Range does not start with 'bytes='"))
  | some ranges ↦ parse_ranges (split b'-' ranges)
]

-- The argument is the `to_str` of the header's value.
unfoldable pub parse_range_header : Io Bytes → Result (ℕ × ℕ)
unfolding parse_range_str
parse_range_header range_header = do
  range_str ← map_err range_header (λ e. invalid_range (codes "Invalid Range header: " ++ e))
  parse_range_str range_str

-- `match call { Ok(v) => v, Err(e) => return Ok(response) }`
abbrev pub or_respond :
    {A : Type 0} → Io A → (ExternalError → Response) → (A → Result Response) → Result Response
or_respond (done a) response rest = rest a
or_respond (failed e) response rest = ok (response e)

abbrev cannot : Host → Bytes → ExternalError → Response
cannot host what e = respond internal_server_error (what ++ host.debug_str e)

abbrev pub partial_response : ℕ → ℕ → ℕ → ℕ → Bytes → Response
partial_response start end file_size length buffer = record {
  status = partial_content;
  headers =
      (
        content_range,
        codes "bytes "
            ++ decimal start
            ++ codes "-"
            ++ decimal end
            ++ codes "/"
            ++ decimal file_size,
      )
      ∷ (content_length, decimal length)
      ∷ [];
  body = buffer;
}

unfoldable pub serve_file_range : Host → Bytes → ℕ × ℕ → Result Response
serve_file_range host file_path (start, end) =
    or_respond (host.fs.open_file file_path) (cannot host (codes "Cannot access file: ")) λ file.
      or_respond file.metadata (cannot host (codes "Cannot get file metadata: ")) λ file_size.
        if leb file_size start || leb file_size end
        then ok (respond range_not_satisfiable (out_of_bound start end file_size))
        else do
          span ← sub_u64 host.build end start
          length ← add_u64 host.build span 1
          or_respond (file.seek start) (cannot host (codes "Failed to seek file start: ")) λ _. do
            vec_zeroed length
            or_respond (file.read_exact start length)
                (cannot host (codes "Failed to react exact bytes: "))
                λ buffer. do
                  file_size' ← map_err file.metadata file_io_error
                  ok (partial_response start end file_size' length buffer)

unfoldable pub serve_file : Host → Bytes → Result Response
serve_file host file_path =
    or_respond (host.fs.read_all file_path)
      (λ e. respond internal_server_error (codes "Cannot read file"))
      λ file. ok (respond StatusCode.ok file)
