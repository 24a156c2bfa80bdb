-- ===== src/Server/Range/Header.antt =====
-- The range header between client and server.
use subfile_data_service.Prelude.{
  ℕ, Bytes, codes, ◌++◌, ◌<◌, ◌∷◌, ◌≡◌, refl, arith, strip_prefix, split, ◌∙◌, split_two,
  append_assoc,
}
use subfile_data_service.Rust.Result.{ok, done}
use subfile_data_service.Rust.Words.{u64_mod}
use subfile_data_service.Rust.Decimal.{decimal}
use subfile_data_service.Rust.Decimal.RoundTrip.{decimal-Lacks, parse_u64-decimal}
use subfile_data_service.Client.Request.{range_header}
use subfile_data_service.Server.Range.{parse_ranges, parse_range_str, parse_range_header}

parse_range_str_prefix :
    (ranges : Bytes) → parse_range_str (codes "bytes=" ++ ranges) ≡ parse_ranges (split b'-' ranges)
unfolding parse_range_str strip_prefix
parse_range_str_prefix ranges = refl

range_header-append :
    (start end : ℕ)
    → range_header start end ≡ codes "bytes=" ++ (decimal start ++ b'-' ∷ decimal end)
unfolding range_header
range_header-append start end = simp append_assoc

-- The server reads back every range of two u64 from the header that the client writes.
pub parse_range_header-range_header :
    (start end : ℕ)
    → start < u64_mod
    → end < u64_mod
    → parse_range_header (done (range_header start end)) ≡ ok (start, end)
unfolding parse_range_header parse_ranges
parse_range_header-range_header start end hs he = rw (range_header-append start end) (
    parse_range_str_prefix (decimal start ++ b'-' ∷ decimal end)
    ∙ rw
        (split_two b'-' (decimal start) (decimal end) (decimal-Lacks start b'-' (omega arith))
          (decimal-Lacks end b'-' (omega arith)))
        (rw (parse_u64-decimal start hs, parse_u64-decimal end he)))
