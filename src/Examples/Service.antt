-- ===== src/Examples/Service.antt =====
-- The server with one subfile, and requests with and without its admin token.
use subfile_data_service.Prelude.{
  Bytes, codes, refl, arith, ◌≡◌, ◌≢◌, ◌∷◌, [], none, some, starts_with, strip_prefix, bytes_eq,
  split,
}
use subfile_data_service.Rust.Result.{Result, ok, err, panic, out_of_fuel, done}
use subfile_data_service.Rust.Words.{div_u64, add_u64, mul_u64, sub_u64, vec_zeroed, overflow}
use subfile_data_service.Rust.Decimal.{decimal}
use subfile_data_service.Http.{authorization}
use subfile_data_service.HashMap.{insert}
use subfile_data_service.Ipfs.{is_valid_ipfs_hash, cat_all}
use subfile_data_service.Ipfs.Fetch.{
  read_subfile, fetch_subfile_from_ipfs, fetch_chunk_files, fetch_chunk_file_from_ipfs,
}
use subfile_data_service.Subfile.ChunkFiles.{
  validate_local_subfile, validate_files, read_and_validate_file, chunk_rounds, validate_chunks,
  validate_chunk, chunk_range, check, push,
}
use subfile_data_service.Subfile.Hasher.{verify_chunk, hash_chunk}
use subfile_data_service.Subfile.Reader.{read_chunk, ends_with_slash, out_of_bound}
use subfile_data_service.Subfile.Entries.{
  validate_subfile_entries, validate_subfile_entry, check_parts, validate_parts,
}
use subfile_data_service.Subfile.Entries.Valid.{IsServableEntry, validate_subfile_entries-valid}
use subfile_data_service.Server.State.{ServerState}
use subfile_data_service.Server.Range.{parse_range_header, serve_file_range}
use subfile_data_service.Server.Range.Header.{parse_range_header-range_header}
use subfile_data_service.Server.Range.Served.{
  range_response, serve_file_range-eq-range_response, serve_file_range_inverted,
}
use subfile_data_service.Server.Invariant.{AllServed, AllServed-insert, AllServed-nil}
use subfile_data_service.Server.Routes.{header_text}
use subfile_data_service.Server.Requests.{
  ServerArgs, load_subfiles, initialize_subfile_server_context,
}
use subfile_data_service.Server.Requests.Safety.{
  serve, IsConsistent, serve-IsConsistent, IsVerified, serve-IsVerified, SameSettings,
  serve-SameSettings, serve-unauthorized,
}
use subfile_data_service.Client.Request.{range_header}
use subfile_data_service.Prelude.{All}
use subfile_data_service.Examples.World.{
  five, disk, disk-Holds, five-bounded, five_meta, subfile_of, hash_example, host_of, ipfs_example,
}
use subfile_data_service.Examples.Wire.{serde_example, state_example, release_example, removal}

parse_range_header-range_header_example :
    parse_range_header (done (range_header 2 4095)) ≡ ok (2, 4095)
parse_range_header-range_header_example =
    parse_range_header-range_header 2 4095 (omega arith) (omega arith)

serve_file_range-eq-range_response_example :
    serve_file_range (host_of five) (codes "f") (3, 9)
    ≡ range_response (host_of five).build five 3 9
serve_file_range-eq-range_response_example =
    serve_file_range-eq-range_response (host_of five) (codes "f") five
      (disk-Holds (codes "f") five five-bounded) 3 9

serve_file_range_inverted_example : serve_file_range (host_of five) (codes "f") (3, 1) ≡ panic
serve_file_range_inverted_example =
    serve_file_range_inverted (host_of five) (codes "f") five
      (disk-Holds (codes "f") five five-bounded) 3 1 (omega arith) (omega arith)

abbrev pub entry_example : Bytes
entry_example = codes "QmUVskWrz1ZiQZ76AtyhcfFDEH1ELnRpoyEhVL8p6NFTbR:/data"

entries-ok :
    validate_subfile_entries (disk five) (entry_example ∷ [])
    ≡ ok ((hash_example, codes "/data") ∷ [])
unfolding validate_subfile_entries validate_subfile_entry check_parts validate_parts
    is_valid_ipfs_hash split
entries-ok = refl

validate_subfile_entries-valid_example :
    All (IsServableEntry (disk five)) ((hash_example, codes "/data") ∷ [])
validate_subfile_entries-valid_example =
    validate_subfile_entries-valid (disk five) (entry_example ∷ [])
      ((hash_example, codes "/data") ∷ []) entries-ok

not_admin :
    header_text ((removal (codes "Bearer x")).header authorization) ≢ some (codes "Bearer admin")
unfolding header_text
not_admin e = cc

admin_token : state_example.admin_auth_token ≡ some (codes "Bearer admin")
unfolding state_example
admin_token = refl

serve-unauthorized_example :
    serve serde_example (host_of five) (removal (codes "Bearer x") ∷ []) state_example
    ≡ state_example
serve-unauthorized_example =
    serve-unauthorized serde_example (host_of five) (codes "Bearer admin") state_example admin_token
      (removal (codes "Bearer x") ∷ []) ((not_admin, tt))

serve-SameSettings_example :
    SameSettings serde_example
      (host_of five)
      state_example
      (serve serde_example (host_of five) (removal (codes "Bearer admin") ∷ []) state_example)
serve-SameSettings_example =
    serve-SameSettings serde_example (host_of five) state_example
      (removal (codes "Bearer admin") ∷ [])

IsVerified-five : IsVerified serde_example (host_of five) hash_example (subfile_of five_meta)
unfolding validate_local_subfile validate_files read_and_validate_file chunk_rounds validate_chunks
    validate_chunk chunk_range check div_u64 add_u64 mul_u64 sub_u64 vec_zeroed read_chunk
    verify_chunk bytes_eq hash_chunk
IsVerified-five = refl

all-IsVerified : AllServed (IsVerified serde_example (host_of five)) state_example.subfiles
unfolding state_example insert
all-IsVerified =
    AllServed-insert (IsVerified serde_example (host_of five)) hash_example (subfile_of five_meta)
      [] IsVerified-five (AllServed-nil (IsVerified serde_example (host_of five)))

serve-IsVerified_example :
    AllServed
      (IsVerified serde_example (host_of five))
      (serve serde_example
        (host_of five)
        (removal (codes "Bearer admin") ∷ [])
        state_example).subfiles
serve-IsVerified_example =
    serve-IsVerified serde_example (host_of five) state_example
      (removal (codes "Bearer admin") ∷ []) all-IsVerified

abbrev args_example : ServerArgs serde_example
args_example = record {
  subfiles = entry_example ∷ [];
  free_query_auth_token = none;
  admin_auth_token = some (codes "admin");
  mnemonic = codes "0x00";
  price_per_byte = state_example.price_per_byte;
}

abbrev started : Result (ServerState serde_example)
started =
    initialize_subfile_server_context serde_example (host_of five) (λ m. done m) release_example
      ipfs_example args_example

abbrev first_state : ServerState serde_example
first_state = elim started [
  | ok s ↦ s
  | err e ↦ state_example
  | panic ↦ state_example
  | out_of_fuel ↦ state_example
]

started-ok : started ≡ ok first_state
unfolding initialize_subfile_server_context validate_subfile_entries validate_subfile_entry
    check_parts validate_parts split is_valid_ipfs_hash load_subfiles read_subfile
    fetch_subfile_from_ipfs cat_all ipfs_example serde_example fetch_chunk_files
    fetch_chunk_file_from_ipfs validate_local_subfile validate_files read_and_validate_file
    chunk_rounds div_u64 insert bytes_eq starts_with strip_prefix decimal add_u64 mul_u64 overflow
    sub_u64 vec_zeroed check chunk_range push validate_chunk validate_chunks hash_chunk verify_chunk
    ends_with_slash out_of_bound read_chunk
started-ok = refl

serve-IsConsistent_example :
    IsConsistent serde_example
      (host_of five)
      (serve serde_example (host_of five) (removal (codes "Bearer admin") ∷ []) first_state)
serve-IsConsistent_example =
    serve-IsConsistent serde_example (host_of five) (λ m. done m) release_example ipfs_example
      args_example first_state started-ok (removal (codes "Bearer admin") ∷ [])
