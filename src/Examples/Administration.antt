-- ===== src/Examples/Administration.antt =====
-- Admin requests that add and remove a subfile.
use subfile_data_service.Prelude.{
  ℕ, Bytes, codes, bytes_eq, List, [], ◌∷◌, map, All, none, some, true, false, if◌then◌else◌, ◌≡◌,
  refl, split, get_elem?,
}
use subfile_data_service.Rust.Result.{ok, done}
use subfile_data_service.Rust.Words.{div_u64, add_u64, mul_u64, sub_u64, vec_zeroed}
use subfile_data_service.Serde.{Serde}
use subfile_data_service.HashMap.{get}
use subfile_data_service.Http.{StatusCode, Response, respond}
use subfile_data_service.Ipfs.{cat_all, is_valid_ipfs_hash}
use subfile_data_service.Ipfs.Fetch.{
  read_subfile, fetch_subfile_from_ipfs, fetch_chunk_files, fetch_chunk_file_from_ipfs,
}
use subfile_data_service.Subfile.Hasher.{verify_chunk, hash_chunk}
use subfile_data_service.Subfile.Reader.{read_chunk}
use subfile_data_service.Subfile.ChunkFiles.{
  validate_local_subfile, validate_files, read_and_validate_file, chunk_rounds, validate_chunks,
  validate_chunk, chunk_range, check,
}
use subfile_data_service.Subfile.Validate.Chunk.{published}
use subfile_data_service.Subfile.Entries.{
  validate_subfile_entries, validate_subfile_entry, check_parts, validate_parts,
}
use subfile_data_service.Client.Targets.{contains}
use subfile_data_service.Server.State.{ServerState}
use subfile_data_service.Server.Admin.{add_subfile, add_entries, remove_subfile}
use subfile_data_service.Server.Admin.Listed.{IsListed, add_subfile-lists}
use subfile_data_service.Server.Admin.Removed.{remove_subfile-atomic}
use subfile_data_service.Examples.World.{plain, five, disk, hash_example, host_of, ipfs_example}
use subfile_data_service.Examples.Wire.{serde_example, state_example, release_example}
use subfile_data_service.Examples.Service.{entry_example}

-- a serialisation that reads every chunk file as the one of five bytes
unfoldable serde_five : Serde
unfolding serde_example
serde_five = record serde_example { yaml_to_chunk_file = λ v. done (published plain 2 five) }

unfoldable state_five : ServerState serde_five
unfolding serde_five serde_example
state_five = record {
  client = ipfs_example;
  operator_public_key = codes "0x00";
  subfiles = [];
  release = release_example;
  free_query_auth_token = none;
  admin_auth_token = none;
  price_per_byte = 1;
}

unfoldable added_params : serde_five.JsonValue
unfolding serde_five serde_example
added_params = entry_example ∷ []

abbrev added : Response
added = respond StatusCode.ok (codes "Subfile(s) added successfully")

added-ok : (add_subfile serde_five (host_of five) (some added_params) state_five).0 ≡ ok added
unfolding add_subfile added_params serde_five serde_example state_five validate_subfile_entries
    validate_subfile_entry check_parts validate_parts is_valid_ipfs_hash split add_entries
    read_subfile fetch_subfile_from_ipfs cat_all ipfs_example fetch_chunk_files
    fetch_chunk_file_from_ipfs validate_local_subfile validate_files read_and_validate_file
    chunk_rounds validate_chunks validate_chunk chunk_range check div_u64 add_u64 mul_u64 sub_u64
    vec_zeroed read_chunk verify_chunk bytes_eq hash_chunk
added-ok = refl

add_subfile-lists_example :
    (texts : List Bytes) × (entries : List (Bytes × Bytes)) × (serde_five.json_to_strings
        added_params
      ≡ done texts)
    × (validate_subfile_entries (disk five) texts ≡ ok entries)
    × ((k : ℕ) (hash path : Bytes)
        → get_elem? entries k ≡ some (hash, path)
        → IsListed serde_five
            (host_of five)
            state_five.client
            hash
            (add_subfile serde_five (host_of five) (some added_params) state_five).1.subfiles)
    × ((j : Bytes)
        → contains j (map (λ (e : Bytes × Bytes). e.0) entries) ≡ false
        → get j (add_subfile serde_five (host_of five) (some added_params) state_five).1.subfiles
          ≡ get j state_five.subfiles)
add_subfile-lists_example =
    add_subfile-lists serde_five (host_of five) added_params state_five added added-ok refl

unfoldable removed_params : serde_example.JsonValue
unfolding serde_example
removed_params = hash_example ∷ []

removed-parsed : serde_example.json_to_strings removed_params ≡ done (hash_example ∷ [])
unfolding serde_example removed_params
removed-parsed = refl

remove_subfile-atomic_example :
    (All (λ h. is_valid_ipfs_hash h ≡ true) (hash_example ∷ [])
      → (j : Bytes)
      → get j (remove_subfile serde_example (some removed_params) state_example).1.subfiles
        ≡ (if contains j (hash_example ∷ []) then none else get j state_example.subfiles))
    × ((k : ℕ) (hash : Bytes)
        → get_elem? (hash_example ∷ []) k ≡ some hash
        → is_valid_ipfs_hash hash ≡ false
        → (remove_subfile serde_example (some removed_params) state_example).1 ≡ state_example)
remove_subfile-atomic_example =
    remove_subfile-atomic serde_example removed_params (hash_example ∷ []) state_example
      removed-parsed
