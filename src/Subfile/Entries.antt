-- ===== src/Subfile/Entries.antt =====
-- `validate_subfile_entries` of subfile-exchange/src/subfile/mod.rs.
pub mod Valid
use subfile_data_service.Prelude.{
  Bytes, codes, List, [], ◌∷◌, ◌++◌, Bool, true, false, not, split, if◌then◌else◌,
}
use subfile_data_service.Errors.{invalid_config}
use subfile_data_service.Rust.Result.{Result, ok, err, ◌>>=◌}
use subfile_data_service.System.{FileSystem}
use subfile_data_service.Ipfs.{is_valid_ipfs_hash}

-- The two parts of an entry; `PathBuf::from_str` cannot fail.
unfoldable pub validate_parts : FileSystem → (ipfs_hash local_path : Bytes) → Result (Bytes × Bytes)
validate_parts fs ipfs_hash local_path =
    if not (is_valid_ipfs_hash ipfs_hash)
    then err (invalid_config (codes "Invalid IPFS hash: " ++ ipfs_hash))
    else if not (fs.path_exists local_path)
    then err (invalid_config (codes "Path do not exist: " ++ local_path))
    else ok (ipfs_hash, local_path)

-- An entry is "valid_ipfs_hash:valid_local_path".
unfoldable pub check_parts : FileSystem → Bytes → List Bytes → Result (Bytes × Bytes)
unfolding validate_parts
check_parts fs entry (ipfs_hash ∷ local_path ∷ []) = validate_parts fs ipfs_hash local_path
check_parts fs entry _ = err (invalid_config (codes "Invalid format for entry: " ++ entry))

unfoldable pub validate_subfile_entry : FileSystem → Bytes → Result (Bytes × Bytes)
unfolding check_parts
validate_subfile_entry fs entry = check_parts fs entry (split b':' entry)

unfoldable pub validate_subfile_entries : FileSystem → List Bytes → Result (List (Bytes × Bytes))
validate_subfile_entries fs [] = ok []
validate_subfile_entries fs (entry ∷ entries) = do
  result ← validate_subfile_entry fs entry
  results ← validate_subfile_entries fs entries
  ok (result ∷ results)
