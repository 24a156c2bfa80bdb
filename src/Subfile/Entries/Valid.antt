-- ===== src/Subfile/Entries/Valid.antt =====
-- What an accepted entry is.
use subfile_data_service.Prelude.{Bytes, List, [], ◌∷◌, true, ◌≡◌, arith, All}
use mathlib.Core.Path.{subst}
use subfile_data_service.Rust.Result.{ok, >>=-eq-ok, ok-injective}
use subfile_data_service.System.{FileSystem}
use subfile_data_service.Ipfs.{is_valid_ipfs_hash}
use subfile_data_service.Subfile.Entries.{
  validate_parts, check_parts, validate_subfile_entry, validate_subfile_entries,
}

-- A valid hash and a path that exists.
abbrev pub IsServableEntry : FileSystem → Bytes × Bytes → Type 0
IsServableEntry fs p = (is_valid_ipfs_hash p.0 ≡ true) × (fs.path_exists p.1 ≡ true)

module _ (fs : FileSystem) where
  validate_parts-valid :
      (hash path : Bytes) (p : Bytes × Bytes)
      → validate_parts fs hash path ≡ ok p
      → IsServableEntry fs p
  unfolding validate_parts
  validate_parts-valid hash path p e = ground arith

  check_parts-valid :
      (entry : Bytes) (parts : List Bytes) (p : Bytes × Bytes)
      → check_parts fs entry parts ≡ ok p
      → IsServableEntry fs p
  unfolding check_parts
  check_parts-valid entry [] p e = cc
  check_parts-valid entry (a ∷ []) p e = cc
  check_parts-valid entry (a ∷ b ∷ []) p e = validate_parts-valid a b p e
  check_parts-valid entry (a ∷ b ∷ c ∷ rest) p e = cc

  -- When the entries of a configuration or an admin request are accepted, each has a valid hash
  -- and a path that exists.
  pub validate_subfile_entries-valid :
      (entries : List Bytes) (results : List (Bytes × Bytes))
      → validate_subfile_entries fs entries ≡ ok results
      → All (IsServableEntry fs) results
  unfolding validate_subfile_entries validate_subfile_entry
  validate_subfile_entries-valid [] [] e = tt
  validate_subfile_entries-valid [] (p ∷ ps) e = cc
  validate_subfile_entries-valid (entry ∷ entries) results e =
      let (p, first, more) = >>=-eq-ok (validate_subfile_entry fs entry) _ e in
      let (ps, rest, same) = >>=-eq-ok (validate_subfile_entries fs entries) _ more in
      subst (λ r. All (IsServableEntry fs) r) (ok-injective same)
        ((check_parts-valid entry _ p first, validate_subfile_entries-valid entries ps rest))
