-- ===== src/Server/Invariant.antt =====
-- Properties of every subfile that the server's state holds.
use subfile_data_service.Prelude.{
  Bytes, bytes_eq, bytes_eq_iff, [], some, true, ◌≡◌, arith, Bool-cases, inl, inr,
}
use mathlib.Core.Path.{subst}
use subfile_data_service.Rust.Result.{ok, >>=-eq-ok}
use subfile_data_service.Serde.{Serde}
use subfile_data_service.System.{FileSystem}
use subfile_data_service.HashMap.{HashMap, get, insert, remove}
use subfile_data_service.HashMap.Laws.{get-insert, get-remove}
use subfile_data_service.Ipfs.{IpfsClient, is_valid_ipfs_hash}
use subfile_data_service.Ipfs.Fetch.{fetch_subfile_from_ipfs, fetch_chunk_files, read_subfile}
use subfile_data_service.Subfile.Types.{Subfile}

-- Every subfile of the map has the property, under its key.
abbrev pub AllServed : (Bytes → Subfile → Type 0) → HashMap Subfile → Type 0
AllServed P m = (k : Bytes) (v : Subfile) → get k m ≡ some v → P k v

module _ (P : Bytes → Subfile → Type 0) where
  pub AllServed-insert :
      (k : Bytes) (v : Subfile) (m : HashMap Subfile)
      → P k v
      → AllServed P m
      → AllServed P (insert k v m)
  AllServed-insert k v m new all j w e = elim (Bool-cases (bytes_eq k j)) [
    | inl same ↦
        let found : v ≡ w = ground (arith, get-insert k j v m) in
        subst (λ x. P j x) found (subst (λ x. P x v) ((bytes_eq_iff k j).0 same) new)
    | inr other ↦ all j w (ground (arith, get-insert k j v m))
  ]

  pub AllServed-remove :
      (k : Bytes) (m : HashMap Subfile) → AllServed P m → AllServed P (remove k m)
  AllServed-remove k m all j w e = all j w (ground (arith, get-remove k j m))

  pub AllServed-nil : AllServed P []
  unfolding get
  AllServed-nil k v e = cc

-- The subfile stands under its own hash, which is valid, and its path exists.
pub record IsServable (fs : FileSystem) (hash : Bytes) (subfile : Subfile) : Type 0 where
  pub keyed : subfile.ipfs_hash ≡ hash
  pub valid : is_valid_ipfs_hash hash ≡ true
  pub there : fs.path_exists subfile.local_path ≡ true

-- A subfile that is read keeps the hash and the path that it was read for.
pub read_subfile-fields :
    (serde : Serde) (client : IpfsClient) (hash path : Bytes) (subfile : Subfile)
    → read_subfile serde client hash path ≡ ok subfile
    → (subfile.ipfs_hash ≡ hash) × (subfile.local_path ≡ path)
unfolding read_subfile
read_subfile-fields serde client hash path subfile e =
    let (manifest, first, more) = >>=-eq-ok (fetch_subfile_from_ipfs serde client hash) _ e in
    let (files, second, same) =
      >>=-eq-ok (fetch_chunk_files serde client manifest.files []) _ more in
    (cc, cc)
