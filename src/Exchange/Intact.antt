-- ===== src/Exchange/Intact.antt =====
-- A subfile whose local files are intact passes the validation and is added.
use subfile_data_service.Prelude.{
  ℕ, suc, Bytes, codes, List, [], ◌∷◌, ◌%◌, some, ◌≡◌, ◌≢◌, refl, ap, length, get_elem?,
}
use subfile_data_service.Rust.Result.{ok, done}
use subfile_data_service.Serde.{Serde}
use subfile_data_service.HashMap.{insert}
use subfile_data_service.Http.{StatusCode, Response, respond}
use subfile_data_service.Ipfs.Fetch.{read_subfile}
use subfile_data_service.Subfile.Hasher.{CollisionFree}
use subfile_data_service.Subfile.Types.{ChunkFileMeta, Subfile}
use subfile_data_service.Subfile.ChunkFiles.{
  read_and_validate_file, validate_files, validate_local_subfile,
}
use subfile_data_service.Subfile.Entries.{validate_subfile_entries}
use subfile_data_service.Subfile.Validate.Files.{read_and_validate_file_iff}
use subfile_data_service.Server.State.{Host, ServerState}
use subfile_data_service.Server.Admin.{add_entries, add_subfile}
use subfile_data_service.Exchange.Answers.{IsIntact}

module _ (host : Host) (free : CollisionFree host.digest) (subfile : Subfile) where
  validate-IsIntact :
      (meta : ChunkFileMeta) (content : Bytes)
      → IsIntact host subfile meta content
      → length content % meta.chunk_file.chunk_size ≢ 0
      → read_and_validate_file host.build host.fs host.digest subfile meta ≡ ok tt
  validate-IsIntact meta content file part =
      let p = file.published_from in
      (read_and_validate_file_iff host.build host.fs host.digest free subfile meta file.local
          content file.held meta.chunk_file.chunk_size p.made p.pos p.fits p.bounded part).1
        file.intact

  validate_files-all :
      (files : List ChunkFileMeta)
      → ((k : ℕ) (meta : ChunkFileMeta)
          → get_elem? files k ≡ some meta
          → read_and_validate_file host.build host.fs host.digest subfile meta ≡ ok tt)
      → validate_files host.build host.fs host.digest subfile files ≡ ok tt
  unfolding validate_files
  validate_files-all [] each = refl
  validate_files-all (meta ∷ files) each =
      rw (each 0 meta refl) (validate_files-all files (λ k m found. each (suc k) m found))

  pub validate_local_subfile-IsIntact :
      (content : ChunkFileMeta → Bytes)
      → ((k : ℕ) (meta : ChunkFileMeta)
          → get_elem? subfile.chunk_files k ≡ some meta
          → IsIntact host subfile meta (content meta)
            × (length (content meta) % meta.chunk_file.chunk_size ≢ 0))
      → validate_local_subfile host.build host.fs host.digest subfile ≡ ok tt
  unfolding validate_local_subfile
  validate_local_subfile-IsIntact content each =
      validate_files-all subfile.chunk_files (λ k meta found.
        let (file, part) = each k meta found in validate-IsIntact meta (content meta) file part)

module _ (serde : Serde) (host : Host) (s : ServerState serde) where
  success : Response
  success = respond StatusCode.ok (codes "Subfile(s) added successfully")

  add_entries-one :
      (hash path : Bytes) (subfile : Subfile)
      → read_subfile serde s.client hash path ≡ ok subfile
      → subfile.ipfs_hash ≡ hash
      → validate_local_subfile host.build host.fs host.digest subfile ≡ ok tt
      → add_entries serde host ((hash, path) ∷ []) s
        ≡ (ok success, record s { subfiles = insert hash subfile s.subfiles })
  unfolding add_entries success
  add_entries-one hash path subfile read named valid =
      rw (read, valid)
        (ap (λ k. (ok success, record s { subfiles = insert k subfile s.subfiles })) named)

  -- One entry whose subfile is read and validated is added, and the answer is a success.
  pub add_subfile-one :
      (params : serde.JsonValue) (entries : List Bytes) (hash path : Bytes) (subfile : Subfile)
      → serde.json_to_strings params ≡ done entries
      → validate_subfile_entries host.fs entries ≡ ok ((hash, path) ∷ [])
      → read_subfile serde s.client hash path ≡ ok subfile
      → subfile.ipfs_hash ≡ hash
      → validate_local_subfile host.build host.fs host.digest subfile ≡ ok tt
      → add_subfile serde host (some params) s ≡ (
        ok (respond StatusCode.ok (codes "Subfile(s) added successfully")),
        record s { subfiles = insert hash subfile s.subfiles },
      )
  unfolding add_subfile success
  add_subfile-one params entries hash path subfile parsed accepted read named valid =
      rw (parsed, add_subfile, accepted) (add_entries-one hash path subfile read named valid)
