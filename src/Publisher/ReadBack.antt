-- ===== src/Publisher/ReadBack.antt =====
-- The publisher of subfile-exchange/src/publisher/mod.rs against the reader of subfile_reader.rs.
use mathlib.Core.Path.{subst}
use subfile_data_service.Prelude.{
  ℕ, Bytes, List, [], ◌∷◌, ◌++◌, ◌≡◌, map, refl, sym, ap, ◌∙◌, append_assoc, append-nil,
}
use subfile_data_service.Errors.{Error, ipfs_error}
use subfile_data_service.Rust.Result.{ok, Io, done, failed, map_err, >>=-eq-ok, ok-injective}
use subfile_data_service.Rust.Words.{Build}
use subfile_data_service.Serde.{Serde}
use subfile_data_service.System.{FileSystem}
use subfile_data_service.Ipfs.{IpfsClient, AddResponse, add, cat_all}
use subfile_data_service.Ipfs.Fetch.{
  fetch_subfile_from_ipfs, fetch_chunk_file_from_ipfs, fetch_chunk_files, read_subfile,
}
use subfile_data_service.Subfile.Hasher.{Digest}
use subfile_data_service.Subfile.Types.{
  FileMetaInfo, SubfileManifest, ChunkFile, ChunkFileMeta, Subfile,
}
use subfile_data_service.Subfile.ChunkFiles.{new}
use subfile_data_service.Publisher.{
  SubfilePublisher, write_chunk_file, hash_and_publish_file, publish_names, hash_and_publish_files,
  manifest_of, construct_subfile_manifest, publish_subfile_manifest, publish,
}

-- What serde_yaml prints, it parses back, and the text is UTF-8.
pub record RoundTrips (serde : Serde) : Type 0 where
  pub manifest :
      (m : SubfileManifest) (text : Bytes)
      → serde.manifest_to_yaml m ≡ done text
      → (v : serde.YamlValue) × (serde.from_utf8 text ≡ done text)
        × (serde.yaml_from_str text ≡ done v)
        × (serde.yaml_to_manifest v ≡ done m)
  pub chunk_file :
      (c : ChunkFile) (text : Bytes)
      → serde.chunk_file_to_yaml c ≡ done text
      → (v : serde.YamlValue) × (serde.from_utf8 text ≡ done text)
        × (serde.yaml_from_str text ≡ done v)
        × (serde.yaml_to_chunk_file v ≡ done c)

-- What was added to IPFS is there under the hash that `add` returned.
pub record Keeps (client : IpfsClient) : Type 0 where
  pub kept :
      (bytes : Bytes) (r : AddResponse)
      → add client bytes ≡ done r
      → cat_all client r.hash 10 ≡ done bytes

map_err-eq-ok :
    {A : Type 0} (r : Io A) (f : Bytes → Error) {a : A} → map_err r f ≡ ok a → r ≡ done a
map_err-eq-ok (done x) f e = ap done (ok-injective e)
map_err-eq-ok (failed x) f e = cc

module _ (serde : Serde) (trips : RoundTrips serde) (client : IpfsClient)
    (keeps : Keeps client) where
  fetch-chunk_file :
      (c : ChunkFile) (text : Bytes) (r : AddResponse)
      → serde.chunk_file_to_yaml c ≡ done text
      → add client text ≡ done r
      → fetch_chunk_file_from_ipfs serde client r.hash ≡ ok c
  unfolding fetch_chunk_file_from_ipfs
  fetch-chunk_file c text r printed added =
      let (v, utf8, parsed, read) = trips.chunk_file c text printed in
      rw (keeps.kept text r added, utf8, parsed, read)

  fetch-manifest :
      (m : SubfileManifest) (text : Bytes) (r : AddResponse)
      → serde.manifest_to_yaml m ≡ done text
      → add client text ≡ done r
      → fetch_subfile_from_ipfs serde client r.hash ≡ ok m
  unfolding fetch_subfile_from_ipfs
  fetch-manifest m text r printed added =
      let (v, utf8, parsed, read) = trips.manifest m text printed in
      rw (keeps.kept text r added, utf8, parsed, read)

  module _ (build : Build) (fs : FileSystem) (d : Digest) (fuel : ℕ) (self : SubfilePublisher)
      (own : self.ipfs_client ≡ client) where
    -- Each file has its entry, with its name and the chunk file that `ChunkFile::new` makes of it.
    abbrev pub Made : List Bytes → List ChunkFileMeta → Type 0
    Made [] [] = Unit
    Made [] (m ∷ ms) = ⊥
    Made (name ∷ names) [] = ⊥
    Made (name ∷ names) (m ∷ ms) =
        (m.meta_info.name ≡ name)
        × (new build fs d fuel self.config.read_dir name self.config.chunk_size ≡ ok m.chunk_file)
        × Made names ms

    abbrev infos : List ChunkFileMeta → List FileMetaInfo
    infos ms = map (λ (m : ChunkFileMeta). m.meta_info) ms

    publish_one :
        (name : Bytes) (r : AddResponse)
        → hash_and_publish_file serde build fs d fuel self name ≡ ok r
        → (c : ChunkFile) × (new build fs d fuel self.config.read_dir name self.config.chunk_size
            ≡ ok c)
          × (fetch_chunk_file_from_ipfs serde client r.hash ≡ ok c)
    unfolding hash_and_publish_file write_chunk_file
    publish_one name r e =
        let (text, wrote, more) =
          >>=-eq-ok (write_chunk_file serde build fs d fuel self name) _ e in
        let (c, made, printed) =
          >>=-eq-ok (new build fs d fuel self.config.read_dir name self.config.chunk_size) _
            wrote in
        (
          c,
          made,
          fetch-chunk_file c text r (map_err-eq-ok _ _ printed)
              (subst (λ k. add k text ≡ done r) own (map_err-eq-ok _ _ more)),
        )

    publish_names-fetch :
        (names : List Bytes) (before result : List FileMetaInfo)
        → publish_names serde build fs d fuel self names before ≡ ok result
        → (ms : List ChunkFileMeta) × Made names ms
          × (result ≡ before ++ infos ms)
          × ((acc : List ChunkFileMeta)
              → fetch_chunk_files serde client (infos ms) acc ≡ ok (acc ++ ms))
    unfolding publish_names fetch_chunk_files
    publish_names-fetch [] before result e = (
      [],
      tt,
      sym (ok-injective e) ∙ sym (append-nil before),
      λ acc. ap ok (sym (append-nil acc)),
    )
    publish_names-fetch (name ∷ names) before result e =
        let (r, one, more) =
          >>=-eq-ok (hash_and_publish_file serde build fs d fuel self name) _ e in
        let (c, made, fetched) = publish_one name r one in
        let (ms, made_all, same, fetch_all) = publish_names-fetch names _ result more in
        let m : ChunkFileMeta = record {
          meta_info = record { name = name; hash = r.hash };
          chunk_file = c;
        } in
        (
          m ∷ ms,
          (refl, made, made_all),
          same ∙ append_assoc before (m.meta_info ∷ []) (infos ms),
          λ acc. rw fetched (fetch_all (acc ++ m ∷ []) ∙ ap ok (append_assoc acc (m ∷ []) ms)),
        )

    -- A subfile that was published is read back from IPFS under the hash that publish returned:
    -- the manifest is the publisher's, and each file of the publisher's list is there in order,
    -- under its name and with the chunk file that ChunkFile::new makes of it. IPFS keeps what
    -- was added, and YAML texts parse back.
    pub read_subfile-publish :
        (hash path : Bytes)
        → publish serde build fs d fuel self ≡ ok hash
        → (subfile : Subfile) × (read_subfile serde client hash path ≡ ok subfile)
          × (subfile.manifest ≡ manifest_of serde build fs d fuel self (infos subfile.chunk_files))
          × Made self.config.file_names subfile.chunk_files
    unfolding publish hash_and_publish_files construct_subfile_manifest publish_subfile_manifest
        read_subfile
    read_subfile-publish hash path e =
        let (meta_info, one, more) =
          >>=-eq-ok (hash_and_publish_files serde build fs d fuel self) _ e in
        let (yaml, two, more') =
          >>=-eq-ok (construct_subfile_manifest serde build fs d fuel self meta_info) _ more in
        let (added, three, same_hash) =
          >>=-eq-ok (map_err (add self.ipfs_client yaml) ipfs_error) _ more' in
        let (ms, made, same, fetch_all) =
          publish_names-fetch self.config.file_names [] meta_info one in
        let m = manifest_of serde build fs d fuel self (infos ms) in
        let fetched : fetch_subfile_from_ipfs serde client hash ≡ ok m =
          subst (λ k. fetch_subfile_from_ipfs serde client k ≡ ok m) (ok-injective same_hash)
            (fetch-manifest m yaml added
              (subst
                (λ l. serde.manifest_to_yaml (manifest_of serde build fs d fuel self l) ≡ done yaml)
                same (map_err-eq-ok _ _ two))
              (subst (λ k. add k yaml ≡ done added) own (map_err-eq-ok _ _ three))) in
        (
          record { ipfs_hash = hash; local_path = path; manifest = m; chunk_files = ms },
          rw fetched (rw (fetch_all [])),
          refl,
          made,
        )
