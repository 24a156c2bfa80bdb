-- ===== src/Exchange/Lifecycle.antt =====
-- Publish, add to a server, download.
use mathlib.Core.Path.{subst}
use subfile_data_service.Prelude.{
  ℕ, Bytes, codes, List, [], ◌∷◌, ◌++◌, ◌%◌, ◌<◌, ◌≤◌, some, true, ◌≡◌, ◌≢◌, sym, ap, ◌∙◌, length,
  take, get_elem?,
}
use subfile_data_service.Errors.{Error}
use subfile_data_service.HashMap.{get, insert}
use subfile_data_service.Rust.Result.{ok, Io, done, ok-injective}
use subfile_data_service.Rust.Words.{Build, isize_max}
use subfile_data_service.Serde.{Serde}
use subfile_data_service.System.{FileSystem, Holds, Fills}
use subfile_data_service.Http.{StatusCode, respond}
use subfile_data_service.Ipfs.Fetch.{read_subfile}
use subfile_data_service.Finder.{StatusReply}
use subfile_data_service.Subfile.Hasher.{CollisionFree}
use subfile_data_service.Subfile.Types.{ChunkFileMeta, Subfile}
use subfile_data_service.Subfile.Reader.{format_path}
use subfile_data_service.Subfile.Reader.Chunks.{num_chunks}
use subfile_data_service.Subfile.ChunkFiles.{push}
use subfile_data_service.Subfile.Entries.{validate_subfile_entries}
use subfile_data_service.Subfile.Entries.Valid.{validate_subfile_entries-valid}
use subfile_data_service.Publisher.{SubfilePublisher, publish}
use subfile_data_service.Publisher.ReadBack.{RoundTrips, Keeps, read_subfile-publish}
use subfile_data_service.Server.State.{Host, ServerState}
use subfile_data_service.Server.Invariant.{read_subfile-fields}
use subfile_data_service.Server.Routes.{token_matches}
use subfile_data_service.Server.Admin.{add_subfile}
use subfile_data_service.Client.Targets.{SubfileDownloader}
use subfile_data_service.Client.Check.{Prints}
use subfile_data_service.Client.DownloadSubfile.{
  World, State, ended, Moves, prepare, begin, output_path,
}
use subfile_data_service.Client.DownloadSubfile.Served.{NoneIncomplete, CanReach}
use subfile_data_service.Client.DownloadSubfile.Views.{get-insert_same}
use subfile_data_service.Exchange.Answers.{IsIntact, ByServer}
use subfile_data_service.Exchange.Intact.{validate_local_subfile-IsIntact, add_subfile-one}
use subfile_data_service.Exchange.Distinct.{read_subfile-same_entries}
use subfile_data_service.Exchange.Downloaded.{entry_of}
use subfile_data_service.Exchange.Entries.{publish-Apart, read_subfile-IsEntry}
use subfile_data_service.Exchange.Delivered.{download_subfile_delivers}

module _ (serde : Serde) (trips : RoundTrips serde) (host : Host) (s : ServerState serde)
    (keeps : Keeps s.client) (build : Build) (fs : FileSystem) (free : CollisionFree host.digest)
    (fuel : ℕ) (publisher : SubfilePublisher) (own : publisher.ipfs_client ≡ s.client)
    (pos : 0 < publisher.config.chunk_size) (fits : publisher.config.chunk_size ≤ isize_max)
    (content : Bytes → Bytes)
    (holds : (k : ℕ) (name : Bytes)
      → get_elem? publisher.config.file_names k ≡ some name
      → (h : Holds fs (format_path publisher.config.read_dir name) (content name)) × Fills h.handle
          (content name)
        × (num_chunks publisher.config.chunk_size (length (content name)) < fuel))
    (distinct : (j k : ℕ) (a b : Bytes)
      → get_elem? publisher.config.file_names j ≡ some a
      → get_elem? publisher.config.file_names k ≡ some b
      → content a ≡ content b
      → j ≡ k)
    (part : (k : ℕ) (name : Bytes)
      → get_elem? publisher.config.file_names k ≡ some name
      → length (content name) % publisher.config.chunk_size ≢ 0)
    (hash path : Bytes) (published_it : publish serde build fs host.digest fuel publisher ≡ ok hash)
    (copies : (k : ℕ) (name : Bytes)
      → get_elem? publisher.config.file_names k ≡ some name
      → (local : Bytes) × Holds host.fs (push path name) local
        × (take (length (content name)) local ≡ content name)) where
  abbrev of_entry : ChunkFileMeta → Bytes
  of_entry meta = content meta.meta_info.name

  -- The server's files of the published subfile are intact.
  entry-IsIntact :
      (subfile : Subfile) (k : ℕ) (meta : ChunkFileMeta)
      → read_subfile serde s.client hash path ≡ ok subfile
      → get_elem? subfile.chunk_files k ≡ some meta
      → IsIntact host subfile meta (of_entry meta)
        × (length (of_entry meta) % meta.chunk_file.chunk_size ≢ 0)
  entry-IsIntact subfile k meta read found =
      let entry =
        read_subfile-IsEntry serde trips s.client keeps build fs host.digest free fuel publisher own
          pos fits content holds distinct hash path subfile k meta published_it read found in
      let (local, held, intact) = copies k meta.meta_info.name entry.named in
      let place : subfile.local_path ≡ path =
        (read_subfile-fields serde s.client hash path subfile read).1 in
      (
        record {
          published_from = entry.from_content;
          local = local;
          held = subst (λ p. Holds host.fs (push p meta.meta_info.name) local) (sym place) held;
          intact = intact;
        },
        subst (λ n. length (of_entry meta) % n ≢ 0) entry.sized
            (part k meta.meta_info.name entry.named),
      )

  -- The server after the request.
  abbrev pub with_subfile : Subfile → ServerState serde
  with_subfile subfile = record s { subfiles = insert hash subfile s.subfiles }

  module _ (params : serde.JsonValue) (entries : List Bytes)
      (parsed : serde.json_to_strings params ≡ done entries)
      (entry_ok : validate_subfile_entries host.fs entries ≡ ok ((hash, path) ∷ [])) where
    -- A request to add the published subfile is answered with success, and lists it.
    pub add_subfile-publish :
        (subfile : Subfile) × (read_subfile serde s.client hash path ≡ ok subfile)
        × (add_subfile serde host (some params) s ≡ (
          ok (respond StatusCode.ok (codes "Subfile(s) added successfully")),
          with_subfile subfile,
        ))
    add_subfile-publish =
        let (subfile, read, manifest, made) =
          read_subfile-publish serde trips s.client keeps build fs host.digest fuel publisher own
            hash path published_it in
        (
          subfile,
          read,
          add_subfile-one serde host s params entries hash path subfile parsed entry_ok read
              (read_subfile-fields serde s.client hash path subfile read).0
              (validate_local_subfile-IsIntact host free subfile of_entry
                (λ k meta found. entry-IsIntact subfile k meta read found)),
        )

    module _ (client_build : Build) (print : List Error → Bytes) (print_status : StatusCode → Bytes)
        (http_get : Bytes → Io StatusReply) (prints : Prints) (start self : SubfileDownloader)
        (out : Bytes) (position : ℕ) (operator url token : Bytes) (wanted : self.ipfs_hash ≡ hash)
        (read : read_subfile serde s.client hash out ≡ ok start.subfile)
        (fresh : start.target_chunks ≡ [])
        (prepared : prepare serde s.client http_get prints client_build start ≡ ok self)
        (chosen : get_elem? self.indexer_urls position ≡ some (operator, url))
        (carried : self.free_query_auth_token ≡ some token)
        (accepted : token_matches s.free_query_auth_token (some token) ≡ true) where
      -- Publish, add, download: let a publication of files return a hash, and a server hold
      -- local copies that begin with the published contents. An add_subfile request for that
      -- hash, whose entry is accepted, is answered with status 200. A downloader that then has
      -- this server among its endpoints, carries a token that it accepts and has read the
      -- subfile of that hash, with nothing to fetch before its start, can go on from every
      -- point of its download_subfile at which no file has failed, with transfers for which
      -- that server is chosen and answers, to return Ok with every published file under its
      -- name in the output directory. No two positions of the publisher's list have files with
      -- the same content, no content's length is a multiple of the chunk size, which is above
      -- zero and within isize, the publisher's files are read without error by reads that fill
      -- the buffer, its fuel is above the number of chunks, publisher, server and downloader
      -- use one IPFS client, which keeps what was added, the hash functions are collision-free,
      -- and YAML texts parse back.
      pub published-delivered :
          (t : State)
          → Moves client_build host.digest print self (begin self) t
          → NoneIncomplete t.main
          → (s' : ServerState serde) × (add_subfile serde host (some params) s
              ≡ (ok (respond StatusCode.ok (codes "Subfile(s) added successfully")), s'))
            × (w : World) × CanReach client_build host.digest print self
                (ByServer serde host print_status s' self operator url)
                t
                (record { main = ended (ok tt); world = w })
            × ((k : ℕ) (name : Bytes)
                → get_elem? publisher.config.file_names k ≡ some name
                → get (self.output_dir ++ (codes "/" ++ name)) w.outputs ≡ some (content name))
      published-delivered t reached none_failed =
          let (subfile, read_path, added) = add_subfile-publish in
          let listing : subfile.chunk_files ≡ start.subfile.chunk_files =
            read_subfile-same_entries serde s.client hash path out subfile start.subfile read_path
              read in
          let intact : (k : ℕ) (meta : ChunkFileMeta)
              → get_elem? start.subfile.chunk_files k ≡ some meta
              → IsIntact host subfile meta (of_entry meta)
                × (length (of_entry meta) % meta.chunk_file.chunk_size ≢ 0) =
            λ k meta found.
              entry-IsIntact subfile k meta read_path
                (ap (λ files. get_elem? files k) listing ∙ found) in
          let (w, rest, files) =
            download_subfile_delivers serde host print_status (with_subfile subfile) subfile
              client_build print position self operator url token
              (rw wanted
                (validate_subfile_entries-valid host.fs entries ((hash, path) ∷ []) entry_ok).0.0)
              (ap (λ h. get h (insert hash subfile s.subfiles)) wanted
                ∙ get-insert_same hash subfile s.subfiles)
              chosen carried accepted s.client http_get prints free of_entry start listing fresh
              prepared (λ k meta found. (intact k meta found).0)
              (λ k meta found. (intact k meta found).1)
              (publish-Apart serde trips s.client keeps build fs host.digest free fuel publisher own
                pos fits content holds distinct hash out start.subfile self published_it read)
              t reached none_failed in
          (with_subfile subfile, added, w, rest, λ k name found. by_name w files k name found)
        where
          by_name :
              (w : World)
              → ((k : ℕ) (meta : ChunkFileMeta)
                  → get_elem? start.subfile.chunk_files k ≡ some meta
                  → get (output_path self meta) w.outputs ≡ some (of_entry meta))
              → (k : ℕ) (name : Bytes) → get_elem? publisher.config.file_names k ≡ some name
              → get (self.output_dir ++ (codes "/" ++ name)) w.outputs ≡ some (content name)
          by_name w files k name found =
              let (back, read_back, manifest, made) =
                read_subfile-publish serde trips s.client keeps build fs host.digest fuel publisher
                  own hash out published_it in
              let (m, at_k, named) =
                entry_of serde trips s.client keeps build fs host.digest fuel publisher own
                  publisher.config.file_names back.chunk_files k name made found in
              let same : back ≡ start.subfile = ok-injective (sym read_back ∙ read) in
              subst
                (λ (n : Bytes).
                  get (self.output_dir ++ (codes "/" ++ n)) w.outputs ≡ some (content n))
                named
                (files k m (subst (λ (b : Subfile). get_elem? b.chunk_files k ≡ some m) same at_k))
