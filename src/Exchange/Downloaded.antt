-- ===== src/Exchange/Downloaded.antt =====
-- The publisher, IPFS and the downloader together.
use mathlib.Core.Path.{subst}
use subfile_data_service.Prelude.{
  ℕ, zero, suc, Bytes, codes, List, [], ◌∷◌, ◌++◌, ◌<◌, ◌≤◌, some, ◌≡◌, ◌≢◌, refl, sym, ap, ◌∙◌,
  length, get_elem?,
}
use subfile_data_service.Errors.{Error}
use subfile_data_service.HashMap.{get}
use subfile_data_service.Rust.Result.{ok, Io, ok-injective}
use subfile_data_service.Rust.Words.{Build, isize_max}
use subfile_data_service.Serde.{Serde}
use subfile_data_service.System.{FileSystem, Holds, Fills}
use subfile_data_service.Ipfs.{IpfsClient}
use subfile_data_service.Ipfs.Fetch.{read_subfile}
use subfile_data_service.Finder.{StatusReply}
use subfile_data_service.Subfile.Hasher.{Digest, CollisionFree}
use subfile_data_service.Subfile.Types.{ChunkFile, ChunkFileMeta, Subfile}
use subfile_data_service.Subfile.Reader.{format_path}
use subfile_data_service.Subfile.Reader.Chunks.{num_chunks}
use subfile_data_service.Subfile.ChunkFiles.{new}
use subfile_data_service.Subfile.Published.{new-eq-published}
use subfile_data_service.Subfile.Validate.Chunk.{published}
use subfile_data_service.Publisher.{SubfilePublisher, publish}
use subfile_data_service.Publisher.ReadBack.{RoundTrips, Keeps, Made, read_subfile-publish}
use subfile_data_service.Client.Targets.{SubfileDownloader}
use subfile_data_service.Client.Check.{Prints}
use subfile_data_service.Client.DownloadSubfile.{World, ended, Moves, prepare, begin}
use subfile_data_service.Client.DownloadSubfile.Views.{Apart}
use subfile_data_service.Client.DownloadSubfile.Files.{IsPublished}
use subfile_data_service.Client.DownloadSubfile.Outcome.{download_subfile_complete}

module _ (serde : Serde) (trips : RoundTrips serde) (client : IpfsClient) (keeps : Keeps client)
    (build : Build) (fs : FileSystem) (d : Digest) (fuel : ℕ) (publisher : SubfilePublisher)
    (own : publisher.ipfs_client ≡ client) where
  abbrev MadeOf : List Bytes → List ChunkFileMeta → Type 0
  MadeOf = Made serde trips client keeps build fs d fuel publisher own

  -- The entry at a position is that of the name there.
  entry_made :
      (names : List Bytes) (ms : List ChunkFileMeta) (k : ℕ) (m : ChunkFileMeta)
      → MadeOf names ms
      → get_elem? ms k ≡ some m
      → (get_elem? names k ≡ some m.meta_info.name)
        × (new build fs d fuel publisher.config.read_dir m.meta_info.name
              publisher.config.chunk_size
            ≡ ok m.chunk_file)
  entry_made [] [] k m made found = cc
  entry_made [] (x ∷ ms) k m made found = elim made [ ]
  entry_made (name ∷ names) [] k m made found = elim made [ ]
  entry_made (name ∷ names) (x ∷ ms) zero m (named, made, rest) found =
      let same : x ≡ m = cc in
      let named' : m.meta_info.name ≡ name =
        subst (λ (y : ChunkFileMeta). y.meta_info.name ≡ name) same named in
      (
        ap some (sym named'),
        subst
            (λ (y : Bytes).
              new build fs d fuel publisher.config.read_dir y publisher.config.chunk_size
              ≡ ok m.chunk_file)
            (sym named')
            (subst
              (λ (y : ChunkFileMeta).
                new build fs d fuel publisher.config.read_dir name publisher.config.chunk_size
                ≡ ok y.chunk_file)
              same made),
      )
  entry_made (name ∷ names) (x ∷ ms) (suc k) m (named, made, rest) found =
      entry_made names ms k m rest found

  -- And each name has its entry.
  pub entry_of :
      (names : List Bytes) (ms : List ChunkFileMeta) (k : ℕ) (name : Bytes)
      → MadeOf names ms
      → get_elem? names k ≡ some name
      → (m : ChunkFileMeta) × (get_elem? ms k ≡ some m) × (m.meta_info.name ≡ name)
  entry_of [] [] k name made found = cc
  entry_of [] (m ∷ ms) k name made found = elim made [ ]
  entry_of (x ∷ names) [] k name made found = elim made [ ]
  entry_of (x ∷ names) (m ∷ ms) zero name (named, made, rest) found =
      let same : x ≡ name = cc in (m, refl, named ∙ same)
  entry_of (x ∷ names) (m ∷ ms) (suc k) name (named, made, rest) found =
      entry_of names ms k name rest found

  module _ (pos : 0 < publisher.config.chunk_size) (fits : publisher.config.chunk_size ≤ isize_max)
      (content : Bytes → Bytes)
      (holds : (k : ℕ) (name : Bytes)
        → get_elem? publisher.config.file_names k ≡ some name
        → (h : Holds fs (format_path publisher.config.read_dir name) (content name)) × Fills
            h.handle
            (content name)
          × (num_chunks publisher.config.chunk_size (length (content name)) < fuel)) where
    -- The chunk file that a publisher makes is the one of the file's content.
    made-published :
        (k : ℕ) (m : ChunkFileMeta)
        → get_elem? publisher.config.file_names k ≡ some m.meta_info.name
        → new build fs d fuel publisher.config.read_dir m.meta_info.name publisher.config.chunk_size
          ≡ ok m.chunk_file
        → m.chunk_file ≡ published d publisher.config.chunk_size (content m.meta_info.name)
    made-published k m named made =
        let (h, fills, enough) = holds k m.meta_info.name named in
        ok-injective (
          sym made
          ∙ new-eq-published build fs d publisher.config.read_dir m.meta_info.name
              (content m.meta_info.name) h fills publisher.config.chunk_size fuel pos fits enough)

    -- Each entry of a subfile that is read back stands at its name's position, with the chunk file
    -- of its content.
    pub published_entry :
        (hash path : Bytes) (subfile : Subfile) (k : ℕ) (m : ChunkFileMeta)
        → publish serde build fs d fuel publisher ≡ ok hash
        → read_subfile serde client hash path ≡ ok subfile
        → get_elem? subfile.chunk_files k ≡ some m
        → (get_elem? publisher.config.file_names k ≡ some m.meta_info.name)
          × (m.chunk_file ≡ published d publisher.config.chunk_size (content m.meta_info.name))
    published_entry hash path subfile k m published_it read found =
        let (back, read', manifest, made) =
          read_subfile-publish serde trips client keeps build fs d fuel publisher own hash path
            published_it in
        let made' : MadeOf publisher.config.file_names subfile.chunk_files =
          subst (λ (s : Subfile). MadeOf publisher.config.file_names s.chunk_files)
            (ok-injective (sym read' ∙ read)) made in
        let (named, made_m) =
          entry_made publisher.config.file_names subfile.chunk_files k m made' found in
        (named, made-published k m named made_m)

    made-IsPublished :
        (k : ℕ) (m : ChunkFileMeta)
        → get_elem? publisher.config.file_names k ≡ some m.meta_info.name
        → new build fs d fuel publisher.config.read_dir m.meta_info.name publisher.config.chunk_size
          ≡ ok m.chunk_file
        → IsPublished d (content m.meta_info.name) m
    made-IsPublished k m named made =
        let (h, fills, enough) = holds k m.meta_info.name named in
        let size : ℕ = publisher.config.chunk_size in
        let same = sym (made-published k m named made) in
        let of_size : size ≡ m.chunk_file.chunk_size = ap (λ (c : ChunkFile). c.chunk_size) same in
        record {
          made = sym same ∙ ap (λ n. published d n (content m.meta_info.name)) of_size;
          pos = subst (λ n. 0 < n) of_size pos;
          fits = subst (λ n. n ≤ isize_max) of_size fits;
          bounded = h.bounded;
        }

    -- Publisher, IPFS and downloader together: let a publication of files that are read without
    -- error return a hash, and a downloader read the subfile of that hash, which has no two
    -- files with the same hash or output path. When download_subfile returns Ok, the output
    -- directory has every published file under its name with the bytes that the publisher read.
    -- The hash functions are collision-free, IPFS keeps what was added, YAML texts parse back,
    -- the reads fill the buffer, the publisher's fuel is above the number of chunks, and the
    -- chunk size is above zero and within isize.
    pub download_subfile-publish :
        (hash : Bytes) (free : CollisionFree d) (http_get : Bytes → Io StatusReply)
        (prints : Prints) (print : List Error → Bytes) (client_build : Build)
        (start self : SubfileDownloader) (path : Bytes) (w : World)
        → publish serde build fs d fuel publisher ≡ ok hash
        → read_subfile serde client hash path ≡ ok start.subfile
        → prepare serde client http_get prints client_build start ≡ ok self
        → ((j k : ℕ) (a b : ChunkFileMeta)
            → get_elem? start.subfile.chunk_files j ≡ some a
            → get_elem? start.subfile.chunk_files k ≡ some b
            → j ≢ k
            → Apart self a b)
        → Moves client_build d print self (begin self) (record { main = ended (ok tt); world = w })
        → (k : ℕ) (name : Bytes) → get_elem? publisher.config.file_names k ≡ some name
        → get (self.output_dir ++ (codes "/" ++ name)) w.outputs ≡ some (content name)
    download_subfile-publish hash free http_get prints print client_build start self path w
          published_it read prepared apart moves k name found =
        let (subfile, read', manifest, made) =
          read_subfile-publish serde trips client keeps build fs d fuel publisher own hash path
            published_it in
        let same : subfile ≡ start.subfile = ok-injective (sym read' ∙ read) in
        let made' : MadeOf publisher.config.file_names start.subfile.chunk_files =
          subst (λ (s : Subfile). MadeOf publisher.config.file_names s.chunk_files) same made in
        let (m, at_k, named) =
          entry_of publisher.config.file_names start.subfile.chunk_files k name made' found in
        subst
          (λ (n : Bytes). get (self.output_dir ++ (codes "/" ++ n)) w.outputs ≡ some (content n))
          named
          (download_subfile_complete serde client http_get prints client_build d free print
            (λ (a : ChunkFileMeta). content a.meta_info.name) start self w prepared
            (λ j a at_j.
              let (found_j, made_j) =
                entry_made publisher.config.file_names start.subfile.chunk_files j a made' at_j in
              made-IsPublished j a found_j made_j)
            apart moves k m at_k)
