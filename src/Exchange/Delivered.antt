-- ===== src/Exchange/Delivered.antt =====
-- A download from a server that lists the subfile with intact files.
use subfile_data_service.Prelude.{
  some-injective, ℕ, Bytes, List, [], ◌*◌, ◌%◌, ◌<◌, some, true, ◌≡◌, ◌≢◌, sym, ap, ◌∙◌, length,
  get_elem?, ℕ_discrete,
}
use mathlib.Core.Path.{subst}
use subfile_data_service.Errors.{Error}
use subfile_data_service.HashMap.{get}
use subfile_data_service.Rust.Result.{ok, Io}
use subfile_data_service.Rust.Words.{Build}
use subfile_data_service.Serde.{Serde}
use subfile_data_service.Http.{StatusCode}
use subfile_data_service.Ipfs.{IpfsClient, is_valid_ipfs_hash}
use subfile_data_service.Finder.{StatusReply}
use subfile_data_service.Subfile.Hasher.{CollisionFree}
use subfile_data_service.Subfile.Types.{ChunkFile, ChunkFileMeta, Subfile}
use subfile_data_service.Subfile.ChunkFiles.{chunk_rounds}
use subfile_data_service.Server.State.{Host, ServerState}
use subfile_data_service.Server.Routes.{token_matches}
use subfile_data_service.Client.Targets.{SubfileDownloader, has_chunk, chunks_at}
use subfile_data_service.Client.Check.{Prints}
use subfile_data_service.Client.Targets.Within.{target_chunks-IsWithin, round_inside}
use subfile_data_service.Client.DownloadSubfile.{
  World, State, ended, Moves, prepare, begin, output_path,
}
use subfile_data_service.Client.DownloadSubfile.Views.{Apart}
use subfile_data_service.Client.DownloadSubfile.Outcome.{prepare-eq-ok, download_subfile_complete}
use subfile_data_service.Client.DownloadSubfile.Served.{NoneIncomplete, IsServed, CanReach}
use subfile_data_service.Client.DownloadSubfile.Finishes.{download_subfile_finishes}
use subfile_data_service.Client.DownloadSubfile.Uses.{join_moves}
use subfile_data_service.Exchange.Answers.{IsIntact, ByServer, first_found, chunk-IsServed}

-- A server that lists the subfile of the downloader's hash, and what the downloader knows of it.
module _ (serde : Serde) (host : Host) (print_status : StatusCode → Bytes) (s : ServerState serde)
    (subfile : Subfile) (build : Build) (print : List Error → Bytes) (position : ℕ)
    (self : SubfileDownloader) (operator url token : Bytes)
    (valid : is_valid_ipfs_hash self.ipfs_hash ≡ true)
    (listed : get self.ipfs_hash s.subfiles ≡ some subfile)
    (chosen : get_elem? self.indexer_urls position ≡ some (operator, url))
    (carried : self.free_query_auth_token ≡ some token)
    (accepted : token_matches s.free_query_auth_token (some token) ≡ true) where
  module _ (client : IpfsClient) (http_get : Bytes → Io StatusReply) (prints : Prints)
      (free : CollisionFree host.digest) (content : ChunkFileMeta → Bytes)
      (start : SubfileDownloader) (listing : subfile.chunk_files ≡ start.subfile.chunk_files)
      (fresh : start.target_chunks ≡ [])
      (prepared : prepare serde client http_get prints build start ≡ ok self)
      (intact : (k : ℕ) (meta : ChunkFileMeta)
        → get_elem? start.subfile.chunk_files k ≡ some meta
        → IsIntact host subfile meta (content meta))
      (part : (k : ℕ) (meta : ChunkFileMeta)
        → get_elem? start.subfile.chunk_files k ≡ some meta
        → length (content meta) % meta.chunk_file.chunk_size ≢ 0)
      (apart : (j k : ℕ) (a b : ChunkFileMeta)
        → get_elem? start.subfile.chunk_files j ≡ some a
        → get_elem? start.subfile.chunk_files k ≡ some b
        → j ≢ k
        → Apart self a b) where
    -- Entries with the same hash stand at the same position.
    one_position :
        (i j : ℕ) (a b : ChunkFileMeta)
        → get_elem? start.subfile.chunk_files i ≡ some a
        → get_elem? start.subfile.chunk_files j ≡ some b
        → a.meta_info.hash ≡ b.meta_info.hash
        → i ≡ j
    one_position i j a b at_i at_j e = elim (ℕ_discrete i j) [
      | yes same ↦ same
      | no differ ↦ absurd ((apart i j a b at_i at_j differ).hashes e)
    ]

    -- Every chunk to fetch begins inside its file.
    target_inside :
        (k : ℕ) (meta : ChunkFileMeta) (i : ℕ)
        → get_elem? start.subfile.chunk_files k ≡ some meta
        → has_chunk i (chunks_at meta.meta_info.hash self.target_chunks) ≡ true
        → i * meta.chunk_file.chunk_size < length (content meta)
    target_inside k meta i found waits =
        let (mid, targeted, targets, subfiles, dir) =
          prepare-eq-ok serde client http_get prints build start self prepared in
        let within =
          target_chunks-IsWithin build meta.meta_info.hash i start.subfile start mid targeted fresh
            (subst (λ t. has_chunk i (chunks_at meta.meta_info.hash t) ≡ true) targets waits) in
        let position : within.position ≡ k =
          one_position within.position k within.meta meta within.found found within.hashed in
        let same : within.meta ≡ meta =
          some-injective
            (sym within.found ∙ ap (get_elem? start.subfile.chunk_files) position ∙ found) in
        let p = (intact k meta found).published_from in
        let total : meta.chunk_file.total_bytes ≡ length (content meta) =
          ap (λ (c : ChunkFile). c.total_bytes) p.made in
        rw (sym total) (
          round_inside build meta.chunk_file within.rounds i p.pos (rw total p.bounded)
            (rw total (part k meta found))
            (subst (λ (m : ChunkFileMeta). chunk_rounds build m.chunk_file ≡ ok within.rounds) same
              within.counted)
            within.below)

    target-IsServed :
        (k : ℕ) (meta : ChunkFileMeta) (i : ℕ)
        → get_elem? start.subfile.chunk_files k ≡ some meta
        → has_chunk i (chunks_at meta.meta_info.hash self.target_chunks) ≡ true
        → IsServed build host.digest print self
            (ByServer serde host print_status s self operator url)
            meta
            i
    target-IsServed k meta i found waits =
        let listed_at : (j : ℕ) (a : ChunkFileMeta)
            → get_elem? subfile.chunk_files j ≡ some a
            → get_elem? start.subfile.chunk_files j ≡ some a =
          λ j a at_j. ap (λ files. get_elem? files j) (sym listing) ∙ at_j in
        chunk-IsServed serde host print_status s subfile build print position self operator url
          token valid listed chosen carried accepted meta (content meta) i
          (first_found subfile.chunk_files k meta (ap (λ files. get_elem? files k) listing ∙ found)
            (λ i j a b at_i at_j e.
              one_position i j a b (listed_at i a at_i) (listed_at j b at_j) e))
          (intact k meta found) (target_inside k meta i found waits)

    -- Downloader and server together: let a server list the subfile of the downloader's hash,
    -- which is valid, with the downloader's entries, and hold for each of its files a local
    -- copy that begins with the content of the chunk file; let the downloader have that server
    -- among its endpoints, with nothing to fetch before its start, and carry a token that the
    -- server accepts. Then from every point of a download_subfile at which no file has failed,
    -- whatever happened before, it can go on, with transfers for which that server is chosen
    -- and answers, to return Ok with exactly the content of every file of the subfile in its
    -- output file. No two files share a hash or an output path, no chunk size divides the
    -- length of its content, chunk sizes are above zero, sizes and lengths are within isize,
    -- and the hash functions are collision-free.
    pub download_subfile_delivers :
        (t : State)
        → Moves build host.digest print self (begin self) t
        → NoneIncomplete t.main
        → (w : World) × CanReach build host.digest print self
            (ByServer serde host print_status s self operator url)
            t
            (record { main = ended (ok tt); world = w })
          × ((k : ℕ) (meta : ChunkFileMeta)
              → get_elem? start.subfile.chunk_files k ≡ some meta
              → get (output_path self meta) w.outputs ≡ some (content meta))
    download_subfile_delivers t reached none_failed =
        let (mid, targeted, targets, subfiles, dir) =
          prepare-eq-ok serde client http_get prints build start self prepared in
        let (w, rest) =
          download_subfile_finishes build host.digest print self
            (ByServer serde host print_status s self operator url)
            (λ k meta i found waits.
              target-IsServed k meta i
                (ap (λ (x : Subfile). get_elem? x.chunk_files k) (sym subfiles) ∙ found) waits)
            t reached none_failed in
        (
          w,
          rest,
          download_subfile_complete serde client http_get prints build host.digest free print
              content start self w prepared (λ k meta found. (intact k meta found).published_from)
              apart (join_moves build host.digest print self reached rest.moves),
        )
