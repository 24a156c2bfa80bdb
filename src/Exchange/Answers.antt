-- ===== src/Exchange/Answers.antt =====
-- The transfers that a server with intact files answers.
use subfile_data_service.Prelude.{
  ℕ, zero, suc, Bytes, bytes_eq, bytes_eq_iff, bytes_eq_refl, List, [], ◌∷◌, ◌*◌, ◌<◌, some, Option,
  true, ◌≡◌, refl, ◌∙◌, arith, Bool-cases, inl, inr, length, take, get_elem?,
}
use subfile_data_service.Errors.{Error}
use subfile_data_service.HashMap.{get}
use subfile_data_service.Rust.Result.{ok}
use subfile_data_service.Rust.Words.{Build}
use subfile_data_service.Serde.{Serde}
use subfile_data_service.System.{Holds}
use subfile_data_service.Http.{StatusCode}
use subfile_data_service.Ipfs.{is_valid_ipfs_hash}
use subfile_data_service.Subfile.Hasher.{Digest, verify_chunk}
use subfile_data_service.Subfile.Types.{ChunkFileMeta, Subfile}
use subfile_data_service.Subfile.ChunkFiles.{push}
use subfile_data_service.Server.State.{Host, ServerState}
use subfile_data_service.Server.Routes.{token_matches, find_chunk_file}
use subfile_data_service.Client.Targets.{IndexerEndpoint, SubfileDownloader}
use subfile_data_service.Client.Request.{DownloadRangeRequest}
use subfile_data_service.Client.Transfer.{
  written, write_at, write_chunk, accept_chunk, download_chunk_and_write_to_file,
}
use subfile_data_service.Client.Transfer.Attempts.{download_chunk_first_ok}
use subfile_data_service.Client.DownloadSubfile.Served.{IsServed}
use subfile_data_service.Client.DownloadSubfile.Uses.{Circumstance}
use subfile_data_service.Client.DownloadSubfile.Files.{IsPublished}
use subfile_data_service.Exchange.Network.{through}
use subfile_data_service.Exchange.Served.{chunk_served}

-- A chunk that verifies is stored.
accept_verified :
    (d : Digest) (req : DownloadRangeRequest) (chunk file : Bytes)
    → verify_chunk d chunk req.chunk_hash ≡ true
    → accept_chunk d written req chunk file ≡ (ok tt, write_at req.start chunk file)
unfolding accept_chunk write_chunk
accept_verified d req chunk file v = rw v refl

-- With different hashes, a file is the first one of its hash.
pub first_found :
    (files : List ChunkFileMeta) (k : ℕ) (meta : ChunkFileMeta)
    → get_elem? files k ≡ some meta
    → ((i j : ℕ) (a b : ChunkFileMeta)
        → get_elem? files i ≡ some a
        → get_elem? files j ≡ some b
        → a.meta_info.hash ≡ b.meta_info.hash
        → i ≡ j)
    → find_chunk_file meta.meta_info.hash files ≡ some meta
unfolding find_chunk_file
first_found [] k meta found apart = absurd cc
first_found (file ∷ files) zero meta found apart =
    let same : file ≡ meta = cc in rw (same, bytes_eq_refl meta.meta_info.hash) refl
first_found (file ∷ files) (suc k) meta found apart =
    elim (Bool-cases (bytes_eq file.meta_info.hash meta.meta_info.hash)) [
      | inl same ↦
          let clash : 0 ≡ suc k =
            apart 0 (suc k) file meta refl found
              ((bytes_eq_iff file.meta_info.hash meta.meta_info.hash).0 same) in
          absurd (omega (arith, clash))
      | inr other ↦ rw other (
          first_found files k meta found
            (λ i j a b f g e. omega (arith, apart (suc i) (suc j) a b f g e)))
    ]

-- The server's copy of the file begins with the content of which the chunk file was made.
pub record IsIntact (host : Host) (subfile : Subfile) (meta : ChunkFileMeta) (content : Bytes)
    : Type 0 where
  pub published_from : IsPublished host.digest content meta
  pub local : Bytes
  pub held : Holds host.fs (push subfile.local_path meta.meta_info.name) local
  pub intact : take (length content) local ≡ content

-- The server's endpoint is chosen, and the network gives the server's answers.
abbrev pub ByServer :
    (serde : Serde)
    → Host
    → (print_status : StatusCode → Bytes) → ServerState serde
    → SubfileDownloader
    → (operator url : Bytes) → Circumstance
ByServer serde host print_status s self operator url choose send outcome =
    (choose self.indexer_urls ≡ some (operator, url))
    × (send ≡ (λ attempt. through serde host print_status s url))

-- A server that lists the subfile of the downloader's hash, and what the downloader knows of it.
module _ (serde : Serde) (host : Host) (print_status : StatusCode → Bytes) (s : ServerState serde)
    (subfile : Subfile) (build : Build) (print : List Error → Bytes) (position : ℕ)
    (self : SubfileDownloader) (operator url token : Bytes)
    (valid : is_valid_ipfs_hash self.ipfs_hash ≡ true)
    (listed : get self.ipfs_hash s.subfiles ≡ some subfile)
    (chosen : get_elem? self.indexer_urls position ≡ some (operator, url))
    (carried : self.free_query_auth_token ≡ some token)
    (accepted : token_matches s.free_query_auth_token (some token) ≡ true) where
  pub chunk-IsServed :
      (meta : ChunkFileMeta) (content : Bytes) (i : ℕ)
      → find_chunk_file meta.meta_info.hash subfile.chunk_files ≡ some meta
      → IsIntact host subfile meta content
      → i * meta.chunk_file.chunk_size < length content
      → IsServed build host.digest print self
          (ByServer serde host print_status s self operator url)
          meta
          i
  unfolding download_chunk_and_write_to_file
  chunk-IsServed meta content i found file inside =
      let p = file.published_from in
      let choose : List IndexerEndpoint → Option IndexerEndpoint =
        λ urls. get_elem? urls position in
      let (req, made, replied, verifies) =
        chunk_served serde host s self.ipfs_hash subfile meta file.local content
          meta.chunk_file.chunk_size valid listed found p.made file.held file.intact p.pos p.fits
          p.bounded build choose print_status self operator url token chosen refl carried accepted i
          inside in
      record {
        choose = choose;
        req = req;
        send = λ attempt. through serde host print_status s url;
        outcome = written;
        allowed = (chosen, refl);
        made = made;
        stores = λ stored. (
          _,
          download_chunk_first_ok host.digest written req stored
                (λ attempt. through serde host print_status s url) 0 _
                (λ m lt. absurd (omega arith)) replied (λ h. absurd (omega arith))
              ∙ accept_verified host.digest req _ stored verifies,
        );
      }
