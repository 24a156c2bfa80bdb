-- ===== src/Exchange/Served.antt =====
-- A client's request for a chunk, and the server's answer to it.

use subfile_data_service.Prelude.{
  ℕ, Bytes, codes, ◌++◌, ◌+◌, ◌-◌, ◌*◌, ◌≤◌, ◌<◌, ◌≡◌, refl, sym, ap, ◌∙◌, arith, length,
  length-take, slice, take, List, Option, some, true, bytes_eq_refl, strip_prefix, starts_with,
  strip_prefix-eq_some, Option-cases, inl, inr,
}
use subfile_data_service.Serde.{Serde}
use subfile_data_service.Rust.Result.{ok, done}
use subfile_data_service.Rust.Words.{Build, isize_max}
use subfile_data_service.System.{Holds}
use subfile_data_service.HashMap.{get}
use subfile_data_service.Http.{content_range, Request, Response, StatusCode}
use subfile_data_service.Ipfs.{is_valid_ipfs_hash}
use subfile_data_service.Subfile.Hasher.{hash_chunk, verify_chunk}
use subfile_data_service.Subfile.Types.{ChunkFileMeta, Subfile}
use subfile_data_service.Subfile.ChunkFiles.{push}
use subfile_data_service.Server.State.{Host, ServerState}
use subfile_data_service.Server.Routes.{
  header_text, token_matches, trim_start_matches, subfiles_route, find_chunk_file,
  serve_from_subfile, serve_chunk_file, file_service,
}
use subfile_data_service.Server.Range.{partial_response}
use subfile_data_service.Server.Range.Header.{parse_range_header-range_header}
use subfile_data_service.Server.Range.Served.{serve_file_range_inside}
use subfile_data_service.Subfile.Validate.Chunk.{
  published, chunk_length, chunk_range-eq, get_elem?-chunk_hashes, whole_chunk,
}
use subfile_data_service.Client.Transfer.Writes.{slice-take}
use subfile_data_service.Client.Targets.{IndexerEndpoint, SubfileDownloader}
use subfile_data_service.Client.Request.{
  DownloadRangeRequest, GetRequest, range_header, get_request, download_range_request,
  request_chunk, check_response,
}
use subfile_data_service.Exchange.Network.{
  arrives, is_success, has_content_range, received, through, through-eq,
}

trim_Qm :
    (rest : Bytes)
    → trim_start_matches subfiles_route (subfiles_route ++ (codes "Qm" ++ rest))
      ≡ codes "Qm" ++ rest
unfolding trim_start_matches
trim_Qm rest = refl

valid_Qm :
    (hash : Bytes) → is_valid_ipfs_hash hash ≡ true → (rest : Bytes) × (hash ≡ codes "Qm" ++ rest)
unfolding is_valid_ipfs_hash starts_with
valid_Qm hash v = elim (Option-cases (strip_prefix (codes "Qm") hash)) [
  | inl e ↦ let no_prefix : ⊥ = ground arith in absurd no_prefix
  | inr (rest, e) ↦ (rest, strip_prefix-eq_some (codes "Qm") hash rest e)
]

-- The path of a valid hash is taken apart into that hash.
pub trim_start_matches-route :
    (hash : Bytes)
    → is_valid_ipfs_hash hash ≡ true
    → trim_start_matches subfiles_route (subfiles_route ++ hash) ≡ hash
trim_start_matches-route hash v = let (rest, e) = valid_Qm hash v in rw e (trim_Qm rest)

-- The served subfile and the file in it of which the client asks for a chunk.
module _ (serde : Serde) (host : Host) (s : ServerState serde) (ipfs_hash : Bytes)
    (subfile : Subfile) (meta : ChunkFileMeta) (local content : Bytes) (size : ℕ)
    (valid : is_valid_ipfs_hash ipfs_hash ≡ true) (listed : get ipfs_hash s.subfiles ≡ some subfile)
    (found : find_chunk_file meta.meta_info.hash subfile.chunk_files ≡ some meta)
    (made : meta.chunk_file ≡ published host.digest size content)
    (h : Holds host.fs (push subfile.local_path meta.meta_info.name) local)
    (intact : take (length content) local ≡ content) (pos : 0 < size) (fits : size ≤ isize_max)
    (bounded : length content ≤ isize_max) where
  abbrev n : ℕ → ℕ
  n i = chunk_length size (length content) (i * size)

  abbrev answer : ℕ → Response
  answer i =
      partial_response (i * size) (i * size + n i - 1) (length local) (n i)
        (slice (i * size) (n i) content)

  file_answer :
      (i : ℕ)
      → i * size < length content
      → serve_chunk_file host
          (push subfile.local_path meta.meta_info.name)
          (some (done (range_header (i * size) (i * size + n i - 1))))
        ≡ ok (answer i)
  unfolding serve_chunk_file
  file_answer i inside =
      let long : length content ≤ length local =
        omega (arith, ap (λ (xs : Bytes). length xs) intact, length-take (length content) local) in
      let span : i * size + n i - 1 - i * size + 1 ≡ n i = omega arith in
      let same : slice (i * size) (n i) local ≡ slice (i * size) (n i) content =
        sym (slice-take (i * size) (n i) (length content) local (omega arith) (omega arith))
        ∙ ap (slice (i * size) (n i)) intact in
      rw
        (parse_range_header-range_header (i * size) (i * size + n i - 1) (omega arith)
          (omega arith))
        (serve_file_range_inside host (push subfile.local_path meta.meta_info.name) local h
            (i * size) (i * size + n i - 1) (omega arith) (omega arith)
          ∙ rw (span, same))

  from_subfile :
      (req : Request)
      → serve_from_subfile host req subfile (some meta.meta_info.hash)
        ≡ serve_chunk_file host
            (push subfile.local_path meta.meta_info.name)
            (req.header content_range)
  unfolding serve_from_subfile
  from_subfile req = rw (found, serve_from_subfile)

  -- The client's side: the request for chunk `i`.
  module _ (build : Build) (choose : List IndexerEndpoint → Option IndexerEndpoint)
      (print_status : StatusCode → Bytes) (self : SubfileDownloader) (operator url token : Bytes)
      (chosen : choose self.indexer_urls ≡ some (operator, url))
      (wanted : self.ipfs_hash ≡ ipfs_hash) (carried : self.free_query_auth_token ≡ some token)
      (accepted : token_matches s.free_query_auth_token (some token) ≡ true) where
    abbrev chunk_request : ℕ → DownloadRangeRequest
    chunk_request i = record {
      query_endpoint = url ++ (codes "/subfiles/id/" ++ self.ipfs_hash);
      auth_token = self.free_query_auth_token;
      file_hash = meta.meta_info.hash;
      start = i * size;
      end = i * size + n i - 1;
      chunk_hash = hash_chunk host.digest (slice (i * size) (n i) content);
      max_retry = self.chunk_max_retry;
    }

    download_range_request-eq :
        (i : ℕ)
        → i * size < length content
        → download_range_request build choose self meta i ≡ ok (chunk_request i)
    unfolding download_range_request
    download_range_request-eq i inside = rw (
      chosen,
      made,
      chunk_range-eq build host.digest content size i inside bounded pos fits,
      get_elem?-chunk_hashes build host.digest content size i inside pos,
      whole_chunk size content i,
    )

    abbrev http_request : ℕ → GetRequest
    http_request i = record {
      url = url ++ (codes "/subfiles/id/" ++ self.ipfs_hash);
      file_hash = meta.meta_info.hash;
      content_range = range_header (i * size) (i * size + n i - 1);
      authorization = token;
    }

    get_request-eq :
        (i : ℕ)
        → get_request
            (chunk_request i).query_endpoint
            (chunk_request i).auth_token
            (chunk_request i).file_hash
            (chunk_request i).start
            (chunk_request i).end
          ≡ ok (http_request i)
    unfolding get_request
    get_request-eq i = rw carried

    service_answer :
        (i : ℕ)
        → i * size < length content
        → file_service serde host
            (subfiles_route ++ ipfs_hash)
            (arrives (subfiles_route ++ ipfs_hash) (http_request i))
            s
          ≡ ok (answer i)
    unfolding file_service header_text
    service_answer i inside =
        rw (accepted, trim_start_matches-route ipfs_hash valid, listed)
          (from_subfile (arrives (subfiles_route ++ ipfs_hash) (http_request i))
            ∙ file_answer i inside)

    request_chunk-eq :
        (i : ℕ)
        → i * size < length content
        → request_chunk
            (through serde host print_status s url)
            (chunk_request i).query_endpoint
            (chunk_request i).auth_token
            (chunk_request i).file_hash
            (chunk_request i).start
            (chunk_request i).end
          ≡ ok (slice (i * size) (n i) content)
    unfolding request_chunk check_response received is_success has_content_range
    request_chunk-eq i inside =
        rw
          (
            get_request-eq i,
            through-eq serde host print_status s url ipfs_hash (http_request i)
                (ap (λ hash. url ++ (subfiles_route ++ hash)) wanted),
            service_answer i inside,
          )
          refl

    -- For each chunk of a file that the server lists under a valid hash, whose chunk file is
    -- the one of the content with a chunk size above zero, and whose local file begins with
    -- that content: a client that has chosen that server and carries a token that it accepts
    -- makes a request for the chunk, request_chunk receives exactly the chunk from the server's
    -- answer to it, and the client's verification accepts it. The chunk size and the content's
    -- length are within isize.
    pub chunk_served :
        (i : ℕ)
        → i * size < length content
        → (req : DownloadRangeRequest) × (download_range_request build choose self meta i ≡ ok req)
          × (request_chunk
                (through serde host print_status s url)
                req.query_endpoint
                req.auth_token
                req.file_hash
                req.start
                req.end
              ≡ ok (slice (i * size) (n i) content))
          × (verify_chunk host.digest (slice (i * size) (n i) content) req.chunk_hash ≡ true)
    unfolding verify_chunk
    chunk_served i inside = (
      chunk_request i,
      download_range_request-eq i inside,
      request_chunk-eq i inside,
      bytes_eq_refl _,
    )
