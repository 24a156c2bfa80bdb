-- ===== src/Examples/Clients.antt =====
-- Downloads of a file of five bytes in chunks of two.
use subfile_data_service.Prelude.{
  ℕ, zero, suc, codes, refl, arith, ◌≡◌, ◌<◌, ◌∷◌, [], none, some, List, Option, ◌*◌, true,
  bytes_eq, ◌++◌,
}
use subfile_data_service.Rust.Result.{Result, ok, err, panic, out_of_fuel, Io, done, failed}
use subfile_data_service.Rust.Words.{debug, div_u64, mul_u64, add_u64, sub_u64}
use subfile_data_service.Errors.{Error, request}
use subfile_data_service.Subfile.Types.{ChunkFileMeta}
use subfile_data_service.Subfile.Validate.Chunk.{published}
use subfile_data_service.HashMap.{get}
use subfile_data_service.Ipfs.{is_valid_ipfs_hash}
use subfile_data_service.Subfile.ChunkFiles.{push, chunk_range, chunk_rounds}
use subfile_data_service.Subfile.Hasher.{verify_chunk, hash_chunk}
use subfile_data_service.Client.Targets.{
  IndexerEndpoint, SubfileDownloader, has_chunk, remove_chunk, target_chunks, target_files,
  remaining_chunks,
}
use subfile_data_service.Client.Targets.All.{target_chunks_cover}
use subfile_data_service.Client.Request.{
  DownloadRangeRequest, GetRequest, GetResponse, download_range_request, get_request, request_chunk,
  check_response,
}
use subfile_data_service.Client.Transfer.{
  written, accept_chunk, write_chunk, write_at, transfer_loop, download_chunk_and_write_to_file,
}
use subfile_data_service.Client.Transfer.Attempts.{
  Outcome, download_chunk-Outcome, download_chunk_first_ok,
}
use subfile_data_service.Client.Rounds.{Download, transferred, finished, Reach, here, next}
use subfile_data_service.Client.Rounds.Complete.{download_complete}
use subfile_data_service.Server.Routes.{find_chunk_file, token_matches}
use subfile_data_service.Exchange.Network.{through}
use subfile_data_service.Exchange.Served.{chunk_served}
use subfile_data_service.Examples.World.{
  plain, plain-CollisionFree, five, disk-Holds, five-bounded, five_meta, subfile_of, hash_example,
  host_of,
}
use subfile_data_service.Examples.Wire.{serde_example, state_example}

abbrev pub downloader : SubfileDownloader
downloader = record {
  ipfs_hash = hash_example;
  subfile = subfile_of five_meta;
  static_endpoints = [];
  output_dir = codes "/out";
  free_query_auth_token = some (codes "Bearer free");
  indexer_urls = (codes "0x00", codes "http://localhost") ∷ [];
  indexer_blocklist = [];
  target_chunks = [];
  chunk_max_retry = 3;
}

abbrev pub choose_first : List IndexerEndpoint → Option IndexerEndpoint
choose_first [] = none
choose_first (e ∷ es) = some e

-- the request for the last chunk, of one byte
abbrev last_request : DownloadRangeRequest
last_request = record {
  query_endpoint = codes "http://localhost" ++ (codes "/subfiles/id/" ++ hash_example);
  auth_token = some (codes "Bearer free");
  file_hash = codes "QmFive";
  start = 4;
  end = 4;
  chunk_hash = codes "o";
  max_retry = 3;
}

-- a network that answers the second attempt
abbrev second_time : ℕ → GetRequest → Io GetResponse
second_time zero r = failed (codes "timeout")
second_time (suc n) r = done (record {
  is_success = true;
  status = codes "206";
  has_content_range = true;
  bytes = done (codes "o");
})

download_chunk-Outcome_example :
    Outcome plain last_request
      (codes "hell")
      (download_chunk_and_write_to_file plain second_time written last_request (codes "hell"))
download_chunk-Outcome_example =
    download_chunk-Outcome plain written last_request (codes "hell") second_time

abbrev targeted : Result SubfileDownloader
targeted = target_chunks debug (subfile_of five_meta) downloader

abbrev after_targets : SubfileDownloader
after_targets = elim targeted [
  | ok s ↦ s
  | err e ↦ downloader
  | panic ↦ downloader
  | out_of_fuel ↦ downloader
]

targeted-ok : targeted ≡ ok after_targets
unfolding target_chunks target_files chunk_rounds div_u64 add_u64
targeted-ok = refl

target_chunks_cover_example : has_chunk 2 (remaining_chunks (codes "QmFive") after_targets) ≡ true
target_chunks_cover_example =
    target_chunks_cover debug five_meta 2 (omega arith) (omega arith) (omega arith)
      (subfile_of five_meta) downloader after_targets 0 targeted-ok refl

refused :
    request_chunk
      (second_time 0)
      last_request.query_endpoint
      last_request.auth_token
      last_request.file_hash
      last_request.start
      last_request.end
    ≡ err (request (codes "timeout"))
unfolding request_chunk get_request
refused = refl

answered :
    request_chunk
      (second_time 1)
      last_request.query_endpoint
      last_request.auth_token
      last_request.file_hash
      last_request.start
      last_request.end
    ≡ ok (codes "o")
unfolding request_chunk get_request check_response
answered = refl

first_refused :
    (m : ℕ)
    → m < 1
    → (x : Error) × (request_chunk
          (second_time m)
          last_request.query_endpoint
          last_request.auth_token
          last_request.file_hash
          last_request.start
          last_request.end
        ≡ err x)
first_refused zero h = (request (codes "timeout"), refused)
first_refused (suc m) h = absurd (omega arith)

download_chunk_first_ok_example :
    download_chunk_and_write_to_file plain second_time written last_request (codes "hell")
    ≡ accept_chunk plain written last_request (codes "o") (codes "hell")
download_chunk_first_ok_example =
    download_chunk_first_ok plain written last_request (codes "hell") second_time 1 (codes "o")
      first_refused answered (λ h. omega arith)

pub valid_example : is_valid_ipfs_hash hash_example ≡ true
unfolding is_valid_ipfs_hash
valid_example = refl

pub listed_example : get hash_example state_example.subfiles ≡ some (subfile_of five_meta)
unfolding get state_example bytes_eq
listed_example = refl

found_example :
    find_chunk_file (codes "QmFive") ((subfile_of five_meta).chunk_files) ≡ some five_meta
unfolding find_chunk_file bytes_eq
found_example = refl

pub accepted_example :
    token_matches state_example.free_query_auth_token (some (codes "Bearer free")) ≡ true
unfolding token_matches state_example bytes_eq
accepted_example = refl

chunk_served_example :
    (req : DownloadRangeRequest) × (download_range_request debug choose_first downloader five_meta 1
      ≡ ok req)
    × (request_chunk
          (through serde_example
            (host_of five)
            (λ status. [])
            state_example
            (codes "http://localhost"))
          req.query_endpoint
          req.auth_token
          req.file_hash
          req.start
          req.end
        ≡ ok (codes "ll"))
    × (verify_chunk plain (codes "ll") req.chunk_hash ≡ true)
chunk_served_example =
    chunk_served serde_example (host_of five) state_example hash_example (subfile_of five_meta)
      five_meta five five 2 valid_example listed_example found_example refl
      (disk-Holds (push (codes "/data") (codes "five")) five five-bounded) refl (omega arith)
      (omega arith) five-bounded debug choose_first (λ status. []) downloader (codes "0x00")
      (codes "http://localhost") (codes "Bearer free") refl refl refl accepted_example 1
      (omega arith)

-- a file of one byte, so of one chunk
abbrev one_meta : ChunkFileMeta
one_meta = record {
  meta_info = record { name = codes "one"; hash = codes "QmOne" };
  chunk_file = published plain 2 (codes "o");
}

abbrev one_request : DownloadRangeRequest
one_request = record {
  query_endpoint = codes "http://localhost" ++ (codes "/subfiles/id/" ++ hash_example);
  auth_token = some (codes "Bearer free");
  file_hash = codes "QmOne";
  start = 0;
  end = 0;
  chunk_hash = codes "o";
  max_retry = 3;
}

one_requested : download_range_request debug choose_first downloader one_meta 0 ≡ ok one_request
unfolding download_range_request chunk_range mul_u64 add_u64 sub_u64 hash_chunk
one_requested = refl

one_stored :
    download_chunk_and_write_to_file plain second_time written one_request [] ≡ (ok tt, codes "o")
unfolding download_chunk_and_write_to_file transfer_loop request_chunk get_request check_response
    accept_chunk verify_chunk hash_chunk bytes_eq write_chunk write_at
one_stored = refl

abbrev before_one : Download
before_one = record { file = []; remaining = 0 ∷ []; stored = []; blocklist = [] }

abbrev after_one : Download
after_one = record { file = codes "o"; remaining = []; stored = 0 ∷ []; blocklist = [] }

one_steps : Reach debug plain downloader one_meta before_one after_one
unfolding remove_chunk has_chunk
one_steps =
    next
      (next here (
        transferred before_one 0 choose_first one_request second_time written (codes "o") refl
          one_requested one_stored))
      (finished _ 0 refl)

one_remaining : (i : ℕ) → i * 2 < 1 → has_chunk i (before_one.remaining) ≡ true
unfolding has_chunk
one_remaining zero h = refl
one_remaining (suc i) h = absurd (omega arith)

download_complete_example : after_one.file ≡ codes "o"
download_complete_example =
    download_complete debug plain plain-CollisionFree downloader one_meta (codes "o") 2 refl
      (omega arith) (omega arith) (omega arith) before_one after_one refl refl one_remaining
      one_steps refl
