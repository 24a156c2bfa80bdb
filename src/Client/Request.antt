-- ===== src/Client/Request.antt =====
-- `download_range_request` and `request_chunk`. The random choice of an endpoint and the HTTP
-- client's `send` are crates, so parameters.
use subfile_data_service.Prelude.{
  ℕ, Bytes, codes, List, ◌++◌, Bool, ◌&&◌, Option, if◌then◌else◌, get_elem?,
}
use subfile_data_service.Errors.{data_unavilable, request, invalid_range}
use subfile_data_service.Rust.Result.{Result, ok, err, Io, ◌>>=◌, map_err, unwrap, ok_or}
use subfile_data_service.Rust.Words.{Build}
use subfile_data_service.Rust.Decimal.{decimal}
use subfile_data_service.Subfile.Types.{ChunkFileMeta}
use subfile_data_service.Subfile.ChunkFiles.{chunk_range}
use subfile_data_service.Client.Targets.{IndexerEndpoint, SubfileDownloader}

-- The file handle is the state of the download, and `_receipt` is always `None`.
pub record DownloadRangeRequest : Type 0 where
  pub query_endpoint : Bytes
  pub auth_token : Option Bytes
  pub file_hash : Bytes
  pub start : ℕ
  pub end : ℕ
  pub chunk_hash : Bytes
  pub max_retry : ℕ

unfoldable pub download_range_request :
    Build
    → (choose : List IndexerEndpoint → Option IndexerEndpoint) → SubfileDownloader
    → ChunkFileMeta
    → ℕ
    → Result DownloadRangeRequest
download_range_request build choose self meta i = do
  (operator, url) ←
      ok_or (choose self.indexer_urls)
        (data_unavilable (codes "No operator serving the file, data unavailable"))
  (start, end) ← chunk_range build meta.chunk_file i
  chunk_hash ← unwrap (get_elem? meta.chunk_file.chunk_hashes i)
  ok (record {
    query_endpoint = url ++ (codes "/subfiles/id/" ++ self.ipfs_hash);
    auth_token = self.free_query_auth_token;
    file_hash = meta.meta_info.hash;
    start = start;
    end = end;
    chunk_hash = chunk_hash;
    max_retry = self.chunk_max_retry;
  })

-- The GET request: its URL and the headers `file_hash`, `Content-Range` and `Authorization`.
pub record GetRequest : Type 0 where
  pub url : Bytes
  pub file_hash : Bytes
  pub content_range : Bytes
  pub authorization : Bytes

-- `status().is_success()`, the print of the status, `contains_key(CONTENT_RANGE)` and `bytes()`
pub record GetResponse : Type 0 where
  pub is_success : Bool
  pub status : Bytes
  pub has_content_range : Bool
  pub bytes : Io Bytes

-- `format!("bytes={}-{}", start, end)`
unfoldable pub range_header : ℕ → ℕ → Bytes
range_header start end = codes "bytes=" ++ decimal start ++ codes "-" ++ decimal end

-- `expect` panics without a token.
unfoldable pub get_request :
    (query_endpoint : Bytes) → Option Bytes → Bytes → ℕ → ℕ → Result GetRequest
unfolding range_header
get_request query_endpoint auth_token file_hash start end = do
  token ← unwrap auth_token
  ok (record {
    url = query_endpoint;
    file_hash = file_hash;
    content_range = range_header start end;
    authorization = token;
  })

unfoldable pub check_response : GetResponse → Result Bytes
check_response response =
    if response.is_success && response.has_content_range
    then map_err response.bytes request
    else err (
        invalid_range (
          codes "Server does not support range requests or the request failed: "
          ++ response.status))

unfoldable pub request_chunk :
    (send : GetRequest → Io GetResponse) → Bytes → Option Bytes → Bytes → ℕ → ℕ → Result Bytes
unfolding get_request check_response
request_chunk send query_endpoint auth_token file_hash start end = do
  req ← get_request query_endpoint auth_token file_hash start end
  response ← map_err (send req) request
  check_response response
