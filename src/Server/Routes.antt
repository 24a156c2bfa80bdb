-- ===== src/Server/Routes.antt =====
-- subfile-service/src/subfile_server/routes.rs
use subfile_data_service.Prelude.{
  Bytes, codes, List, [], ◌∷◌, Option, none, some, Bool, true, false, not, bytes_eq, if◌then◌else◌,
  strip_prefix,
}
use subfile_data_service.Errors.{json_error}
use subfile_data_service.Rust.Result.{Result, ok, Io, done, failed, ◌>>=◌, map_err}
use subfile_data_service.Serde.{Serde}
use subfile_data_service.HashMap.{get, keys}
use subfile_data_service.Http.{
  StatusCode, Request, Response, respond, authorization, content_range, file_hash, unauthorized,
  not_found, not_acceptable,
}
use subfile_data_service.Subfile.Types.{ChunkFileMeta, Subfile}
use subfile_data_service.Subfile.ChunkFiles.{push}
use subfile_data_service.Server.State.{Host, ServerState}
use subfile_data_service.Server.Range.{parse_range_header, serve_file_range, serve_file}

module _ (serde : Serde) where
  open serde use {json_of_health, json_of_strings, json_of_operator, f32_to_string}

  unfoldable pub health : Result Response
  health = do
    health_json ← map_err (json_of_health true) json_error
    ok (respond StatusCode.ok health_json)

  unfoldable pub version : ServerState serde → Result Response
  version s = ok (respond StatusCode.ok s.release.version)

  unfoldable pub cost : ServerState serde → Result Response
  cost s = ok (respond StatusCode.ok (f32_to_string s.price_per_byte))

  unfoldable pub status : ServerState serde → Result Response
  status s = do
    json ← map_err (json_of_strings (keys s.subfiles)) json_error
    ok (respond StatusCode.ok json)

  unfoldable pub operator_info : ServerState serde → Result Response
  operator_info s = do
    json ← map_err (json_of_operator s.operator_public_key) json_error
    ok (respond StatusCode.ok json)

-- `headers().get(..).and_then(|t| t.to_str().ok())`
unfoldable pub header_text : Option (Io Bytes) → Option Bytes
header_text none = none
header_text (some (failed e)) = none
header_text (some (done text)) = some text

-- No token is configured, or the request carries the configured one. The tests of `free` in
-- `file_service` and of `authorized` in `handle_admin_request` are written alike.
unfoldable pub token_matches : (server_token auth_token : Option Bytes) → Bool
token_matches none auth_token = true
token_matches (some token) none = false
token_matches (some token) (some auth) = bytes_eq auth token

-- `trim_start_matches` takes the prefix away as often as it stands there; so many rounds as the text
-- has bytes are enough for a prefix that is not empty.
trim_go : Bytes → Bytes → Bytes → Bytes
trim_go prefix [] s = s
trim_go prefix (_ ∷ fuel) s = elim (strip_prefix prefix s) [
  | none ↦ s
  | some rest ↦ trim_go prefix fuel rest
]

unfoldable pub trim_start_matches : Bytes → Bytes → Bytes
unfolding trim_go strip_prefix
trim_start_matches prefix s = trim_go prefix s s

abbrev pub subfiles_route : Bytes
subfiles_route = codes "/subfiles/id/"

-- `chunk_files.iter().find(|file| file.meta_info.hash == hash)`
unfoldable pub find_chunk_file : Bytes → List ChunkFileMeta → Option ChunkFileMeta
find_chunk_file hash [] = none
find_chunk_file hash (file ∷ files) =
    if bytes_eq file.meta_info.hash hash then some file else find_chunk_file hash files

-- The answer once the file is known: a part, or the whole file without the header.
unfoldable pub serve_chunk_file : Host → Bytes → Option (Io Bytes) → Result Response
serve_chunk_file host file_path none = serve_file host file_path
serve_chunk_file host file_path (some r) = do
  range ← parse_range_header r
  serve_file_range host file_path range

unfoldable pub serve_from_subfile : Host → Request → Subfile → Option Bytes → Result Response
unfolding serve_chunk_file
serve_from_subfile host req subfile none =
    ok (respond not_acceptable (codes "Missing required chunk_file_hash header"))
serve_from_subfile host req subfile (some hash) = elim (find_chunk_file hash subfile.chunk_files) [
  | none ↦ ok (respond not_found (codes "Chunk file not found"))
  | some chunk_file ↦
      serve_chunk_file host (push subfile.local_path chunk_file.meta_info.name)
        (req.header content_range)
]

unfoldable pub file_service :
    (serde : Serde) → Host → Bytes → Request → ServerState serde → Result Response
unfolding serve_from_subfile header_text token_matches
file_service serde host path req s =
    if not (token_matches s.free_query_auth_token (header_text (req.header authorization)))
    then ok (
        respond unauthorized
          (codes "Paid service is not implemented, need free query authentication"))
    else elim (get (trim_start_matches subfiles_route path) s.subfiles) [
      | none ↦ ok (respond not_found (codes "Subfile not found"))
      | some subfile ↦ serve_from_subfile host req subfile (header_text (req.header file_hash))
    ]
