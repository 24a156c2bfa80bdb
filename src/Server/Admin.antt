-- ===== src/Server/Admin.antt =====
-- subfile-service/src/subfile_server/admin.rs. A handler takes the state under its lock and returns
-- the answer with the state that it leaves behind.
pub mod Guarded
pub mod Effects
pub mod Listed
pub mod Removed
use subfile_data_service.Prelude.{
  Bytes, codes, ◌++◌, List, [], ◌∷◌, Option, none, some, Bool, true, false, not, bytes_eq,
  if◌then◌else◌,
}
use subfile_data_service.Errors.{
  Error, json_error, server_error, request_body_error, method_parse_error, to_string,
}
use subfile_data_service.Rust.Result.{
  Result, ok, err, panic, out_of_fuel, Io, done, failed, ◌>>=◌, map_err, ok_or,
}
use subfile_data_service.Serde.{Serde}
use subfile_data_service.HashMap.{HashMap, insert, remove}
use subfile_data_service.Http.{
  StatusCode, Request, Response, respond, authorization, unauthorized, bad_request,
  method_not_allowed,
}
use subfile_data_service.Ipfs.{is_valid_ipfs_hash}
use subfile_data_service.Ipfs.Fetch.{read_subfile}
use subfile_data_service.Subfile.Types.{Subfile}
use subfile_data_service.Subfile.ChunkFiles.{validate_local_subfile}
use subfile_data_service.Subfile.Entries.{validate_subfile_entries}
use subfile_data_service.Server.State.{Host, ServerState, create_error_response}
use subfile_data_service.Server.Routes.{header_text, token_matches}

module _ (serde : Serde) where
  open serde use {
    JsonValue, F32, json_from_slice, json_get, json_as_str, json_to_strings, json_of_subfiles,
    json_to_f32,
  }

  abbrev pub State : Type 0
  State = ServerState serde

  abbrev pub Step : Type 0
  Step = Result Response × State

  -- `return Ok(create_error_response(&msg, StatusCode::BAD_REQUEST))`
  abbrev pub refuse : Bytes → State → Step
  refuse msg s = (ok (create_error_response serde msg bad_request), s)

  -- `match call { Ok(v) => v, Err(e) => return Ok(create_error_response(..)) }`
  abbrev pub or_refuse : {A : Type 0} → Result A → State → (A → Step) → Step
  or_refuse (ok a) s rest = rest a
  or_refuse (err e) s rest = refuse (to_string e) s
  or_refuse panic s rest = (panic, s)
  or_refuse out_of_fuel s rest = (out_of_fuel, s)

  unfoldable pub parse_admin_request : Request → Result (Bytes × Option JsonValue)
  parse_admin_request req = do
    body_bytes ← map_err req.body (λ e. server_error (request_body_error e))
    json ← map_err (json_from_slice body_bytes) json_error
    method ←
        ok_or (elim (json_get (codes "method") json) [ none ↦ none | some m ↦ json_as_str m ])
          (server_error (method_parse_error (codes "Method not found in request")))
    ok (method, json_get (codes "params") json)

  unfoldable pub get_subfiles : State → Step
  get_subfiles s =
      or_refuse (map_err (json_of_subfiles s.subfiles) json_error) s
        λ body. (ok (respond StatusCode.ok body), s)

  -- The loop of `add_subfile`; an entry that fails leaves the entries before it in the state.
  unfoldable pub add_entries : Host → List (Bytes × Bytes) → State → Step
  add_entries host [] s = (ok (respond StatusCode.ok (codes "Subfile(s) added successfully")), s)
  add_entries host ((ipfs_hash, local_path) ∷ entries) s =
      or_refuse (read_subfile serde s.client ipfs_hash local_path) s λ subfile.
        or_refuse (validate_local_subfile host.build host.fs host.digest subfile) s λ _.
          add_entries host entries
            (record s { subfiles = insert subfile.ipfs_hash subfile s.subfiles })

  unfoldable pub add_subfile : Host → Option JsonValue → State → Step
  add_subfile host none s = refuse (codes "Missing params") s
  add_subfile host (some params) s = elim (json_to_strings params) [
    | failed e ↦ (err (json_error e), s)
    | done entries ↦
        or_refuse (validate_subfile_entries host.fs entries) s
          λ subfile_entries. add_entries host subfile_entries s
  ]

  -- The first hash that is not valid.
  unfoldable pub find_invalid : List Bytes → Option Bytes
  find_invalid [] = none
  find_invalid (ipfs_hash ∷ ipfs_hashes) =
      if not (is_valid_ipfs_hash ipfs_hash) then some ipfs_hash else find_invalid ipfs_hashes

  unfoldable pub remove_all : List Bytes → HashMap Subfile → HashMap Subfile
  remove_all [] subfiles = subfiles
  remove_all (ipfs_hash ∷ ipfs_hashes) subfiles = remove_all ipfs_hashes (remove ipfs_hash subfiles)

  unfoldable pub remove_subfile : Option JsonValue → State → Step
  unfolding find_invalid
  remove_subfile none s = refuse (codes "Missing params") s
  remove_subfile (some params) s =
      or_refuse (map_err (json_to_strings params) json_error) s λ ipfs_hashes.
        elim (find_invalid ipfs_hashes) [
          | some ipfs_hash ↦ refuse (codes "Invalid IPFS hash: " ++ ipfs_hash) s
          | none ↦ (
            ok (respond StatusCode.ok (codes "Subfile(s) removed successfully")),
            record s { subfiles = remove_all ipfs_hashes s.subfiles },
          )
        ]

  unfoldable pub update_price_per_byte : Option JsonValue → State → Step
  update_price_per_byte none s = refuse (codes "Missing params") s
  update_price_per_byte (some params) s = elim (json_to_f32 params) [
    | failed e ↦ refuse e s
    | done new_price ↦ (
      ok (respond StatusCode.ok (codes "Price successfully updated")),
      record s { price_per_byte = new_price },
    )
  ]

  -- The methods of an admin request, by name.
  unfoldable pub dispatch : Host → Bytes → Option JsonValue → State → Step
  dispatch host method params s =
      if bytes_eq method (codes "get_subfiles")
      then get_subfiles s
      else if bytes_eq method (codes "add_subfile")
      then add_subfile host params s
      else if bytes_eq method (codes "remove_subfile")
      then remove_subfile params s
      else if bytes_eq method (codes "update_price_per_byte")
      then update_price_per_byte params s
      else (ok (respond method_not_allowed (codes "Method not supported")), s)

  unfoldable pub handle_admin_request : Host → Request → State → Step
  handle_admin_request host req s =
      if not (token_matches s.admin_auth_token (header_text (req.header authorization)))
      then (ok (respond unauthorized (codes "Require admin authentication")), s)
      else or_refuse (parse_admin_request req) s λ r. dispatch host r.0 r.1 s
