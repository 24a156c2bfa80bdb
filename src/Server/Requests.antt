-- ===== src/Server/Requests.antt =====
-- subfile-service/src/subfile_server/mod.rs: start-up and the dispatch of requests.
pub mod Safety
use subfile_data_service.Prelude.{
  Bytes, codes, ◌++◌, List, [], ◌∷◌, Option, none, some, bytes_eq, starts_with, if◌then◌else◌,
}
use subfile_data_service.Rust.Result.{Result, ok, err, panic, out_of_fuel, Io, expect, ◌>>=◌, ◌>>◌}
use subfile_data_service.Serde.{Serde}
use subfile_data_service.HashMap.{HashMap, insert}
use subfile_data_service.Http.{StatusCode, Request, Response, respond, not_found}
use subfile_data_service.Ipfs.{IpfsClient}
use subfile_data_service.Ipfs.Fetch.{read_subfile}
use subfile_data_service.Subfile.Types.{Subfile}
use subfile_data_service.Subfile.ChunkFiles.{validate_local_subfile}
use subfile_data_service.Subfile.Entries.{validate_subfile_entries}
use subfile_data_service.Server.State.{Host, PackageVersion, ServerState}
use subfile_data_service.Server.Routes.{
  health, version, cost, status, operator_info, file_service, subfiles_route,
}
use subfile_data_service.Server.Admin.{handle_admin_request}

-- The fields of `ServerArgs` that the start-up reads; clap fills them.
pub record ServerArgs (serde : Serde) : Type 0 where
  pub subfiles : List Bytes
  pub free_query_auth_token : Option Bytes
  pub admin_auth_token : Option Bytes
  pub mnemonic : Bytes
  pub price_per_byte : serde.F32

module _ (serde : Serde) (host : Host) where
  -- `let _ = result;`: an error is dropped, a panic is not.
  abbrev pub ignore : {A : Type 0} → Result A → Result (Unit {0})
  ignore (ok a) = ok tt
  ignore (err e) = ok tt
  ignore panic = panic
  ignore out_of_fuel = out_of_fuel

  -- The loop of the start-up over the validated entries.
  unfoldable pub load_subfiles :
      IpfsClient → List (Bytes × Bytes) → HashMap Subfile → Result (HashMap Subfile)
  load_subfiles client [] subfiles = ok subfiles
  load_subfiles client ((ipfs_hash, local_path) ∷ entries) subfiles = do
    subfile ← read_subfile serde client ipfs_hash local_path
    ignore (validate_local_subfile host.build host.fs host.digest subfile)
    load_subfiles client entries (insert subfile.ipfs_hash subfile subfiles)

  abbrev pub bearer : Option Bytes → Option Bytes
  bearer none = none
  bearer (some token) = some (codes "Bearer " ++ token)

  -- `public_key` resolves the wallet's address from the mnemonic, with the crate `ethers`; `release`
  -- is what the build recorded.
  unfoldable pub initialize_subfile_server_context :
      (public_key : Bytes → Io Bytes) (release : PackageVersion)
      → IpfsClient
      → ServerArgs serde
      → Result (ServerState serde)
  initialize_subfile_server_context public_key release client config = do
    subfile_entries ← validate_subfile_entries host.fs config.subfiles
    operator_public_key ← expect (public_key config.mnemonic)
    subfiles ← load_subfiles client subfile_entries []
    ok (record {
      client = client;
      operator_public_key = operator_public_key;
      subfiles = subfiles;
      release = release;
      free_query_auth_token = bearer config.free_query_auth_token;
      admin_auth_token = bearer config.admin_auth_token;
      price_per_byte = config.price_per_byte;
    })

  unfoldable pub handle_request : Request → ServerState serde → Result Response × ServerState serde
  handle_request req s =
      if bytes_eq req.path (codes "/")
      then (ok (respond StatusCode.ok (codes "Ready to roll!")), s)
      else if bytes_eq req.path (codes "/operator")
      then (operator_info serde s, s)
      else if bytes_eq req.path (codes "/status")
      then (status serde s, s)
      else if bytes_eq req.path (codes "/health")
      then (health serde, s)
      else if bytes_eq req.path (codes "/version")
      then (version serde s, s)
      else if bytes_eq req.path (codes "/cost")
      then (cost serde s, s)
      else if bytes_eq req.path (codes "/admin")
      then handle_admin_request serde host req s
      else if starts_with subfiles_route req.path
      then (file_service serde host req.path req s, s)
      else (ok (respond not_found (codes "Route not found")), s)
