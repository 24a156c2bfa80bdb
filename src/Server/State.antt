-- ===== src/Server/State.antt =====
-- The state of subfile-service/src/subfile_server/mod.rs, and what surrounds it.
use subfile_data_service.Prelude.{Bytes, Option}
use subfile_data_service.Rust.Words.{Build}
use subfile_data_service.Serde.{Serde}
use subfile_data_service.System.{FileSystem}
use subfile_data_service.HashMap.{HashMap}
use subfile_data_service.Http.{StatusCode, Response, respond}
use subfile_data_service.Ipfs.{IpfsClient}
use subfile_data_service.Subfile.Hasher.{Digest}
use subfile_data_service.Subfile.Types.{Subfile}

-- The process: its build, its files, its hash functions, and the print `{:#?}` of a text.
pub record Host : Type 0 where
  pub build : Build
  pub fs : FileSystem
  pub digest : Digest
  pub debug_str : Bytes → Bytes

pub record PackageVersion : Type 0 where
  pub version : Bytes
  pub dependencies : HashMap Bytes

module _ (serde : Serde) where
  open serde use {F32, json_of_error}

  pub record ServerState : Type 0 where
    pub client : IpfsClient
    pub operator_public_key : Bytes
    pub subfiles : HashMap Subfile
    pub release : PackageVersion
    pub free_query_auth_token : Option Bytes
    pub admin_auth_token : Option Bytes
    pub price_per_byte : F32

  unfoldable pub create_error_response : Bytes → StatusCode → Response
  create_error_response msg status_code = respond status_code (json_of_error msg)
