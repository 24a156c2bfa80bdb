-- ===== src/Command.antt =====
-- The command line: subfile-exchange/src/config.rs and main.rs, and `init_server` of
-- subfile-service/src/subfile_server/mod.rs up to the socket. clap fills the arguments.
pub mod Start
pub mod Roles
pub mod Service
use subfile_data_service.Prelude.{ℕ, Bytes, codes, bytes_eq, List, Option, if◌then◌else◌}
use subfile_data_service.Rust.Result.{Io}
use subfile_data_service.Publisher.{PublisherArgs}

pub record DownloaderArgs : Type 0 where
  pub ipfs_hash : Bytes
  pub gateway_url : Option Bytes
  pub mnemonic : Bytes
  pub provider : Bytes
  pub chain_id : ℕ
  pub verifier : Bytes
  pub indexer_endpoints : List Bytes
  pub output_dir : Bytes
  pub free_query_auth_token : Option Bytes
  pub max_retry : ℕ

-- `F32` is the type of the price.
pub record ServerArgs (F32 : Type 0) : Type 0 where
  pub host : Bytes
  pub port : ℕ
  pub subfiles : List Bytes
  pub free_query_auth_token : Option Bytes
  pub admin_auth_token : Option Bytes
  pub mnemonic : Bytes
  pub price_per_byte : F32

pub data Role (F32 : Type 0) : Type 0 where
  downloader : DownloaderArgs → Role F32
  publisher : PublisherArgs → Role F32
  server : ServerArgs F32 → Role F32

pub data LogFormat : Type 0 where
  compact : LogFormat
  pretty : LogFormat
  json : LogFormat
  full : LogFormat

pub record Cli (F32 : Type 0) : Type 0 where
  pub role : Role F32
  pub ipfs_gateway : Bytes
  pub log_format : LogFormat

-- `Display` of a log format
unfoldable pub log_format_text : LogFormat → Bytes
log_format_text compact = codes "compact"
log_format_text pretty = codes "pretty"
log_format_text json = codes "json"
log_format_text full = codes "full"

-- The subscribers that `init_tracing` installs: each line's layout.
pub data Subscriber : Type 0 where
  json_lines : Subscriber
  plain_lines : Subscriber
  compact_lines : Subscriber
  pretty_ansi : Subscriber

-- `set_global` is `tracing::subscriber::set_global_default`.
unfoldable pub init_tracing : (set_global : Subscriber → Io (Unit {0})) → Bytes → Io (Unit {0})
init_tracing set_global format =
    if bytes_eq format (codes "json")
    then set_global json_lines
    else if bytes_eq format (codes "full")
    then set_global plain_lines
    else if bytes_eq format (codes "compact")
    then set_global compact_lines
    else set_global pretty_ansi
