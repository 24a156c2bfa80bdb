-- ===== src/Command/Service.antt =====
-- The command line of the service: subfile-service/src/config.rs and main.rs. Its log formats are those
-- of the exchange.
use subfile_data_service.Prelude.{Bytes}
use subfile_data_service.Rust.Result.{Result, ok, Io, ◌>>=◌, expect}
use subfile_data_service.Serde.{Serde}
use subfile_data_service.Ipfs.{HttpClient}
use subfile_data_service.Server.State.{Host, PackageVersion, ServerState}
use subfile_data_service.Command.{ServerArgs, LogFormat, Subscriber, init_tracing, log_format_text}
use subfile_data_service.Command.Start.{start_server}

pub record Config (F32 : Type 0) : Type 0 where
  pub server : ServerArgs F32
  pub ipfs_gateway : Bytes
  pub log_format : LogFormat

-- `Config::args`, after clap's parse
unfoldable config_args :
    {F32 : Type 0} → (set_global : Subscriber → Io (Unit {0})) → Config F32 → Result (Config F32)
config_args set_global config = do
  installed ← expect (init_tracing set_global (log_format_text config.log_format))
  ok config

module _ (serde : Serde) (host : Host) (SocketAddr : Type 0)
    (parse_addr : Bytes → Io SocketAddr) where
  -- `main`, up to the socket.
  unfoldable start_service :
      (set_global : Subscriber → Io (Unit {0})) (public_key : Bytes → Io Bytes)
      (release : PackageVersion)
      → HttpClient
      → Config serde.F32
      → Result (SocketAddr × ServerState serde)
  unfolding config_args
  start_service set_global public_key release http parsed = do
    config ← config_args set_global parsed
    start_server serde host SocketAddr parse_addr public_key release http config.ipfs_gateway
        config.server
