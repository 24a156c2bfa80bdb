-- ===== src/Command/Roles.antt =====
-- subfile-exchange/src/main.rs: a run of the program from its parsed arguments to its end. The log is
-- where a result goes.
use subfile_data_service.Prelude.{ℕ, Bytes, List, ◌≡◌}
use subfile_data_service.Errors.{Error}
use subfile_data_service.Rust.Result.{Result, ok, err, panic, Io, ◌>>=◌, expect}
use subfile_data_service.Rust.Words.{Build}
use subfile_data_service.Serde.{Serde}
use subfile_data_service.System.{FileSystem}
use subfile_data_service.Ipfs.{HttpClient, IpfsClient}
use subfile_data_service.Finder.{StatusReply}
use subfile_data_service.Subfile.Hasher.{Digest}
use subfile_data_service.Publisher.{PublisherArgs, publish}
use subfile_data_service.Ethereum.Crates.{Ethers, Json}
use subfile_data_service.Ethereum.Signer.{ReceiptSigner}
use subfile_data_service.Client.Targets.{SubfileDownloader}
use subfile_data_service.Client.Check.{Prints}
use subfile_data_service.Client.Constructor.{new_downloader}
use subfile_data_service.Client.DownloadSubfile.{World, ended, Moves, prepare, begin}
use subfile_data_service.Command.{
  DownloaderArgs, ServerArgs, Cli, downloader, publisher, server, Subscriber, init_tracing,
  log_format_text,
}
use subfile_data_service.Command.Start.{client_or_localhost}

-- `Cli::args`, after clap's parse
unfoldable pub args :
    {F32 : Type 0} → (set_global : Subscriber → Io (Unit {0})) → Cli F32 → Result (Cli F32)
args set_global config = do
  installed ← expect (init_tracing set_global (log_format_text config.log_format))
  ok config

-- The beginning of `main`: the arguments, and the client of IPFS.
unfoldable pub connect :
    {F32 : Type 0}
    → HttpClient
    → (set_global : Subscriber → Io (Unit {0})) → Cli F32
    → Result IpfsClient
unfolding args
connect http set_global parsed = do
  cli ← args set_global parsed
  client_or_localhost http cli.ipfs_gateway

-- What a run leaves: the hash or the error in the log, the output files of a download, or an abort.
pub data Ending : Type 0 where
  published_as : Bytes → Ending
  downloaded_to : World → Ending
  error_logged : Error → Ending
  referred : Ending
  aborted : Ending

-- What a machine gives to the program: its build, files and network.
pub record Machine : Type 0 where
  pub build : Build
  pub fs : FileSystem
  pub http : HttpClient
  pub http_get : Bytes → Io StatusReply
  pub set_global : Subscriber → Io (Unit {0})

-- `fuel` bounds the reads of one file; `print` is `{:#?}` of a list of errors.
module _ (serde : Serde) (ethers : Ethers) (json : Json) (d : Digest) (prints : Prints)
    (print : List Error → Bytes) (machine : Machine) (fuel : ℕ) where
  open machine use {build, fs, http, http_get, set_global}

  pub data Runs (cli : Cli serde.F32) : Ending → Type 0 where
    not_connected : connect http set_global cli ≡ panic → Runs cli aborted
    publisher_ran :
        (client : IpfsClient) (config : PublisherArgs) (hash : Bytes)
        → connect http set_global cli ≡ ok client
        → cli.role ≡ publisher config
        → publish serde build fs d fuel (record { ipfs_client = client; config = config }) ≡ ok hash
        → Runs cli (published_as hash)
    publisher_failed :
        (client : IpfsClient) (config : PublisherArgs) (e : Error)
        → connect http set_global cli ≡ ok client
        → cli.role ≡ publisher config
        → publish serde build fs d fuel (record { ipfs_client = client; config = config }) ≡ err e
        → Runs cli (error_logged e)
    publisher_aborted :
        (client : IpfsClient) (config : PublisherArgs)
        → connect http set_global cli ≡ ok client
        → cli.role ≡ publisher config
        → publish serde build fs d fuel (record { ipfs_client = client; config = config }) ≡ panic
        → Runs cli aborted
    not_constructed :
        (client : IpfsClient) (config : DownloaderArgs)
        → connect http set_global cli ≡ ok client
        → cli.role ≡ downloader config
        → new_downloader serde ethers json client config ≡ panic
        → Runs cli aborted
    not_prepared :
        (client : IpfsClient) (config : DownloaderArgs) (start : SubfileDownloader)
        (signer : ReceiptSigner ethers)
        → connect http set_global cli ≡ ok client
        → cli.role ≡ downloader config
        → new_downloader serde ethers json client config ≡ ok (start, signer)
        → prepare serde client http_get prints build start ≡ panic
        → Runs cli aborted
    downloader_ran :
        (client : IpfsClient) (config : DownloaderArgs) (start self : SubfileDownloader)
        (signer : ReceiptSigner ethers) (w : World)
        → connect http set_global cli ≡ ok client
        → cli.role ≡ downloader config
        → new_downloader serde ethers json client config ≡ ok (start, signer)
        → prepare serde client http_get prints build start ≡ ok self
        → Moves build d print self (begin self) (record { main = ended (ok tt); world = w })
        → Runs cli (downloaded_to w)
    downloader_failed :
        (client : IpfsClient) (config : DownloaderArgs) (start self : SubfileDownloader)
        (signer : ReceiptSigner ethers) (w : World) (e : Error)
        → connect http set_global cli ≡ ok client
        → cli.role ≡ downloader config
        → new_downloader serde ethers json client config ≡ ok (start, signer)
        → prepare serde client http_get prints build start ≡ ok self
        → Moves build d print self (begin self) (record { main = ended (err e); world = w })
        → Runs cli (error_logged e)
    downloader_aborted :
        (client : IpfsClient) (config : DownloaderArgs) (start self : SubfileDownloader)
        (signer : ReceiptSigner ethers) (w : World)
        → connect http set_global cli ≡ ok client
        → cli.role ≡ downloader config
        → new_downloader serde ethers json client config ≡ ok (start, signer)
        → prepare serde client http_get prints build start ≡ ok self
        → Moves build d print self (begin self) (record { main = ended panic; world = w })
        → Runs cli aborted
    -- "Use subfile-service crate"
    server_referred :
        (client : IpfsClient) (config : ServerArgs serde.F32)
        → connect http set_global cli ≡ ok client
        → cli.role ≡ server config
        → Runs cli referred
