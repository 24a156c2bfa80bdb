-- ===== src/Command/Start.antt =====
-- What the two programs make before they run: the IPFS client, and the server's address and state.
use subfile_data_service.Prelude.{Bytes, codes, ◌++◌, ◌≡◌}
use subfile_data_service.Rust.Result.{
  Result, ok, err, panic, out_of_fuel, Io, done, failed, ◌>>=◌, expect,
}
use subfile_data_service.Rust.Decimal.{decimal}
use subfile_data_service.Serde.{Serde}
use subfile_data_service.Ipfs.{HttpClient, IpfsClient, new, localhost}
use subfile_data_service.Server.State.{Host, PackageVersion, ServerState}
use subfile_data_service.Server.Requests.{initialize_subfile_server_context}
use subfile_data_service.Command.{ServerArgs}

-- `expect` on a result of the program
abbrev pub expect_ok : {A : Type 0} → Result A → Result A
expect_ok (ok a) = ok a
expect_ok (err e) = panic
expect_ok panic = panic
expect_ok out_of_fuel = out_of_fuel

pub expect_ok-eq-ok : {A : Type 0} {a : A} (r : Result A) → expect_ok r ≡ ok a → r ≡ ok a
expect_ok-eq-ok (ok b) e = e
expect_ok-eq-ok (err x) e = absurd cc
expect_ok-eq-ok panic e = absurd cc
expect_ok-eq-ok out_of_fuel e = absurd cc

-- A gateway that is no URI is replaced by the local node.
unfoldable pub client_or_localhost : HttpClient → Bytes → Result IpfsClient
client_or_localhost http ipfs_gateway = elim (new http ipfs_gateway) [
  | done client ↦ ok client
  | failed e ↦ localhost http
]

module _ (serde : Serde) (host : Host) (SocketAddr : Type 0)
    (parse_addr : Bytes → Io SocketAddr) where
  -- `init_server` up to the socket: its address, and the state that the handlers share.
  unfoldable pub start_server :
      (public_key : Bytes → Io Bytes) (release : PackageVersion)
      → HttpClient
      → (ipfs_gateway : Bytes) → ServerArgs serde.F32
      → Result (SocketAddr × ServerState serde)
  unfolding client_or_localhost
  start_server public_key release http ipfs_gateway config = do
    client ← client_or_localhost http ipfs_gateway
    addr ← expect (parse_addr (config.host ++ (codes ":" ++ decimal config.port)))
    state ← expect_ok (
        initialize_subfile_server_context serde host public_key release client (record {
          subfiles = config.subfiles;
          free_query_auth_token = config.free_query_auth_token;
          admin_auth_token = config.admin_auth_token;
          mnemonic = config.mnemonic;
          price_per_byte = config.price_per_byte;
        }))
    ok (addr, state)
