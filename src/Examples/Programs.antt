-- ===== src/Examples/Programs.antt =====
-- The publisher's run and the downloader's, with a file of one chunk.
use subfile_data_service.Prelude.{
  ℕ, zero, suc, Bytes, codes, bytes_eq, [], ◌∷◌, some, none, ◌≡◌, refl, get_elem?, arith,
}
use subfile_data_service.HashMap.{get, insert}
use subfile_data_service.Rust.Result.{ok, done}
use subfile_data_service.Rust.Words.{debug}
use subfile_data_service.Ipfs.{new}
use subfile_data_service.Command.{
  DownloaderArgs, Cli, downloader, publisher, pretty, init_tracing, log_format_text,
}
use subfile_data_service.Command.Start.{client_or_localhost}
use subfile_data_service.Command.Roles.{Machine, args, connect, publisher_ran, downloader_ran}
use subfile_data_service.Ethereum.Wallets.{build_wallet}
use subfile_data_service.Ethereum.Signer.{new as new_signer}
use subfile_data_service.Ethereum.Transactions.{
  address_of, contracts_of, insert_addresses, addresses_in, network_contract_addresses, controller,
  new as new_manager,
}
use subfile_data_service.Client.Constructor.{new_downloader, logged}
use subfile_data_service.Exchange.Programs.{published-downloaded}
use subfile_data_service.Examples.World.{plain, plain-CollisionFree, five, disk, ipfs_example}
use subfile_data_service.Examples.Wire.{serde_example, serde_example-RoundTrips}
use subfile_data_service.Examples.Publishing.{ipfs_example-Keeps}
use subfile_data_service.Examples.Finding.{prints_example}
use subfile_data_service.Examples.Chains.{ethers_example, json_example, object_at, text_at}
use subfile_data_service.Examples.Downloading.{
  publisher_six, publisher_six-ok, six_hash, start, get_six, prepared, prepared-ok, run, only_name,
  world_finished, subfile_read-ok,
}

abbrev machine : Machine
machine = record {
  build = debug;
  fs = disk five;
  http = ipfs_example.client;
  http_get = get_six;
  set_global = λ s. done tt;
}

abbrev publisher_cli : Cli (serde_example.F32)
publisher_cli = record {
  role = publisher (publisher_six.config);
  ipfs_gateway = [];
  log_format = pretty;
}

abbrev download_args : DownloaderArgs
download_args = record {
  ipfs_hash = six_hash;
  gateway_url = none;
  mnemonic = codes "test";
  provider = codes "10";
  chain_id = 10;
  verifier = codes "0x00";
  indexer_endpoints = codes "http://localhost" ∷ [];
  output_dir = codes "/out";
  free_query_auth_token = start.free_query_auth_token;
  max_retry = start.chunk_max_retry;
}

abbrev downloader_cli : Cli (serde_example.F32)
downloader_cli = record { role = downloader download_args; ipfs_gateway = []; log_format = pretty }

publisher_connected : connect (machine.http) (machine.set_global) publisher_cli ≡ ok ipfs_example
unfolding connect args init_tracing log_format_text client_or_localhost new ipfs_example bytes_eq
publisher_connected = refl

downloader_connected : connect (machine.http) (machine.set_global) downloader_cli ≡ ok ipfs_example
unfolding connect args init_tracing log_format_text client_or_localhost new ipfs_example bytes_eq
downloader_connected = refl

downloader_made :
    new_downloader serde_example ethers_example json_example ipfs_example download_args
    ≡ ok (start, new_signer ethers_example tt 10 (codes "0x00"))
unfolding new_downloader logged build_wallet new_manager network_contract_addresses addresses_in
    insert_addresses contracts_of address_of controller json_example object_at text_at get insert
    bytes_eq new_signer
downloader_made = rw subfile_read-ok refl

one_file :
    (j k : ℕ) (a b : Bytes)
    → get_elem? (publisher_six.config.file_names) j ≡ some a
    → get_elem? (publisher_six.config.file_names) k ≡ some b
    → five ≡ five
    → j ≡ k
one_file zero zero a b f g same = refl
one_file zero (suc k) a b f g same = absurd cc
one_file (suc j) k a b f g same = absurd cc

published-downloaded_example : get (codes "/out/f") (world_finished.outputs) ≡ some five
published-downloaded_example =
    published-downloaded serde_example serde_example-RoundTrips ethers_example json_example plain
      plain-CollisionFree prints_example (λ es. []) ipfs_example ipfs_example-Keeps machine machine
      3 3 (publisher_six.config) (omega arith) (omega arith) (λ name. five) only_name one_file
      publisher_cli downloader_cli download_args world_finished publisher_connected
      downloader_connected refl refl
      (publisher_ran ipfs_example (publisher_six.config) six_hash publisher_connected refl
        publisher_six-ok)
      (downloader_ran ipfs_example download_args start prepared
        (new_signer ethers_example tt 10 (codes "0x00")) world_finished downloader_connected refl
        downloader_made prepared-ok run)
      0 (codes "f") refl
