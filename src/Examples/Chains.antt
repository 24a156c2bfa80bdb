-- ===== src/Examples/Chains.antt =====
-- A file of contract addresses with one chain and one contract.
use subfile_data_service.Prelude.{
  ℕ, zero, suc, Bytes, codes, bytes_eq, List, [], ◌∷◌, Option, none, some, ◌≡◌, refl, get_elem?,
}
use subfile_data_service.Rust.Result.{panic, done}
use subfile_data_service.HashMap.{get, insert}
use subfile_data_service.Command.{DownloaderArgs}
use subfile_data_service.Client.Constructor.{new_downloader, new_downloader-unknown_chain}
use subfile_data_service.Ethereum.Crates.{Ethers, Json, Receipt}
use subfile_data_service.Ethereum.Wallets.{build_wallet}
use subfile_data_service.Ethereum.Transactions.{
  address_of, contracts_of, insert_addresses, addresses_in, network_contract_addresses,
}
use subfile_data_service.Ethereum.Addresses.{IsListed, network_contract_addresses-exact}
use subfile_data_service.Examples.World.{ipfs_example}
use subfile_data_service.Examples.Wire.{serde_example}
use subfile_data_service.Examples.Downloading.{six_hash, subfile_read, subfile_read-ok}

abbrev pub ethers_example : Ethers
ethers_example = record {
  Wallet = Unit {0};
  SecretKey = Unit {0};
  Address = Bytes;
  H160 = Bytes;
  TapReceipt = Receipt Bytes;
  Provider = Bytes;
  parse_wallet = λ s. done tt;
  phrase_wallet = λ s. done tt;
  debug_address = λ w. [];
  secret_key = λ w. done tt;
  wallet_of = λ k. done tt;
  address_from_str = λ s. done s;
  h160_from_str = λ s. done s;
  sign = λ domain receipt wallet. done receipt;
  message = λ r. r;
  receipt_to_string = λ r. done [];
  provider = λ url. done url;
  get_chainid = λ provider. done provider;
  controller_call = λ provider wallet a. done a;
}

-- A value is its depth in the file.
unfoldable pub object_at : ℕ → Option (List (Bytes × ℕ))
object_at zero = some ((codes "10", 1) ∷ [])
object_at (suc zero) = some ((codes "L2Staking", 2) ∷ [])
object_at (suc (suc zero)) = some ((codes "address", 3) ∷ [])
object_at (suc (suc (suc n))) = none

unfoldable pub text_at : ℕ → Option Bytes
text_at zero = none
text_at (suc n) = some (codes "0xab")

unfoldable pub json_example : Json
unfolding object_at text_at
json_example = record {
  Value = ℕ;
  read_to_string = λ path. done path;
  from_str = λ text. done 0;
  as_object = object_at;
  as_string = text_at;
}

unfoldable root_value : json_example.Value
unfolding json_example
root_value = 0

unfoldable chain_contracts : List (Bytes × json_example.Value)
unfolding json_example
chain_contracts = (codes "L2Staking", 2) ∷ []

abbrev found_addresses : List (Bytes × Bytes)
found_addresses = (codes "L2Staking", codes "0xab") ∷ []

opened : json_example.read_to_string (codes "addresses.json") ≡ done (codes "addresses.json")
unfolding json_example
opened = refl

parsed : json_example.from_str (codes "addresses.json") ≡ done root_value
unfolding json_example root_value
parsed = refl

on_chain : contracts_of ethers_example json_example root_value (codes "10") ≡ some chain_contracts
unfolding contracts_of json_example root_value chain_contracts object_at get bytes_eq
on_chain = refl

off_chain : contracts_of ethers_example json_example root_value (codes "1") ≡ none
unfolding contracts_of json_example root_value object_at get bytes_eq
off_chain = refl

addresses-ok :
    network_contract_addresses ethers_example json_example (codes "addresses.json") (codes "10")
    ≡ done found_addresses
unfolding network_contract_addresses addresses_in insert_addresses contracts_of address_of
    json_example object_at text_at get insert bytes_eq
addresses-ok = refl

network_contract_addresses-exact_example :
    ((name a : Bytes)
      → get name found_addresses ≡ some a
      → IsListed ethers_example json_example chain_contracts name a)
    × ((k : ℕ) (name : Bytes) (info : json_example.Value) (address : Bytes)
        → get_elem? chain_contracts k ≡ some (name, info)
        → address_of ethers_example json_example info ≡ some address
        → (a : Bytes) × (get name found_addresses ≡ some a))
network_contract_addresses-exact_example =
    network_contract_addresses-exact ethers_example json_example (codes "addresses.json")
      (codes "10") (codes "addresses.json") root_value chain_contracts found_addresses opened parsed
      on_chain addresses-ok

abbrev unknown_args : DownloaderArgs
unknown_args = record {
  ipfs_hash = six_hash;
  gateway_url = none;
  mnemonic = codes "test";
  provider = codes "1";
  chain_id = 1;
  verifier = codes "0x00";
  indexer_endpoints = [];
  output_dir = codes "/out";
  free_query_auth_token = none;
  max_retry = 1;
}

wallet-built : build_wallet ethers_example (codes "test") ≡ done tt
unfolding build_wallet
wallet-built = refl

new_downloader-unknown_chain_example :
    new_downloader serde_example ethers_example json_example ipfs_example unknown_args ≡ panic
new_downloader-unknown_chain_example =
    new_downloader-unknown_chain serde_example ethers_example json_example ipfs_example unknown_args
      subfile_read tt tt (codes "0x00") (codes "1") (codes "1") (codes "addresses.json") root_value
      subfile_read-ok wallet-built refl refl refl refl opened parsed off_chain
