-- ===== src/Ethereum/Transactions.antt =====
-- subfile-exchange/src/transaction_manager/mod.rs
use subfile_data_service.Prelude.{Bytes, codes, List, [], ◌∷◌, Option, none, some}
use subfile_data_service.Errors.{contract_error, to_string}
use subfile_data_service.Rust.Result.{
  Result, ok, err, panic, out_of_fuel, Io, done, failed, map_err,
}
use subfile_data_service.HashMap.{HashMap, get, insert}
use subfile_data_service.Ethereum.Crates.{Ethers, Json}

-- `Result<_, anyhow::Error>`, of a function that may panic
pub data Outcome (A : Type 0) : Type 0 where
  returned : A → Outcome A
  errored : Bytes → Outcome A
  panicked : Outcome A

-- `?` on a result, before the calls that are left
abbrev pub try : {A B : Type 0} → Io A → (A → Outcome B) → Outcome B
try (done a) rest = rest a
try (failed e) rest = errored e

-- and on one whose error is the program's
abbrev pub try_own : {A B : Type 0} → Result A → (A → Outcome B) → Outcome B
try_own (ok a) rest = rest a
try_own (err e) rest = errored (to_string e)
try_own panic rest = panicked
try_own out_of_fuel rest = panicked

module _ (ethers : Ethers) (json : Json) where
  abbrev pub ContractAddresses : Type 0
  ContractAddresses = HashMap ethers.H160

  -- `if let Value::Object(info_map) = info { if let Some(Value::String(address)) = info_map.get("address") }`
  unfoldable pub address_of : json.Value → Option Bytes
  address_of info = elim (json.as_object info) [
    | none ↦ none
    | some info_map ↦ elim (get (codes "address") info_map) [
      | none ↦ none
      | some v ↦ json.as_string v
    ]
  ]

  -- The contracts of a chain.
  unfoldable pub contracts_of : json.Value → Bytes → Option (List (Bytes × json.Value))
  contracts_of json_value chain_id = elim (json.as_object json_value) [
    | none ↦ none
    | some chains ↦ elim (get chain_id chains) [
      | none ↦ none
      | some contracts ↦ json.as_object contracts
    ]
  ]

  unfoldable pub insert_addresses :
      List (Bytes × json.Value) → ContractAddresses → Io ContractAddresses
  insert_addresses [] network_contracts = done network_contracts
  insert_addresses ((contract_name, info) ∷ contracts) network_contracts = elim (address_of info) [
    | none ↦ insert_addresses contracts network_contracts
    | some address ↦ elim (ethers.h160_from_str address) [
      | failed e ↦ failed e
      | done parsed ↦ insert_addresses contracts (insert contract_name parsed network_contracts)
    ]
  ]

  unfoldable pub addresses_in : json.Value → Bytes → Io ContractAddresses
  addresses_in json_value chain_id = elim (contracts_of json_value chain_id) [
    | none ↦ done []
    | some contracts ↦ insert_addresses contracts []
  ]

  unfoldable pub network_contract_addresses : (file_path chain_id : Bytes) → Io ContractAddresses
  network_contract_addresses file_path chain_id = elim (json.read_to_string file_path) [
    | failed e ↦ failed e
    | done text ↦ elim (json.from_str text) [
      | failed e ↦ failed e
      | done json_value ↦ addresses_in json_value chain_id
    ]
  ]

  -- A read of the staking contract through a client, which is the provider with the wallet.
  unfoldable pub controller : ethers.Provider → ethers.Wallet → ethers.H160 → Result ethers.H160
  controller provider wallet contract_addr =
      map_err (ethers.controller_call provider wallet contract_addr) contract_error

  -- `TransactionManager::new`; the manager's fields are used by nothing, so what is left is its end.
  unfoldable pub new : (provider_url : Bytes) → ethers.Wallet → Outcome (Unit {0})
  new provider_url wallet = try (ethers.provider provider_url) λ provider.
      try (ethers.get_chainid provider) λ chain_id.
        try (network_contract_addresses (codes "addresses.json") chain_id) λ contract_addresses.
          elim (get (codes "L2Staking") contract_addresses) [
            | none ↦ panicked
            | some address ↦ try_own (controller provider wallet address) λ value. returned tt
          ]
