-- ===== src/Ethereum/Crates.antt =====
-- What the program calls of ethers, secp256k1, tap_core and serde_json.
use subfile_data_service.Prelude.{ℕ, Bytes, List, Option}
use subfile_data_service.Rust.Result.{Io}

pub record Receipt (Address : Type 0) : Type 0 where
  pub allocation_id : Address
  pub timestamp_ns : ℕ
  pub nonce : ℕ
  pub value : ℕ

pub record Eip712Domain (Address : Type 0) : Type 0 where
  pub name : Option Bytes
  pub version : Option Bytes
  pub chain_id : Option ℕ
  pub verifying_contract : Option Address
  pub salt : Option Bytes

pub record Ethers : Type 1 where
  pub Wallet : Type 0
  pub SecretKey : Type 0
  -- alloy's `Address` and ethers's `H160`
  pub Address : Type 0
  pub H160 : Type 0
  pub TapReceipt : Type 0
  pub Provider : Type 0
  -- `value.parse::<LocalWallet>()` and `MnemonicBuilder::<English>::default().phrase(value).build()`
  pub parse_wallet : Bytes → Io Wallet
  pub phrase_wallet : Bytes → Io Wallet
  -- `{:?}` of `wallet.address()`
  pub debug_address : Wallet → Bytes
  -- `SecretKey::from_slice(&wallet.signer().to_bytes())` and back
  pub secret_key : Wallet → Io SecretKey
  pub wallet_of : SecretKey → Io Wallet
  pub address_from_str : Bytes → Io Address
  pub h160_from_str : Bytes → Io H160
  -- `EIP712SignedMessage::new`, and the fields of its message
  pub sign : Eip712Domain Address → Receipt Address → Wallet → Io TapReceipt
  pub message : TapReceipt → Receipt Address
  pub receipt_to_string : TapReceipt → Io Bytes
  pub provider : Bytes → Io Provider
  -- `get_chainid`, as its text
  pub get_chainid : Provider → Io Bytes
  -- the contract's `controller()` through a signer of the provider and the wallet
  pub controller_call : Provider → Wallet → H160 → Io H160

-- `serde_json::Value`; an object's entries stand in the order of its map, one for a key.
pub record Json : Type 1 where
  pub Value : Type 0
  pub read_to_string : Bytes → Io Bytes
  pub from_str : Bytes → Io Value
  pub as_object : Value → Option (List (Bytes × Value))
  pub as_string : Value → Option Bytes
