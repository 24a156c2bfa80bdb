-- ===== src/Ethereum/Wallets.antt =====
-- subfile-exchange/src/util.rs, and `public_key` of subfile-service/src/subfile_server/util.rs.
use subfile_data_service.Prelude.{Bytes}
use subfile_data_service.Rust.Result.{Io, done, failed}
use subfile_data_service.Ethereum.Crates.{Ethers}

module _ (ethers : Ethers) where
  -- `Result::or`
  unfoldable pub build_wallet : Bytes → Io ethers.Wallet
  build_wallet value = elim (ethers.parse_wallet value) [
    | done wallet ↦ done wallet
    | failed e ↦ ethers.phrase_wallet value
  ]

  unfoldable pub wallet_address : ethers.Wallet → Bytes
  wallet_address wallet = ethers.debug_address wallet

  unfoldable pub public_key : Bytes → Io Bytes
  public_key value = elim (build_wallet value) [
    | done wallet ↦ done (wallet_address wallet)
    | failed e ↦ failed e
  ]
