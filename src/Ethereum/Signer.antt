-- ===== src/Ethereum/Signer.antt =====
-- subfile-exchange/src/subfile_client/signer.rs
use subfile_data_service.Prelude.{ℕ, Bytes, codes, Option, none, some, ltb, if◌then◌else◌}
use subfile_data_service.Rust.Result.{Result, ok, panic, Io, ◌>>=◌, expect}
use subfile_data_service.Rust.Words.{u64_mod}
use subfile_data_service.Ethereum.Crates.{Ethers, Receipt, Eip712Domain}

-- `u128` into `u64`, with `unwrap`
unfoldable pub narrow : ℕ → Result ℕ
narrow n = if ltb n u64_mod then ok n else panic

module _ (ethers : Ethers) where
  pub record ReceiptSigner : Type 0 where
    pub signer : ethers.SecretKey
    pub domain : Eip712Domain ethers.Address

  unfoldable pub allocation : ethers.TapReceipt → ethers.Address
  allocation receipt = (ethers.message receipt).allocation_id

  unfoldable pub serialize : ethers.TapReceipt → Result Bytes
  serialize receipt = expect (ethers.receipt_to_string receipt)

  unfoldable pub new :
      ethers.SecretKey → (chain_id : ℕ) → (verifier : ethers.Address) → ReceiptSigner
  new signer chain_id verifier = record {
    signer = signer;
    domain = record {
      name = some (codes "TAP");
      version = some (codes "1");
      chain_id = some chain_id;
      verifying_contract = some verifier;
      salt = none;
    };
  }

  -- `nonce` is the random number, and `since_epoch` the nanoseconds since the epoch, which a clock
  -- before it does not have.
  unfoldable pub create_receipt :
      (nonce : ℕ)
      → (since_epoch : Io ℕ) → ReceiptSigner
      → (allocation_id : ethers.Address) (fee : ℕ) → Result (Option ethers.TapReceipt)
  unfolding narrow
  create_receipt nonce since_epoch self allocation_id fee = do
    nanos ← expect since_epoch
    timestamp_ns ← narrow nanos
    wallet ← expect (ethers.wallet_of self.signer)
    let receipt : Receipt ethers.Address = record {
      allocation_id = allocation_id;
      timestamp_ns = timestamp_ns;
      nonce = nonce;
      value = fee;
    } in
        do signed ← expect (ethers.sign self.domain receipt wallet); ok (some signed)
