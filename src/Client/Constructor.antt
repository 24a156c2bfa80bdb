-- ===== src/Client/Constructor.antt =====
-- `SubfileDownloader::new` of subfile-exchange/src/subfile_client/mod.rs.
use subfile_data_service.Prelude.{Bytes, codes, [], none, ◌≡◌, refl, sym, ap, ◌∙◌}
use subfile_data_service.Rust.Result.{
  Result, ok, panic, done, ◌>>=◌, expect, >>=-eq-ok, ok-injective,
}
use subfile_data_service.Serde.{Serde}
use subfile_data_service.Ipfs.{IpfsClient}
use subfile_data_service.Ipfs.Fetch.{read_subfile}
use subfile_data_service.Subfile.Types.{Subfile}
use subfile_data_service.Client.Targets.{SubfileDownloader}
use subfile_data_service.Command.{DownloaderArgs}
use subfile_data_service.Command.Start.{expect_ok, expect_ok-eq-ok}
use subfile_data_service.Ethereum.Crates.{Ethers, Json}
use subfile_data_service.Ethereum.Wallets.{build_wallet}
use subfile_data_service.Ethereum.Signer.{ReceiptSigner, new}
use subfile_data_service.Ethereum.Transactions.{
  Outcome, returned, errored, panicked, contracts_of, new as new_manager,
}
use subfile_data_service.Ethereum.Addresses.{new_unknown_chain}

-- The result of the transaction manager is logged only: an error goes by, a panic does not.
unfoldable pub logged : Outcome (Unit {0}) → Result (Unit {0})
logged (returned u) = ok tt
logged (errored e) = ok tt
logged panicked = panic

module _ (serde : Serde) (ethers : Ethers) (json : Json) where
  -- The downloader with its receipt signer.
  unfoldable pub new_downloader :
      IpfsClient → DownloaderArgs → Result (SubfileDownloader × ReceiptSigner ethers)
  new_downloader ipfs_client args = do
    subfile ← expect_ok (read_subfile serde ipfs_client args.ipfs_hash args.output_dir)
    wallet ← expect (build_wallet ethers args.mnemonic)
    private_key ← expect (ethers.secret_key wallet)
    verifier ← expect (ethers.address_from_str args.verifier)
    managed ← logged (new_manager ethers json args.provider wallet)
    ok (
      record {
        ipfs_hash = args.ipfs_hash;
        subfile = subfile;
        static_endpoints = args.indexer_endpoints;
        output_dir = args.output_dir;
        free_query_auth_token = args.free_query_auth_token;
        indexer_urls = [];
        indexer_blocklist = [];
        target_chunks = [];
        chunk_max_retry = args.max_retry;
      },
      new ethers private_key args.chain_id verifier,
    )

  -- The subfile of a downloader is the one of its hash, and its output goes to the given directory.
  pub new_downloader-eq-ok :
      (ipfs_client : IpfsClient) (args : DownloaderArgs) (start : SubfileDownloader)
      (signer : ReceiptSigner ethers)
      → new_downloader ipfs_client args ≡ ok (start, signer)
      → (read_subfile serde ipfs_client args.ipfs_hash args.output_dir ≡ ok start.subfile)
        × (start.output_dir ≡ args.output_dir)
  unfolding new_downloader
  new_downloader-eq-ok ipfs_client args start signer e =
      let (subfile, read, more) =
        >>=-eq-ok (expect_ok (read_subfile serde ipfs_client args.ipfs_hash args.output_dir)) _ e in
      let (wallet, built, more') = >>=-eq-ok (expect (build_wallet ethers args.mnemonic)) _ more in
      let (key, keyed, more'') = >>=-eq-ok (expect (ethers.secret_key wallet)) _ more' in
      let (verifier, parsed, more''') =
        >>=-eq-ok (expect (ethers.address_from_str args.verifier)) _ more'' in
      let (managed, went, last) =
        >>=-eq-ok (logged (new_manager ethers json args.provider wallet)) _ more''' in
      let made = ok-injective last in
      (
        expect_ok-eq-ok _ read
            ∙ ap (λ (p : SubfileDownloader × ReceiptSigner ethers). ok (p.0.subfile)) made,
        ap (λ (p : SubfileDownloader × ReceiptSigner ethers). p.0.output_dir) (sym made),
      )

  -- When all else succeeds and the file of addresses has no contracts for the provider's chain,
  -- the constructor of the downloader panics.
  pub new_downloader-unknown_chain :
      (ipfs_client : IpfsClient) (args : DownloaderArgs) (subfile : Subfile)
      (wallet : ethers.Wallet) (private_key : ethers.SecretKey) (verifier : ethers.Address)
      (provider : ethers.Provider) (chain_id text : Bytes) (value : json.Value)
      → read_subfile serde ipfs_client args.ipfs_hash args.output_dir ≡ ok subfile
      → build_wallet ethers args.mnemonic ≡ done wallet
      → ethers.secret_key wallet ≡ done private_key
      → ethers.address_from_str args.verifier ≡ done verifier
      → ethers.provider args.provider ≡ done provider
      → ethers.get_chainid provider ≡ done chain_id
      → json.read_to_string (codes "addresses.json") ≡ done text
      → json.from_str text ≡ done value
      → contracts_of ethers json value chain_id ≡ none
      → new_downloader ipfs_client args ≡ panic
  unfolding new_downloader logged
  new_downloader-unknown_chain ipfs_client args subfile wallet private_key verifier provider
        chain_id text value read built key parsed_verifier reached chain opened parsed unknown =
      rw
        (
          read,
          built,
          key,
          parsed_verifier,
          new_unknown_chain ethers json args.provider chain_id text wallet provider value reached
              chain opened parsed unknown,
        )
        refl
