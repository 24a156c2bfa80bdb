-- ===== src/Exchange/Programs.antt =====
-- The publisher's run of the program and the downloader's, from the command line on.
use mathlib.Core.Path.{subst}
use subfile_data_service.Prelude.{
  ℕ, Bytes, codes, List, ◌++◌, ◌<◌, ◌≤◌, some, ◌≡◌, refl, sym, ap, ◌∙◌, length, get_elem?,
}
use subfile_data_service.Errors.{Error}
use subfile_data_service.HashMap.{get}
use subfile_data_service.Rust.Result.{ok, ok-injective}
use subfile_data_service.Rust.Words.{isize_max}
use subfile_data_service.Serde.{Serde}
use subfile_data_service.System.{Holds, Fills}
use subfile_data_service.Ipfs.{IpfsClient}
use subfile_data_service.Subfile.Hasher.{Digest, CollisionFree}
use subfile_data_service.Subfile.Reader.{format_path}
use subfile_data_service.Subfile.Reader.Chunks.{num_chunks}
use subfile_data_service.Publisher.{PublisherArgs, SubfilePublisher, publish}
use subfile_data_service.Publisher.ReadBack.{RoundTrips, Keeps}
use subfile_data_service.Ethereum.Crates.{Ethers, Json}
use subfile_data_service.Ethereum.Signer.{ReceiptSigner}
use subfile_data_service.Client.Targets.{SubfileDownloader}
use subfile_data_service.Client.Check.{Prints}
use subfile_data_service.Client.Constructor.{new_downloader, new_downloader-eq-ok}
use subfile_data_service.Client.DownloadSubfile.{World, ended, Moves, prepare, begin}
use subfile_data_service.Client.DownloadSubfile.Outcome.{prepare-eq-ok}
use subfile_data_service.Command.{DownloaderArgs, Cli, downloader, publisher}
use subfile_data_service.Command.Roles.{
  Machine, Runs, Ending, connect, published_as, downloaded_to, publisher_ran, publisher_failed,
  publisher_aborted, not_connected, not_constructed, not_prepared, downloader_ran,
  downloader_failed, downloader_aborted, server_referred,
}
use subfile_data_service.Exchange.Downloaded.{download_subfile-publish}
use subfile_data_service.Exchange.Entries.{publish-Apart}

module _ (serde : Serde) (ethers : Ethers) (json : Json) (d : Digest) (prints : Prints)
    (print : List Error → Bytes) (machine : Machine) (fuel : ℕ) (client : IpfsClient)
    (cli : Cli serde.F32)
    (connected : connect machine.http machine.set_global cli ≡ ok client) where
  -- A run that ends with a hash has published.
  ran-publisher :
      (config : PublisherArgs) (hash : Bytes) (end : Ending)
      → cli.role ≡ publisher config
      → end ≡ published_as hash
      → Runs serde ethers json d prints print machine fuel cli end
      → publish serde machine.build machine.fs d fuel
          (record { ipfs_client = client; config = config })
        ≡ ok hash
  ran-publisher config hash end role e (publisher_ran client' config' hash' connected' role' ran) =
      let clients : client' ≡ client = ok-injective (sym connected' ∙ connected) in
      let configs : config' ≡ config = cc in
      let hashes : hash' ≡ hash = cc in
      ap (λ (p : SubfilePublisher). publish serde machine.build machine.fs d fuel p)
        (sym (same_publisher clients configs))
      ∙ ran
      ∙ ap ok hashes
    where
      same_publisher :
          {a b : IpfsClient} {m n : PublisherArgs}
          → a ≡ b
          → m ≡ n
          → ◌≡◌ {A = SubfilePublisher}
              (record { ipfs_client = a; config = m })
              (record { ipfs_client = b; config = n })
      same_publisher e f = cc
  ran-publisher config hash end role e (not_connected p) = absurd cc
  ran-publisher config hash end role e (publisher_failed c config' x p q r) = absurd cc
  ran-publisher config hash end role e (publisher_aborted c config' p q r) = absurd cc
  ran-publisher config hash end role e (not_constructed c config' p q r) = absurd cc
  ran-publisher config hash end role e (not_prepared c config' s g p q r t) = absurd cc
  ran-publisher config hash end role e (downloader_ran c config' s s' g w p q r t m) = absurd cc
  ran-publisher config hash end role e (downloader_failed c config' s s' g w x p q r t m) =
      absurd cc
  ran-publisher config hash end role e (downloader_aborted c config' s s' g w p q r t m) = absurd cc
  ran-publisher config hash end role e (server_referred c config' p q) = absurd cc

  -- What a run that ends with downloaded files went through.
  record Downloads (config : DownloaderArgs) (w : World) : Type 0 where
    start : SubfileDownloader
    self : SubfileDownloader
    signer : ReceiptSigner ethers
    constructed : new_downloader serde ethers json client config ≡ ok (start, signer)
    prepared : prepare serde client machine.http_get prints machine.build start ≡ ok self
    moves :
        Moves machine.build d print self (begin self) (record { main = ended (ok tt); world = w })

  ran-downloader :
      (config : DownloaderArgs) (w : World) (end : Ending)
      → cli.role ≡ downloader config
      → end ≡ downloaded_to w
      → Runs serde ethers json d prints print machine fuel cli end
      → Downloads config w
  ran-downloader config w end role e
        (downloader_ran client' config' start self signer w' connected' role' made prepared moves) =
      let clients : client' ≡ client = ok-injective (sym connected' ∙ connected) in
      let configs : config' ≡ config = cc in
      let worlds : w' ≡ w = cc in
      record {
        start = start;
        self = self;
        signer = signer;
        constructed = rw (sym clients, sym configs) made;
        prepared = rw (sym clients) prepared;
        moves =
            subst
              (λ x.
                Moves machine.build d print self (begin self)
                  (record { main = ended (ok tt); world = x }))
              worlds moves;
      }
  ran-downloader config w end role e (not_connected p) = absurd cc
  ran-downloader config w end role e (publisher_ran c config' h p q r) = absurd cc
  ran-downloader config w end role e (publisher_failed c config' x p q r) = absurd cc
  ran-downloader config w end role e (publisher_aborted c config' p q r) = absurd cc
  ran-downloader config w end role e (not_constructed c config' p q r) = absurd cc
  ran-downloader config w end role e (not_prepared c config' s g p q r t) = absurd cc
  ran-downloader config w end role e (downloader_failed c config' s s' g w' x p q r t m) = absurd cc
  ran-downloader config w end role e (downloader_aborted c config' s s' g w' p q r t m) = absurd cc
  ran-downloader config w end role e (server_referred c config' p q) = absurd cc

module _ (serde : Serde) (trips : RoundTrips serde) (ethers : Ethers) (json : Json) (d : Digest)
    (free : CollisionFree d) (prints : Prints) (print : List Error → Bytes) (client : IpfsClient)
    (keeps : Keeps client) (source target : Machine) (fuel spare : ℕ) (config : PublisherArgs)
    (pos : 0 < config.chunk_size) (fits : config.chunk_size ≤ isize_max) (content : Bytes → Bytes)
    (holds : (k : ℕ) (name : Bytes)
      → get_elem? config.file_names k ≡ some name
      → (h : Holds source.fs (format_path config.read_dir name) (content name)) × Fills h.handle
          (content name)
        × (num_chunks config.chunk_size (length (content name)) < fuel))
    (distinct : (j k : ℕ) (a b : Bytes)
      → get_elem? config.file_names j ≡ some a
      → get_elem? config.file_names k ≡ some b
      → content a ≡ content b
      → j ≡ k) where
  abbrev publisher_made : SubfilePublisher
  publisher_made = record { ipfs_client = client; config = config }

  -- Publisher, IPFS and downloader together, from the command line on: when a publisher's run
  -- ends with a hash, and a downloader's run for that hash ends with Ok, the output directory
  -- has every published file under its name, with the bytes that the publisher read. No two
  -- positions of the publisher's list have files with the same content, those files are read
  -- without error by reads that fill the buffer, both runs have the same IPFS client, which
  -- keeps what was added, the hash functions are collision-free, YAML texts parse back, the
  -- publisher's fuel is above the number of chunks of each file, and the chunk size is above
  -- zero and within isize.
  pub published-downloaded :
      (publishing downloading : Cli serde.F32) (args : DownloaderArgs) (w : World)
      → connect source.http source.set_global publishing ≡ ok client
      → connect target.http target.set_global downloading ≡ ok client
      → publishing.role ≡ publisher config
      → downloading.role ≡ downloader args
      → Runs serde ethers json d prints print source fuel publishing (published_as args.ipfs_hash)
      → Runs serde ethers json d prints print target spare downloading (downloaded_to w)
      → (k : ℕ) (name : Bytes) → get_elem? config.file_names k ≡ some name
      → get (args.output_dir ++ (codes "/" ++ name)) w.outputs ≡ some (content name)
  published-downloaded publishing downloading args w connected connected' role role' ran ran' k name
        found =
      let published_it =
        ran-publisher serde ethers json d prints print source fuel client publishing connected
          config args.ipfs_hash (published_as args.ipfs_hash) role refl ran in
      let went =
        ran-downloader serde ethers json d prints print target spare client downloading connected'
          args w (downloaded_to w) role' refl ran' in
      let (read, dir) =
        new_downloader-eq-ok serde ethers json client args went.start went.signer
          went.constructed in
      let (mid, targeted, targets, subfile, dir') =
        prepare-eq-ok serde client target.http_get prints target.build went.start went.self
          went.prepared in
      subst (λ o. get (o ++ (codes "/" ++ name)) w.outputs ≡ some (content name)) (dir' ∙ dir)
        (download_subfile-publish serde trips client keeps source.build source.fs d fuel
          publisher_made refl pos fits content holds args.ipfs_hash free target.http_get prints
          print target.build went.start went.self args.output_dir w published_it read went.prepared
          (publish-Apart serde trips client keeps source.build source.fs d free fuel publisher_made
            refl pos fits content holds distinct args.ipfs_hash args.output_dir went.start.subfile
            went.self published_it read)
          went.moves k name found)
