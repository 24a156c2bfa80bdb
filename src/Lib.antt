-- ===== src/Lib.antt =====
-- Verification library of the subfile service: publishing files in hashed chunks to IPFS, serving
-- them over HTTP, and downloading them chunk by chunk.
--
-- The parts of the program and the files that model them:
--   subfile-exchange/src/subfile/mod.rs: Subfile/Types (SubfileManifest, ChunkFile, Subfile),
--   Subfile/ChunkFiles (ChunkFile::new, validate_local_subfile, read_and_validate_file) and
--   Subfile/Entries (validate_subfile_entry and validate_subfile_entries);
--   subfile-exchange/src/subfile/file_reader.rs: Subfile/Reader (read_chunk, chunk_file);
--   subfile-exchange/src/subfile/file_hasher.rs: Subfile/Hasher (hash_chunk, verify_chunk) and
--   Subfile/Merkle;
--   subfile-exchange/src/subfile/ipfs.rs and subfile_reader.rs: Ipfs and Ipfs/Fetch;
--   subfile-service/src/subfile_server: Server/State and Server/Requests (mod.rs), Server/Routes
--   (routes.rs), Server/Range (range.rs), Server/Admin (admin.rs), Server/Util (util.rs);
--   subfile-exchange/src/subfile_client/mod.rs: Client/Targets (the downloader's shared state),
--   Client/Request (download_range_request, request_chunk), Client/Transfer
--   (download_chunk_and_write_to_file), Client/Rounds (the tasks of download_chunk_file),
--   Client/Check (availbility_check), Client/DownloadSubfile (download_subfile) and
--   Client/Constructor (SubfileDownloader::new);
--   subfile-exchange/src/util.rs, subfile_client/signer.rs and transaction_manager/mod.rs:
--   Ethereum;
--   subfile-exchange/src/config.rs: Command; main.rs: Command/Roles; the start of init_server:
--   Command/Start; subfile-service/src/config.rs and main.rs: Command/Service;
--   subfile-exchange/src/subfile_finder/mod.rs: Finder;
--   subfile-exchange/src/publisher/mod.rs: Publisher and Publisher/Stored;
--   subfile-exchange/src/subfile/local_file_system.rs: ObjectStore/Store, over ObjectStore/Local;
--   subfile-exchange/src/errors.rs: Errors.
-- Exchange/Served joins the client's request to the server's answer, over Exchange/Network, and
-- Exchange/Delivered (with Exchange/Answers) a whole download to a server; Publisher/ReadBack
-- joins the publisher to the reader, Exchange/Downloaded the publisher to the downloader,
-- Exchange/Programs their runs of main, and Exchange/Lifecycle (with Entries, Distinct and
-- Intact) publisher, server and downloader. Prelude, Rust, HashMap and Http hold what the
-- components share. Examples holds concrete inputs.
--
-- How the code is modelled: a function that returns Result<_, Error> returns Result, which adds
-- `panic` (both profiles of Cargo.toml abort on a panic) and `out_of_fuel`. A u64 is a natural
-- number and its arithmetic goes by the build, with a panic on overflow in a debug build and
-- wrap-around in a release build. A byte string is a list of numbers. A handler of the server
-- takes the state that it locks and returns it with the answer, so requests are served one after
-- the other: a handler changes the state under one lock, and what it reads before under another
-- is the token only. Log lines are left out. The tasks of a download, of all its files, take the
-- steps of a relation in any order, which allows more histories than the code has (rounds are not
-- joined, and each transfer has its own request), so that a download that "can go on" is one that
-- some steps of the relation take on. Two output paths with different texts count as two files.
--
-- Loops without a structural bound carry fuel: chunk_loop one unit for a read, of which one more
-- than the file's bytes are enough; transfer_loop one unit for an attempt, of which the
-- definition gives max_retry + 1, more than it can use.
--
-- Parameters: the file system (System), serde_yaml and serde_json (Serde), reqwest (the `send`
-- and `get` arguments), SHA-256 and base64 (Digest), the crates object_store (LocalFileSystem),
-- ethers and tap_core (Ethers) and serde_json's Value (Json), merkle_cbt (Cbmt), rustls_pemfile
-- (Pem), the random choice of an endpoint, the wallet's address. Their documented behaviour
-- enters as the records Holds, Reads, Fills, CollisionFree, RoundTrips, Keeps, Stores, IsLawful
-- and Accepts.
--
-- Not modelled: clap's parser; the socket of init_server; the copies of LogFormat and
-- init_tracing in subfile-service; build scripts.
pub mod Prelude
pub mod Errors
pub mod Rust
pub mod System
pub mod Serde
pub mod HashMap
pub mod Subfile
pub mod Ipfs
pub mod Http
pub mod Server
pub mod Client
pub mod Ethereum
pub mod Command
pub mod Exchange
pub mod ObjectStore
pub mod Publisher
pub mod Finder
pub mod Examples
