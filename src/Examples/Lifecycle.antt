-- ===== src/Examples/Lifecycle.antt =====
-- A file that is published, added to a server and downloaded.
use subfile_data_service.Prelude.{
  split, ℕ, zero, suc, Bytes, codes, bytes_eq, [], ◌∷◌, ◌++◌, ◌%◌, ◌<◌, some, none, true, ◌≡◌, ◌≢◌,
  refl, arith, get_elem?, length, take,
}
use subfile_data_service.HashMap.{get, insert}
use subfile_data_service.Rust.Result.{ok, done}
use subfile_data_service.Rust.Words.{debug, div_u64, add_u64, vec_zeroed}
use subfile_data_service.System.{Holds, Fills}
use subfile_data_service.Http.{StatusCode, respond}
use subfile_data_service.Ipfs.{add, cat_all, is_valid_ipfs_hash}
use subfile_data_service.Ipfs.Fetch.{
  read_subfile, fetch_subfile_from_ipfs, fetch_chunk_files, fetch_chunk_file_from_ipfs,
}
use subfile_data_service.Subfile.Hasher.{hash_chunk}
use subfile_data_service.Subfile.Reader.{format_path, chunk_file, chunk_loop}
use subfile_data_service.Subfile.Reader.Chunks.{num_chunks}
use subfile_data_service.Subfile.ChunkFiles.{new, push, chunk_rounds}
use subfile_data_service.Subfile.Validate.Chunk.{published}
use subfile_data_service.Subfile.Entries.{
  validate_parts, check_parts, validate_subfile_entry, validate_subfile_entries,
}
use subfile_data_service.Publisher.{
  SubfilePublisher, publish, hash_and_publish_files, publish_names, hash_and_publish_file,
  write_chunk_file, construct_subfile_manifest, publish_subfile_manifest,
}
use subfile_data_service.Publisher.ReadBack.{Keeps}
use subfile_data_service.Finder.{
  subfile_availabilities, successes, subfile_availability, indexer_status, indexer_operator,
}
use subfile_data_service.Server.State.{ServerState}
use subfile_data_service.Server.Routes.{token_matches}
use subfile_data_service.Server.Admin.{add_subfile}
use subfile_data_service.Client.Targets.{
  SubfileDownloader, contains, update_indexer_urls, target_chunks, target_files, insert_range,
  insert_chunk, has_chunk, chunks_at,
}
use subfile_data_service.Client.Check.{availbility_check, not_blocked}
use subfile_data_service.Client.DownloadSubfile.{World, ended, no_move, prepare, begin}
use subfile_data_service.Client.DownloadSubfile.Served.{CanReach}
use subfile_data_service.Exchange.Answers.{ByServer}
use subfile_data_service.Exchange.Lifecycle.{published-delivered}
use subfile_data_service.Examples.World.{
  plain, plain-CollisionFree, five, disk, disk-Holds, five-bounded, hash_example, host_of,
}
use subfile_data_service.Examples.Wire.{serde_example, serde_example-RoundTrips, release_example}
use subfile_data_service.Examples.Publishing.{publisher}
use subfile_data_service.Examples.Finding.{get_example, prints_example}
use subfile_data_service.Examples.Clients.{downloader}
use subfile_data_service.Examples.Node.{node, node-Keeps, stored_as, under, answer, hashed}

abbrev publisher_node : SubfilePublisher
publisher_node = record {
  ipfs_client = node;
  config = record (publisher.config) { chunk_size = 6 };
}

publisher_node-ok : publish serde_example debug (disk five) plain 3 publisher_node ≡ ok hash_example
unfolding publish hash_and_publish_files publish_names hash_and_publish_file write_chunk_file new
    chunk_file chunk_loop vec_zeroed add_u64 serde_example add node answer hashed stored_as bytes_eq
    construct_subfile_manifest publish_subfile_manifest hash_chunk
publisher_node-ok = refl

-- a server that lists nothing yet
unfoldable state_empty : ServerState serde_example
unfolding serde_example
state_empty = record {
  client = node;
  operator_public_key = codes "0x00";
  subfiles = [];
  release = release_example;
  free_query_auth_token = some (codes "Bearer free");
  admin_auth_token = some (codes "Bearer admin");
  price_per_byte = 1;
}

abbrev entry_text : Bytes
entry_text = codes "QmUVskWrz1ZiQZ76AtyhcfFDEH1ELnRpoyEhVL8p6NFTbR:/data"

unfoldable params : serde_example.JsonValue
unfolding serde_example
params = entry_text ∷ []

params-parsed : serde_example.json_to_strings params ≡ done (entry_text ∷ [])
unfolding serde_example params
params-parsed = refl

entry_text-ok :
    validate_subfile_entries (disk five) (entry_text ∷ []) ≡ ok ((hash_example, codes "/data") ∷ [])
unfolding validate_subfile_entries validate_subfile_entry check_parts validate_parts
    is_valid_ipfs_hash split
entry_text-ok = refl

state-Keeps : Keeps (state_empty.client)
unfolding state_empty
state-Keeps = node-Keeps

same_node : publisher_node.ipfs_client ≡ state_empty.client
unfolding state_empty
same_node = refl

only_file :
    (k : ℕ) (name : Bytes)
    → get_elem? (publisher_node.config.file_names) k ≡ some name
    → (h : Holds (disk five) (format_path (codes "/data") name) five) × Fills h.handle five
      × (num_chunks 6 (length five) < 3)
only_file k name f = (
  disk-Holds (format_path (codes "/data") name) five five-bounded,
  record { filled = λ pos n. refl },
  omega arith,
)

one_name :
    (j k : ℕ) (a b : Bytes)
    → get_elem? (publisher_node.config.file_names) j ≡ some a
    → get_elem? (publisher_node.config.file_names) k ≡ some b
    → five ≡ five
    → j ≡ k
one_name zero zero a b f g same = refl
one_name zero (suc k) a b f g same = absurd cc
one_name (suc j) k a b f g same = absurd cc

five_parts :
    (k : ℕ) (name : Bytes)
    → get_elem? (publisher_node.config.file_names) k ≡ some name
    → length five % 6 ≢ 0
five_parts k name f e = omega (arith, e)

five_copies :
    (k : ℕ) (name : Bytes)
    → get_elem? (publisher_node.config.file_names) k ≡ some name
    → (local : Bytes) × Holds (disk five) (push (codes "/data") name) local
      × (take (length five) local ≡ five)
five_copies k name f = (five, disk-Holds (push (codes "/data") name) five five-bounded, refl)

abbrev starting : SubfileDownloader
starting = record downloader {
  subfile = record {
    ipfs_hash = hash_example;
    local_path = codes "/out";
    manifest = record {
      files = record { name = codes "f"; hash = codes "QmFive" } ∷ [];
      file_type = [];
      spec_version = [];
      description = [];
      chain_id = [];
      block_range = record { start_block = none; end_block = none };
    };
    chunk_files =
        record {
          meta_info = record { name = codes "f"; hash = codes "QmFive" };
          chunk_file = published plain 6 five;
        }
        ∷ [];
  };
  static_endpoints = codes "http://localhost" ∷ [];
  indexer_urls = [];
}

abbrev begun : SubfileDownloader
begun = record starting {
  indexer_urls = (codes "0x00", codes "http://localhost") ∷ [];
  target_chunks = (codes "QmFive", 0 ∷ []) ∷ [];
}

starting-read :
    read_subfile serde_example (state_empty.client) hash_example (codes "/out")
    ≡ ok (starting.subfile)
unfolding read_subfile fetch_subfile_from_ipfs cat_all node answer under bytes_eq serde_example
    fetch_chunk_files fetch_chunk_file_from_ipfs hash_chunk state_empty
starting-read = refl

begun-ok :
    prepare serde_example (state_empty.client) get_example prints_example debug starting ≡ ok begun
unfolding prepare target_chunks target_files chunk_rounds div_u64 add_u64 insert_range insert_chunk
    has_chunk chunks_at get insert availbility_check not_blocked contains subfile_availabilities
    successes subfile_availability indexer_status indexer_operator update_indexer_urls bytes_eq
begun-ok = refl

token_accepted :
    token_matches (state_empty.free_query_auth_token) (some (codes "Bearer free")) ≡ true
unfolding token_matches state_empty bytes_eq
token_accepted = refl

published-delivered_example :
    (s' : ServerState serde_example) × (add_subfile serde_example
        (host_of five)
        (some params)
        state_empty
      ≡ (ok (respond StatusCode.ok (codes "Subfile(s) added successfully")), s'))
    × (w : World) × CanReach debug plain
        (λ es. [])
        begun
        (ByServer serde_example
          (host_of five)
          (λ status. [])
          s'
          begun
          (codes "0x00")
          (codes "http://localhost"))
        (begin begun)
        (record { main = ended (ok tt); world = w })
    × ((k : ℕ) (name : Bytes)
        → get_elem? (publisher_node.config.file_names) k ≡ some name
        → get (codes "/out" ++ (codes "/" ++ name)) w.outputs ≡ some five)
published-delivered_example =
    published-delivered serde_example serde_example-RoundTrips (host_of five) state_empty
      state-Keeps debug (disk five) plain-CollisionFree 3 publisher_node same_node (omega arith)
      (omega arith) (λ name. five) only_file one_name five_parts hash_example (codes "/data")
      publisher_node-ok five_copies params (entry_text ∷ []) params-parsed entry_text-ok debug
      (λ es. []) (λ status. []) get_example prints_example starting begun (codes "/out") 0
      (codes "0x00") (codes "http://localhost") (codes "Bearer free") refl starting-read refl
      begun-ok refl refl token_accepted (begin begun) no_move refl
