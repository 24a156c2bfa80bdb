-- ===== src/Examples/Downloading.antt =====
-- A publication of a file of one chunk, read back and downloaded.
use subfile_data_service.Prelude.{
  ℕ, zero, suc, Bytes, codes, bytes_eq, bytes_eq_iff, false, [], ◌∷◌, ◌++◌, ◌<◌, true, none, some,
  ◌≡◌, ◌≢◌, refl, arith, get_elem?, length,
}
use mathlib.Core.Path.{subst, sym, ap, ◌∙◌}
use subfile_data_service.HashMap.{get, insert}
use subfile_data_service.Rust.Result.{ok, Io, done}
use subfile_data_service.Rust.Words.{debug, div_u64, mul_u64, add_u64, sub_u64, vec_zeroed}
use subfile_data_service.System.{Holds, Fills}
use subfile_data_service.Ipfs.{add, cat_all}
use subfile_data_service.Ipfs.Fetch.{
  read_subfile, fetch_subfile_from_ipfs, fetch_chunk_files, fetch_chunk_file_from_ipfs,
}
use subfile_data_service.Subfile.Types.{ChunkFileMeta, Subfile}
use subfile_data_service.Subfile.Hasher.{hash_chunk, verify_chunk}
use subfile_data_service.Subfile.Reader.{format_path, chunk_file, chunk_loop}
use subfile_data_service.Subfile.Reader.Chunks.{num_chunks}
use subfile_data_service.Subfile.ChunkFiles.{new, chunk_range, chunk_rounds}
use subfile_data_service.Subfile.Validate.Chunk.{published}
use subfile_data_service.Publisher.{
  SubfilePublisher, publish, hash_and_publish_files, publish_names, hash_and_publish_file,
  write_chunk_file, construct_subfile_manifest, publish_subfile_manifest,
}
use subfile_data_service.Finder.{
  StatusReply, subfile_availabilities, successes, subfile_availability, indexer_status,
  indexer_operator,
}
use subfile_data_service.Client.Targets.{
  SubfileDownloader, contains, update_indexer_urls, target_chunks, target_files, insert_range,
  insert_chunk, has_chunk, remove_chunk, chunks_at,
}
use subfile_data_service.Client.Check.{availbility_check, not_blocked}
use subfile_data_service.Client.Request.{
  DownloadRangeRequest, GetRequest, GetResponse, download_range_request, get_request, request_chunk,
  check_response,
}
use subfile_data_service.Client.Transfer.{
  written, accept_chunk, write_chunk, write_at, transfer_loop, download_chunk_and_write_to_file,
}
use subfile_data_service.Client.Rounds.{Download, transferred, finished}
use subfile_data_service.Client.DownloadSubfile.{
  World, ended, Moves, no_move, and_then, task, opened, completed, returned, conclude, prepare,
  begin, created, update, view, output_at, output_path,
}
use subfile_data_service.Client.DownloadSubfile.Views.{Apart}
use subfile_data_service.Client.DownloadSubfile.Files.{IsPublished}
use subfile_data_service.Client.DownloadSubfile.Outcome.{download_subfile_complete}
use subfile_data_service.Client.DownloadSubfile.Repeated.{repeated_hash}
use subfile_data_service.Examples.World.{
  plain, plain-CollisionFree, five, disk, disk-Holds, five-bounded, ipfs_example,
}
use subfile_data_service.Examples.Wire.{serde_example}
use subfile_data_service.Examples.Publishing.{publisher}
use subfile_data_service.Examples.Finding.{prints_example}
use subfile_data_service.Examples.Clients.{downloader, choose_first}

abbrev pub publisher_six : SubfilePublisher
publisher_six = record publisher { config = record (publisher.config) { chunk_size = 6 } }

abbrev pub six_hash : Bytes
six_hash = 102 ∷ 5 ∷ 6 ∷ five

pub publisher_six-ok : publish serde_example debug (disk five) plain 3 publisher_six ≡ ok six_hash
unfolding publish hash_and_publish_files publish_names hash_and_publish_file write_chunk_file new
    chunk_file chunk_loop vec_zeroed add_u64 serde_example add ipfs_example
    construct_subfile_manifest publish_subfile_manifest hash_chunk
publisher_six-ok = refl

abbrev entry : ChunkFileMeta
entry = record {
  meta_info = record { name = codes "f"; hash = 5 ∷ 6 ∷ five };
  chunk_file = published plain 6 five;
}

abbrev pub subfile_read : Subfile
subfile_read = record {
  ipfs_hash = six_hash;
  local_path = codes "/out";
  manifest = record {
    files = entry.meta_info ∷ [];
    file_type = [];
    spec_version = [];
    description = [];
    chain_id = [];
    block_range = record { start_block = none; end_block = none };
  };
  chunk_files = entry ∷ [];
}

pub subfile_read-ok :
    read_subfile serde_example ipfs_example six_hash (codes "/out") ≡ ok subfile_read
unfolding read_subfile fetch_subfile_from_ipfs cat_all ipfs_example serde_example fetch_chunk_files
    fetch_chunk_file_from_ipfs hash_chunk
subfile_read-ok = refl

abbrev pub start : SubfileDownloader
start = record downloader {
  ipfs_hash = six_hash;
  subfile = subfile_read;
  static_endpoints = codes "http://localhost" ∷ [];
  indexer_urls = [];
}

abbrev pub get_six : Bytes → Io StatusReply
get_six url = done (record {
  is_success = true;
  json_files = done (six_hash ∷ []);
  json_operator = done (codes "0x00");
})

abbrev pub prepared : SubfileDownloader
prepared = record start {
  indexer_urls = (codes "0x00", codes "http://localhost") ∷ [];
  target_chunks = (5 ∷ 6 ∷ five, 0 ∷ []) ∷ [];
}

pub prepared-ok :
    prepare serde_example ipfs_example get_six prints_example debug start ≡ ok prepared
unfolding prepare target_chunks target_files chunk_rounds div_u64 add_u64 insert_range insert_chunk
    has_chunk chunks_at get insert availbility_check not_blocked contains subfile_availabilities
    successes subfile_availability indexer_status indexer_operator update_indexer_urls bytes_eq
prepared-ok = refl

abbrev six_request : DownloadRangeRequest
six_request = record {
  query_endpoint = codes "http://localhost" ++ (codes "/subfiles/id/" ++ six_hash);
  auth_token = some (codes "Bearer free");
  file_hash = 5 ∷ 6 ∷ five;
  start = 0;
  end = 4;
  chunk_hash = five;
  max_retry = 3;
}

six_requested : download_range_request debug choose_first prepared entry 0 ≡ ok six_request
unfolding download_range_request chunk_range mul_u64 add_u64 sub_u64 hash_chunk
six_requested = refl

abbrev answers : ℕ → GetRequest → Io GetResponse
answers n r = done (record {
  is_success = true;
  status = codes "206";
  has_content_range = true;
  bytes = done five;
})

six_stored : download_chunk_and_write_to_file plain answers written six_request [] ≡ (ok tt, five)
unfolding download_chunk_and_write_to_file transfer_loop request_chunk get_request check_response
    accept_chunk verify_chunk hash_chunk bytes_eq write_chunk write_at
six_stored = refl

abbrev world_opened : World
world_opened = created prepared entry (begin prepared).world

abbrev after_transfer : Download
after_transfer = record (view prepared entry world_opened) { file = five; stored = 0 ∷ [] }

abbrev world_stored : World
world_stored = update prepared entry after_transfer world_opened

abbrev after_finish : Download
after_finish = record (view prepared entry world_stored) { remaining = [] }

abbrev pub world_finished : World
world_finished = update prepared entry after_finish world_stored

pub run :
    Moves debug plain
      (λ es. [])
      prepared
      (begin prepared)
      (record { main = ended (ok tt); world = world_finished })
unfolding get insert chunks_at has_chunk remove_chunk bytes_eq output_at conclude
run =
    and_then
      (and_then
        (and_then
          (and_then (and_then no_move (opened 0 [] (begin prepared).world entry refl)) (
            task _ world_opened 0 entry [] after_transfer refl refl (
              transferred (view prepared entry world_opened) 0 choose_first six_request answers
                written five refl six_requested six_stored)))
          (task _ world_stored 0 entry five after_finish refl refl
            (finished (view prepared entry world_stored) 0 refl)))
        (completed 0 [] world_finished entry refl refl))
      (returned 1 [] world_finished refl)

alone :
    (j k : ℕ) (a b : ChunkFileMeta)
    → get_elem? (start.subfile.chunk_files) j ≡ some a
    → get_elem? (start.subfile.chunk_files) k ≡ some b
    → j ≢ k
    → Apart prepared a b
alone zero zero a b f g ne = absurd (ne refl)
alone zero (suc k) a b f g ne = absurd cc
alone (suc j) k a b f g ne = absurd cc

entry-IsPublished : IsPublished plain five entry
entry-IsPublished = record {
  made = refl;
  pos = omega arith;
  fits = omega arith;
  bounded = five-bounded;
}

only_entry :
    (k : ℕ) (meta : ChunkFileMeta)
    → get_elem? (start.subfile.chunk_files) k ≡ some meta
    → IsPublished plain five meta
only_entry zero meta f =
    let same : entry ≡ meta = cc in subst (IsPublished plain five) same entry-IsPublished
only_entry (suc k) meta f = absurd cc

download_subfile_complete_example : get (codes "/out/f") (world_finished.outputs) ≡ some five
download_subfile_complete_example =
    download_subfile_complete serde_example ipfs_example get_six prints_example debug plain
      plain-CollisionFree (λ es. []) (λ meta. five) start prepared world_finished prepared-ok
      only_entry alone run 0 entry refl

pub only_name :
    (k : ℕ) (name : Bytes)
    → get_elem? (publisher_six.config.file_names) k ≡ some name
    → (h : Holds (disk five) (format_path (codes "/data") name) five) × Fills h.handle five
      × (num_chunks 6 (length five) < 3)
only_name k name f = (
  disk-Holds (format_path (codes "/data") name) five five-bounded,
  record { filled = λ pos n. refl },
  omega arith,
)

-- The subfile with a second file of the same bytes.
abbrev entry_again : ChunkFileMeta
entry_again = record entry { meta_info = record (entry.meta_info) { name = codes "g" } }

abbrev twice : SubfileDownloader
twice = record prepared { subfile = record subfile_read { chunk_files = entry ∷ entry_again ∷ [] } }

abbrev world_twice : World
world_twice = created twice entry_again world_finished

twice_requested : download_range_request debug choose_first twice entry 0 ≡ ok six_request
unfolding download_range_request chunk_range mul_u64 add_u64 sub_u64 hash_chunk
twice_requested = refl

run_twice :
    Moves debug plain
      (λ es. [])
      twice
      (begin twice)
      (record { main = ended (ok tt); world = world_twice })
unfolding get insert chunks_at has_chunk remove_chunk bytes_eq output_at conclude
run_twice =
    and_then
      (and_then
        (and_then
          (and_then
            (and_then
              (and_then (and_then no_move (opened 0 [] (begin twice).world entry refl)) (
                task _ world_opened 0 entry [] after_transfer refl refl (
                  transferred (view twice entry world_opened) 0 choose_first six_request answers
                    written five refl twice_requested six_stored)))
              (task _ world_stored 0 entry five after_finish refl refl
                (finished (view twice entry world_stored) 0 refl)))
            (completed 0 [] world_finished entry refl refl))
          (opened 1 [] world_finished entry_again refl))
        (completed 1 [] world_twice entry_again refl refl))
      (returned 2 [] world_twice refl)

own_path :
    (m : ℕ) (c : ChunkFileMeta)
    → get_elem? (twice.subfile.chunk_files) m ≡ some c
    → m ≢ 1
    → output_path twice c ≢ output_path twice entry_again
unfolding bytes_eq
own_path zero c f ne = λ e. names (sym (ap (output_path twice) same) ∙ e)
  where
    same : c ≡ entry
    same = cc

    names : output_path twice entry ≢ output_path twice entry_again
    names = λ e.
        let differ : bytes_eq (output_path twice entry) (output_path twice entry_again) ≡ false =
          refl in
        let equal = (bytes_eq_iff (output_path twice entry) (output_path twice entry_again)).1 e in
        let clash : true ≡ false = sym equal ∙ differ in cc
own_path (suc zero) c f ne = absurd (ne refl)
own_path (suc (suc m)) c f ne = absurd cc

repeated_hash_example : get (codes "/out/g") (world_twice.outputs) ≡ some []
repeated_hash_example =
    repeated_hash debug plain (λ es. []) twice 0 1 entry entry_again refl refl (omega arith) refl
      own_path world_twice run_twice
