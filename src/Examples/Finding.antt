-- ===== src/Examples/Finding.antt =====
-- An endpoint that serves one subfile, and what the finder reports of it.
use subfile_data_service.Prelude.{
  Bytes, codes, bytes_eq, drop, [], ◌∷◌, true, false, ◌≡◌, refl, All,
}
use subfile_data_service.Rust.Result.{Result, ok, err, panic, out_of_fuel, Io, done}
use subfile_data_service.HashMap.{insert}
use subfile_data_service.Ipfs.{cat_all}
use subfile_data_service.Ipfs.Fetch.{
  read_subfile, fetch_subfile_from_ipfs, fetch_chunk_files, fetch_chunk_file_from_ipfs,
}
use subfile_data_service.Client.Targets.{IndexerEndpoint, SubfileDownloader, contains}
use subfile_data_service.Client.Check.{Prints, availbility_check, availbility_check-All}
use subfile_data_service.Examples.Clients.{downloader}
use subfile_data_service.Finder.{
  StatusReply, FileAvailbilityMap, endpoint_eq, push_subfile, record_serving, unavailable_files,
  target_hashes, indexer_operator, indexer_status, subfile_availability, record_subfiles,
  check_complete, endpoint_info, file_availability, discover, file_discovery,
}
use subfile_data_service.Finder.Complete.{At, availbility_check_complete}
use subfile_data_service.Finder.Sound.{IsServing, IsSound, file_discovery-IsSound}
use subfile_data_service.Finder.Discovered.{IsRecorded}
use subfile_data_service.Finder.Discovery.{hashes_of, file_discovery-IsRecorded}
use subfile_data_service.Subfile.Types.{ChunkFileMeta, SubfileManifest}
use subfile_data_service.Examples.World.{hash_example, ipfs_example, manifest_example}
use subfile_data_service.Examples.Wire.{serde_example}

abbrev pub get_example : Bytes → Io StatusReply
get_example url = done (record {
  is_success = true;
  json_files = done (hash_example ∷ []);
  json_operator = done (codes "0x00");
})

abbrev discovered : Result FileAvailbilityMap
discovered =
    file_discovery serde_example ipfs_example get_example (λ missing. []) hash_example
      (codes "http://a" ∷ [])

abbrev discovered_map : FileAvailbilityMap
discovered_map = elim discovered [ ok m ↦ m | err e ↦ [] | panic ↦ [] | out_of_fuel ↦ [] ]

discovered-ok : discovered ≡ ok discovered_map
unfolding file_discovery read_subfile fetch_subfile_from_ipfs cat_all ipfs_example serde_example
    fetch_chunk_files fetch_chunk_file_from_ipfs target_hashes insert bytes_eq discover
    file_availability endpoint_info indexer_operator indexer_status record_subfiles record_serving
    push_subfile contains check_complete unavailable_files endpoint_eq
discovered-ok = refl

file_discovery-IsSound_example : IsSound serde_example ipfs_example get_example discovered_map
file_discovery-IsSound_example =
    file_discovery-IsSound serde_example ipfs_example get_example (λ missing. []) hash_example
      (codes "http://a" ∷ []) discovered_map discovered-ok

abbrev pub prints_example : Prints
prints_example = record { missing = λ m. []; found = λ m. []; urls = λ m. []; failure = λ e. [] }

abbrev checking : SubfileDownloader
checking = record downloader {
  static_endpoints = codes "http://a" ∷ codes "http://b" ∷ [];
  indexer_blocklist = codes "http://b" ∷ [];
}

availbility_check-All_example :
    All
      (IsServing serde_example ipfs_example get_example hash_example)
      (availbility_check serde_example ipfs_example get_example prints_example
        checking).1.indexer_urls
    × All
        (λ (e : IndexerEndpoint). contains e.1 (codes "http://b" ∷ []) ≡ false)
        (availbility_check serde_example ipfs_example get_example prints_example
          checking).1.indexer_urls
availbility_check-All_example =
    availbility_check-All serde_example ipfs_example get_example prints_example checking

served-a :
    subfile_availability serde_example ipfs_example get_example hash_example (codes "http://a")
    ≡ ok (codes "0x00", codes "http://a")
unfolding subfile_availability indexer_status indexer_operator contains bytes_eq
served-a = refl

free-a : contains (codes "http://a") (checking.indexer_blocklist) ≡ false
unfolding contains bytes_eq
free-a = refl

availbility_check_complete_example :
    ((availbility_check serde_example ipfs_example get_example prints_example checking).0 ≡ ok tt)
    × At
        (codes "0x00", codes "http://a")
        (availbility_check serde_example ipfs_example get_example prints_example
          checking).1.indexer_urls
availbility_check_complete_example =
    availbility_check_complete serde_example ipfs_example get_example prints_example
      (record checking { ipfs_hash = hash_example }) (codes "http://a")
      (codes "0x00", codes "http://a") 0 refl free-a served-a

abbrev target_example : Bytes
target_example = drop 1 hash_example

abbrev manifest_found : SubfileManifest
manifest_found = record manifest_example {
  files = record { name = codes "Q"; hash = target_example } ∷ [];
}

abbrev meta_found : ChunkFileMeta
meta_found = record {
  meta_info = record { name = codes "Q"; hash = target_example };
  chunk_file = record {
    total_bytes = 109;
    chunk_size = 85;
    chunk_hashes = drop 3 hash_example ∷ [];
  };
}

manifest_found-ok :
    fetch_subfile_from_ipfs serde_example ipfs_example hash_example ≡ ok manifest_found
unfolding fetch_subfile_from_ipfs cat_all ipfs_example serde_example
manifest_found-ok = refl

wanted-ok :
    read_subfile serde_example ipfs_example hash_example []
    ≡ ok (record {
      ipfs_hash = hash_example;
      local_path = [];
      manifest = manifest_found;
      chunk_files = meta_found ∷ [];
    })
unfolding read_subfile fetch_subfile_from_ipfs cat_all ipfs_example serde_example fetch_chunk_files
    fetch_chunk_file_from_ipfs
wanted-ok = refl

info-ok :
    endpoint_info serde_example ipfs_example get_example (codes "http://a")
    ≡ ok (codes "0x00", hash_example ∷ [])
unfolding endpoint_info indexer_operator indexer_status
info-ok = refl

target_held : contains target_example (hashes_of manifest_found) ≡ true
unfolding contains bytes_eq
target_held = refl

file_discovery-IsRecorded_example :
    IsRecorded (codes "0x00", codes "http://a") hash_example target_example discovered_map
file_discovery-IsRecorded_example =
    file_discovery-IsRecorded serde_example ipfs_example get_example target_example hash_example
      manifest_found manifest_found-ok target_held (λ missing. []) (codes "http://a") (codes "0x00")
      (hash_example ∷ []) 0 info-ok (((manifest_found, manifest_found-ok), tt)) refl hash_example
      (codes "http://a" ∷ []) 0 0
      (record {
        ipfs_hash = hash_example;
        local_path = [];
        manifest = manifest_found;
        chunk_files = meta_found ∷ [];
      })
      meta_found discovered_map refl wanted-ok refl refl discovered-ok
