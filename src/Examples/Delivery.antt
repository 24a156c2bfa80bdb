-- ===== src/Examples/Delivery.antt =====
-- A server that lists a subfile of one file, and a downloader that fetches it.
use subfile_data_service.Prelude.{
  ℕ, zero, suc, codes, bytes_eq, [], ◌∷◌, ◌%◌, some, ◌≡◌, ◌≢◌, refl, arith, get_elem?, length,
}
use mathlib.Core.Path.{subst}
use subfile_data_service.HashMap.{get, insert}
use subfile_data_service.Rust.Result.{ok}
use subfile_data_service.Rust.Words.{debug, div_u64, add_u64}
use subfile_data_service.Subfile.Types.{ChunkFileMeta}
use subfile_data_service.Subfile.ChunkFiles.{push, chunk_rounds}
use subfile_data_service.Finder.{
  subfile_availabilities, successes, subfile_availability, indexer_status, indexer_operator,
}
use subfile_data_service.Client.Targets.{
  SubfileDownloader, contains, update_indexer_urls, target_chunks, target_files, insert_range,
  insert_chunk, has_chunk, chunks_at,
}
use subfile_data_service.Client.Check.{availbility_check, not_blocked}
use subfile_data_service.Client.DownloadSubfile.{World, ended, no_move, prepare, begin, output_path}
use subfile_data_service.Client.DownloadSubfile.Views.{Apart}
use subfile_data_service.Client.DownloadSubfile.Served.{CanReach}
use subfile_data_service.Exchange.Answers.{IsIntact, ByServer}
use subfile_data_service.Exchange.Delivered.{download_subfile_delivers}
use subfile_data_service.Examples.World.{
  plain, plain-CollisionFree, five, disk-Holds, five-bounded, five_meta, subfile_of, host_of,
  ipfs_example,
}
use subfile_data_service.Examples.Wire.{serde_example, state_example}
use subfile_data_service.Examples.Finding.{get_example, prints_example}
use subfile_data_service.Examples.Clients.{
  downloader, valid_example, listed_example, accepted_example,
}

abbrev beginning : SubfileDownloader
beginning = record downloader {
  static_endpoints = codes "http://localhost" ∷ [];
  indexer_urls = [];
}

abbrev checked : SubfileDownloader
checked = record beginning {
  indexer_urls = (codes "0x00", codes "http://localhost") ∷ [];
  target_chunks = (codes "QmFive", 2 ∷ 1 ∷ 0 ∷ []) ∷ [];
}

checked-ok :
    prepare serde_example ipfs_example get_example prints_example debug beginning ≡ ok checked
unfolding prepare target_chunks target_files chunk_rounds div_u64 add_u64 insert_range insert_chunk
    has_chunk chunks_at get insert availbility_check not_blocked contains subfile_availabilities
    successes subfile_availability indexer_status indexer_operator update_indexer_urls bytes_eq
checked-ok = refl

five-IsIntact : IsIntact (host_of five) (subfile_of five_meta) five_meta five
five-IsIntact = record {
  published_from = record {
    made = refl;
    pos = omega arith;
    fits = omega arith;
    bounded = five-bounded;
  };
  local = five;
  held = disk-Holds (push (codes "/data") (codes "five")) five five-bounded;
  intact = refl;
}

each-IsIntact :
    (k : ℕ) (meta : ChunkFileMeta)
    → get_elem? (beginning.subfile.chunk_files) k ≡ some meta
    → IsIntact (host_of five) (subfile_of five_meta) meta five
each-IsIntact zero meta f =
    let same : five_meta ≡ meta = cc in
    subst (λ m. IsIntact (host_of five) (subfile_of five_meta) m five) same five-IsIntact
each-IsIntact (suc k) meta f = absurd cc

each_part :
    (k : ℕ) (meta : ChunkFileMeta)
    → get_elem? (beginning.subfile.chunk_files) k ≡ some meta
    → length five % meta.chunk_file.chunk_size ≢ 0
each_part zero meta f =
    let same : five_meta ≡ meta = cc in
    subst (λ (m : ChunkFileMeta). length five % m.chunk_file.chunk_size ≢ 0) same
      (λ e. omega (arith, e))
each_part (suc k) meta f = absurd cc

one_entry :
    (j k : ℕ) (a b : ChunkFileMeta)
    → get_elem? (beginning.subfile.chunk_files) j ≡ some a
    → get_elem? (beginning.subfile.chunk_files) k ≡ some b
    → j ≢ k
    → Apart checked a b
one_entry zero zero a b f g ne = absurd (ne refl)
one_entry zero (suc k) a b f g ne = absurd cc
one_entry (suc j) k a b f g ne = absurd cc

download_subfile_delivers_example :
    (w : World) × CanReach debug plain
      (λ es. [])
      checked
      (ByServer serde_example
        (host_of five)
        (λ status. [])
        state_example
        checked
        (codes "0x00")
        (codes "http://localhost"))
      (begin checked)
      (record { main = ended (ok tt); world = w })
    × ((k : ℕ) (meta : ChunkFileMeta)
        → get_elem? (beginning.subfile.chunk_files) k ≡ some meta
        → get (output_path checked meta) w.outputs ≡ some five)
download_subfile_delivers_example =
    download_subfile_delivers serde_example (host_of five) (λ status. []) state_example
      (subfile_of five_meta) debug (λ es. []) 0 checked (codes "0x00") (codes "http://localhost")
      (codes "Bearer free") valid_example listed_example refl refl accepted_example ipfs_example
      get_example prints_example plain-CollisionFree (λ meta. five) beginning refl refl checked-ok
      each-IsIntact each_part one_entry (begin checked) no_move refl
