-- ===== src/Client/Targets.antt =====
-- The shared state of `SubfileDownloader`: endpoints, blocklist and chunks that are still to come.
pub mod All
pub mod Within
use subfile_data_service.Prelude.{
  ℕ, zero, suc, Bytes, bytes_eq, List, [], ◌∷◌, ◌++◌, ◌+◌, Bool, true, false, ◌||◌, ◌==◌, Option,
  none, some, if◌then◌else◌,
}
use subfile_data_service.Rust.Result.{Result, ok, ◌>>=◌}
use subfile_data_service.Rust.Words.{Build}
use subfile_data_service.HashMap.{HashMap, get, insert}
use subfile_data_service.Subfile.Types.{ChunkFileMeta, Subfile}
use subfile_data_service.Subfile.ChunkFiles.{chunk_rounds}

-- (operator, indexer_url)
abbrev pub IndexerEndpoint : Type 0
IndexerEndpoint = Bytes × Bytes

pub record SubfileDownloader : Type 0 where
  pub ipfs_hash : Bytes
  pub subfile : Subfile
  pub static_endpoints : List Bytes
  pub output_dir : Bytes
  pub free_query_auth_token : Option Bytes
  pub indexer_urls : List IndexerEndpoint
  pub indexer_blocklist : List Bytes
  pub target_chunks : HashMap (List ℕ)
  pub chunk_max_retry : ℕ

-- `HashSet<String>::contains`
unfoldable pub contains : Bytes → List Bytes → Bool
contains x [] = false
contains x (y ∷ ys) = bytes_eq y x || contains x ys

unfoldable pub update_indexer_urls : List IndexerEndpoint → SubfileDownloader → SubfileDownloader
update_indexer_urls endpoints self = record self { indexer_urls = endpoints }

-- `HashSet<String>::insert`
unfoldable pub insert_url : Bytes → List Bytes → List Bytes
unfolding contains
insert_url url urls = if contains url urls then urls else url ∷ urls

unfoldable pub add_to_indexer_blocklist : Bytes → SubfileDownloader → SubfileDownloader
unfolding insert_url
add_to_indexer_blocklist endpoint self = record self {
  indexer_blocklist = insert_url endpoint self.indexer_blocklist;
}

-- `HashSet<u64>`: `contains`, `insert` and `remove`
unfoldable pub has_chunk : ℕ → List ℕ → Bool
has_chunk i [] = false
has_chunk i (j ∷ js) = j == i || has_chunk i js

unfoldable pub insert_chunk : ℕ → List ℕ → List ℕ
unfolding has_chunk
insert_chunk i chunks = if has_chunk i chunks then chunks else i ∷ chunks

unfoldable pub remove_chunk : ℕ → List ℕ → List ℕ
remove_chunk i [] = []
remove_chunk i (j ∷ js) = let rest = remove_chunk i js in if j == i then rest else j ∷ rest

-- `for i in 0..n { chunks_set.insert(i) }`, from `i` on
unfoldable pub insert_range : (rounds i : ℕ) → List ℕ → List ℕ
unfolding insert_chunk
insert_range zero i chunks = chunks
insert_range (suc rounds) i chunks = insert_range rounds (i + 1) (insert_chunk i chunks)

-- `get(..).unwrap_or_default()`, which `entry(..).or_default()` reads too
unfoldable pub chunks_at : Bytes → HashMap (List ℕ) → List ℕ
chunks_at hash m = elim (get hash m) [ none ↦ [] | some chunks ↦ chunks ]

unfoldable pub target_files :
    Build → List ChunkFileMeta → HashMap (List ℕ) → Result (HashMap (List ℕ))
unfolding chunks_at
target_files build [] targets = ok targets
target_files build (meta ∷ files) targets = do
  rounds ← chunk_rounds build meta.chunk_file
  target_files build files (
      insert meta.meta_info.hash (insert_range rounds 0 (chunks_at meta.meta_info.hash targets))
        targets)

-- `SubfileDownloader::target_chunks`
unfoldable pub target_chunks : Build → Subfile → SubfileDownloader → Result SubfileDownloader
target_chunks build subfile self = do
  targets ← target_files build subfile.chunk_files self.target_chunks
  ok (record self { target_chunks = targets })

unfoldable pub remaining_chunks : Bytes → SubfileDownloader → List ℕ
remaining_chunks chunk_file_hash self = chunks_at chunk_file_hash self.target_chunks
