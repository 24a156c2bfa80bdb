-- ===== src/Client/DownloadSubfile.antt =====
-- `download_subfile` and `download_chunk_file` of subfile-exchange/src/subfile_client/mod.rs: the loop
-- over the files, beside the tasks that it spawns. A task that an early return leaves behind goes on,
-- so the steps of a task are there whatever the loop does. The loop's next test may come before the
-- tasks of a round are joined, a transfer has its own request where the source makes that of a task when
-- it spawns it, and `File::create` may succeed at any time: the steps allow more histories than the code
-- has.
pub mod Views
pub mod Files
pub mod Complete
pub mod Outcome
pub mod Idle
pub mod Repeated
pub mod Uses
pub mod Points
pub mod Served
pub mod Finishes
use subfile_data_service.Prelude.{
  ℕ, suc, Bytes, codes, List, [], ◌∷◌, ◌++◌, true, Option, none, some, ◌≡◌, get_elem?,
}
use subfile_data_service.Errors.{Error, data_unavilable}
use subfile_data_service.Rust.Result.{Result, ok, err, panic, out_of_fuel, Io, ◌>>=◌}
use subfile_data_service.Rust.Words.{Build}
use subfile_data_service.Serde.{Serde}
use subfile_data_service.HashMap.{HashMap, get, insert}
use subfile_data_service.Ipfs.{IpfsClient}
use subfile_data_service.Finder.{StatusReply}
use subfile_data_service.Subfile.Hasher.{Digest}
use subfile_data_service.Subfile.Types.{ChunkFileMeta}
use subfile_data_service.Client.Targets.{
  IndexerEndpoint, SubfileDownloader, has_chunk, chunks_at, target_chunks,
}
use subfile_data_service.Client.Request.{
  DownloadRangeRequest, GetRequest, GetResponse, download_range_request,
}
use subfile_data_service.Client.Transfer.{WriteOutcome, download_chunk_and_write_to_file}
use subfile_data_service.Client.Rounds.{Download, Step}
use subfile_data_service.Client.Check.{Prints, availbility_check}

-- What the loop and all tasks share: the output files that were created, by path, the chunks that
-- remain, by the hash of their file, and the blocklist. `stored` holds for an output file the chunks
-- whose task has written them and has not yet taken them off.
pub record World : Type 0 where
  pub outputs : HashMap Bytes
  pub target_chunks : HashMap (List ℕ)
  pub stored : HashMap (List ℕ)
  pub blocklist : List Bytes

-- `self.output_dir.clone() + "/" + &meta.meta_info.name`
abbrev pub output_path : SubfileDownloader → ChunkFileMeta → Bytes
output_path self meta = self.output_dir ++ (codes "/" ++ meta.meta_info.name)

unfoldable pub output_at : Bytes → HashMap Bytes → Bytes
output_at path outputs = elim (get path outputs) [ none ↦ [] | some file ↦ file ]

-- What the tasks of one file share, and the world after one of their steps.
abbrev pub view : SubfileDownloader → ChunkFileMeta → World → Download
view self meta w = record {
  file = output_at (output_path self meta) w.outputs;
  remaining = chunks_at meta.meta_info.hash w.target_chunks;
  stored = chunks_at (output_path self meta) w.stored;
  blocklist = w.blocklist;
}

abbrev pub update : SubfileDownloader → ChunkFileMeta → Download → World → World
update self meta s w = record {
  outputs = insert (output_path self meta) s.file w.outputs;
  target_chunks = insert meta.meta_info.hash s.remaining w.target_chunks;
  stored = insert (output_path self meta) s.stored w.stored;
  blocklist = s.blocklist;
}

-- `File::create`: the file is there and empty.
abbrev pub created : SubfileDownloader → ChunkFileMeta → World → World
created self meta w = record w { outputs = insert (output_path self meta) [] w.outputs }

-- Where the loop stands, with `incomplete_files`: before the file at a position, in the `while` of
-- `download_chunk_file` for it, or ended. A panic ends the process.
pub data Main : Type 0 where
  at_file : (k : ℕ) (incomplete_files : List Error) → Main
  in_rounds : (k : ℕ) (incomplete_files : List Error) → Main
  ended : Result (Unit {0}) → Main

pub record State : Type 0 where
  pub main : Main
  pub world : World

-- The end of `download_subfile`; `print` is `{:#?}` of a list of errors.
unfoldable pub conclude : (print : List Error → Bytes) → List Error → Result (Unit {0})
conclude print [] = ok tt
conclude print (e ∷ es) =
    err (data_unavilable (codes "Chunk files download incomplete: " ++ print (e ∷ es)))

-- The beginning of `download_subfile`: the result of the check is dropped.
unfoldable pub prepare :
    Serde
    → IpfsClient
    → (http_get : Bytes → Io StatusReply) → Prints
    → Build
    → SubfileDownloader
    → Result SubfileDownloader
prepare serde client http_get prints build self = do
  self' ← target_chunks build self.subfile self
  let checked = availbility_check serde client http_get prints self' in
      elim (checked.0) [
        | ok u ↦ ok (checked.1)
        | err e ↦ ok (checked.1)
        | panic ↦ panic
        | out_of_fuel ↦ out_of_fuel
      ]

abbrev pub begin : SubfileDownloader → State
begin self = record {
  main = at_file 0 [];
  world = record {
    outputs = [];
    target_chunks = self.target_chunks;
    stored = [];
    blocklist = self.indexer_blocklist;
  };
}

module _ (build : Build) (d : Digest) (print : List Error → Bytes) (self : SubfileDownloader) where
  pub data Move : State → State → Type 0 where
    -- a step of a task for the file at a position, whose output file was created
    task :
        (main : Main) (w : World) (k : ℕ) (meta : ChunkFileMeta) (file : Bytes) (s : Download)
        → get_elem? self.subfile.chunk_files k ≡ some meta
        → get (output_path self meta) w.outputs ≡ some file
        → Step build d self meta (view self meta w) s
        → Move
            (record { main = main; world = w })
            (record { main = main; world = update self meta s w })
    opened :
        (k : ℕ) (es : List Error) (w : World) (meta : ChunkFileMeta)
        → get_elem? self.subfile.chunk_files k ≡ some meta
        → Move
            (record { main = at_file k es; world = w })
            (record { main = in_rounds k es; world = created self meta w })
    -- `File::create(..).unwrap()`
    not_opened :
        (k : ℕ) (es : List Error) (w : World) (meta : ChunkFileMeta)
        → get_elem? self.subfile.chunk_files k ≡ some meta
        → Move
            (record { main = at_file k es; world = w })
            (record { main = ended panic; world = w })
    -- the `while` ends once no chunk remains
    completed :
        (k : ℕ) (es : List Error) (w : World) (meta : ChunkFileMeta)
        → get_elem? self.subfile.chunk_files k ≡ some meta
        → chunks_at meta.meta_info.hash w.target_chunks ≡ []
        → Move
            (record { main = in_rounds k es; world = w })
            (record { main = at_file (suc k) es; world = w })
    -- `self.download_range_request(..)?`
    not_requested :
        (k : ℕ) (es : List Error) (w : World) (meta : ChunkFileMeta) (i : ℕ)
        (choose : List IndexerEndpoint → Option IndexerEndpoint) (e : Error)
        → get_elem? self.subfile.chunk_files k ≡ some meta
        → has_chunk i (chunks_at meta.meta_info.hash w.target_chunks) ≡ true
        → download_range_request build choose self meta i ≡ err e
        → Move
            (record { main = in_rounds k es; world = w })
            (record { main = at_file (suc k) (es ++ e ∷ []); world = w })
    -- `handle.await.map_err(..)?`
    not_joined :
        (k : ℕ) (es : List Error) (w : World) (message : Bytes)
        → Move
            (record { main = in_rounds k es; world = w })
            (record { main = at_file (suc k) (es ++ data_unavilable message ∷ []); world = w })
    -- the loop panics at a request, or a task in its transfer
    request_aborted :
        (k : ℕ) (es : List Error) (w : World) (meta : ChunkFileMeta) (i : ℕ)
        (choose : List IndexerEndpoint → Option IndexerEndpoint)
        → get_elem? self.subfile.chunk_files k ≡ some meta
        → has_chunk i (chunks_at meta.meta_info.hash w.target_chunks) ≡ true
        → download_range_request build choose self meta i ≡ panic
        → Move
            (record { main = in_rounds k es; world = w })
            (record { main = ended panic; world = w })
    task_aborted :
        (main : Main) (w : World) (k : ℕ) (meta : ChunkFileMeta) (file file' : Bytes) (i : ℕ)
        (choose : List IndexerEndpoint → Option IndexerEndpoint) (req : DownloadRangeRequest)
        (send : ℕ → GetRequest → Io GetResponse) (outcome : WriteOutcome)
        → get_elem? self.subfile.chunk_files k ≡ some meta
        → get (output_path self meta) w.outputs ≡ some file
        → download_range_request build choose self meta i ≡ ok req
        → download_chunk_and_write_to_file d send outcome req file ≡ (panic, file')
        → Move (record { main = main; world = w }) (record { main = ended panic; world = w })
    returned :
        (k : ℕ) (es : List Error) (w : World)
        → get_elem? self.subfile.chunk_files k ≡ none
        → Move
            (record { main = at_file k es; world = w })
            (record { main = ended (conclude print es); world = w })

  pub data Moves (s : State) : State → Type 0 where
    no_move : Moves s s
    and_then : {t u : State} → Moves s t → Move t u → Moves s u
