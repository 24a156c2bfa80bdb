-- ===== src/Client/Rounds.antt =====
-- The tasks of `download_chunk_file`. A round spawns a task for each chunk that remains, and the
-- tasks of a round interleave: what they share, each takes under its lock, so a history of the
-- download is a sequence of the steps below, in any order.
pub mod Overwrite
pub mod Tasks
pub mod Complete
use subfile_data_service.Prelude.{
  ℕ, Bytes, List, [], ◌∷◌, Bool, true, Option, none, some, ◌≡◌, if◌then◌else◌,
}
use subfile_data_service.Errors.{Error}
use subfile_data_service.Rust.Result.{Result, ok, err, Io}
use subfile_data_service.Rust.Words.{Build}
use subfile_data_service.Subfile.Hasher.{Digest}
use subfile_data_service.Subfile.Types.{ChunkFileMeta}
use subfile_data_service.Client.Targets.{
  IndexerEndpoint, SubfileDownloader, insert_url, has_chunk, remove_chunk,
}
use subfile_data_service.Client.Request.{
  DownloadRangeRequest, GetRequest, GetResponse, download_range_request,
}
use subfile_data_service.Client.Transfer.{
  WriteOutcome, download_chunk_and_write_to_file, extract_base_url,
}

-- What the tasks for one file share: the output file, the chunks that remain and the blocklist.
-- `stored` holds the chunks whose task has written them and has not yet taken them off.
pub record Download : Type 0 where
  pub file : Bytes
  pub remaining : List ℕ
  pub stored : List ℕ
  pub blocklist : List Bytes

-- The URL that a failed task puts on the blocklist.
unfoldable pub blocked_url : Bytes → Bytes
blocked_url endpoint = elim (extract_base_url endpoint) [ none ↦ endpoint | some url ↦ url ]

module _ (build : Build) (d : Digest) (self : SubfileDownloader) (meta : ChunkFileMeta) where
  pub data Step : Download → Download → Type 0 where
    -- a task's transfer has stored the chunk
    transferred :
        (s : Download) (i : ℕ) (choose : List IndexerEndpoint → Option IndexerEndpoint)
        (req : DownloadRangeRequest) (send : ℕ → GetRequest → Io GetResponse)
        (outcome : WriteOutcome) (file : Bytes)
        → has_chunk i s.remaining ≡ true
        → download_range_request build choose self meta i ≡ ok req
        → download_chunk_and_write_to_file d send outcome req s.file ≡ (ok tt, file)
        → Step s (record s { file = file; stored = i ∷ s.stored })
    -- and takes it off the chunks that remain
    finished :
        (s : Download) (i : ℕ)
        → has_chunk i s.stored ≡ true
        → Step s (record s { remaining = remove_chunk i s.remaining })
    -- a task's transfer has failed, and its endpoint is blocked
    failed :
        (s : Download) (i : ℕ) (choose : List IndexerEndpoint → Option IndexerEndpoint)
        (req : DownloadRangeRequest) (send : ℕ → GetRequest → Io GetResponse)
        (outcome : WriteOutcome) (file : Bytes) (e : Error)
        → has_chunk i s.remaining ≡ true
        → download_range_request build choose self meta i ≡ ok req
        → download_chunk_and_write_to_file d send outcome req s.file ≡ (err e, file)
        → Step s (record s {
          file = file;
          blocklist = insert_url (blocked_url req.query_endpoint) s.blocklist;
        })

  pub data Reach (s : Download) : Download → Type 0 where
    here : Reach s s
    next : {t u : Download} → Reach s t → Step t u → Reach s u
