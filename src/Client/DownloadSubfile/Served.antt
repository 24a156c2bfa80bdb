-- ===== src/Client/DownloadSubfile/Served.antt =====
-- Chunks that are served, and going on with transfers of a given kind.
use subfile_data_service.Prelude.{ℕ, Bytes, List, [], Option, ◌≡◌}
use subfile_data_service.Errors.{Error}
use subfile_data_service.Rust.Result.{ok, Io}
use subfile_data_service.Rust.Words.{Build}
use subfile_data_service.Subfile.Hasher.{Digest}
use subfile_data_service.Subfile.Types.{ChunkFileMeta}
use subfile_data_service.Client.Targets.{IndexerEndpoint, SubfileDownloader}
use subfile_data_service.Client.Request.{
  DownloadRangeRequest, GetRequest, GetResponse, download_range_request,
}
use subfile_data_service.Client.Transfer.{WriteOutcome, download_chunk_and_write_to_file}
use subfile_data_service.Client.DownloadSubfile.{
  Main, at_file, in_rounds, ended, State, Move, Moves, no_move, and_then,
}
use subfile_data_service.Client.DownloadSubfile.Uses.{
  Circumstance, MoveUses, Uses, join_moves, Uses-join,
}

-- The download goes on, and no file has failed yet.
abbrev pub NoneIncomplete : Main → Type 0
NoneIncomplete (at_file k es) = es ≡ []
NoneIncomplete (in_rounds k es) = es ≡ []
NoneIncomplete (ended r) = ⊥

module _ (build : Build) (d : Digest) (print : List Error → Bytes) (self : SubfileDownloader)
    (P : Circumstance) where
  -- Some request for the chunk is made, and its transfer, of the kind `P`, stores it, whatever the
  -- file holds.
  pub record IsServed (meta : ChunkFileMeta) (i : ℕ) : Type 0 where
    pub choose : List IndexerEndpoint → Option IndexerEndpoint
    pub req : DownloadRangeRequest
    pub send : ℕ → GetRequest → Io GetResponse
    pub outcome : WriteOutcome
    pub allowed : P choose send outcome
    pub made : download_range_request build choose self meta i ≡ ok req
    pub stores :
        (file : Bytes)
        → (file' : Bytes) × (download_chunk_and_write_to_file d send outcome req file
            ≡ (ok tt, file'))

  -- From a state the download can go on to another, with transfers of the kind `P`.
  pub record CanReach (s t : State) : Type 0 where
    pub moves : Moves build d print self s t
    pub uses : Uses build d print self P moves

  pub stays : (s : State) → CanReach s s
  stays s = record { moves = no_move; uses = tt }

  pub goes :
      {s t u : State}
      → CanReach s t
      → (m : Move build d print self t u) → MoveUses build d print self P m
      → CanReach s u
  goes r m u = record { moves = and_then r.moves m; uses = (r.uses, u) }

  pub join : {s t u : State} → CanReach s t → CanReach t u → CanReach s u
  join a b = record {
    moves = join_moves build d print self a.moves b.moves;
    uses = Uses-join build d print self P a.moves b.moves a.uses b.uses;
  }
