-- ===== src/Client/DownloadSubfile/Uses.antt =====
-- The network and the choices that a history of the download makes use of.
use subfile_data_service.Prelude.{ℕ, Bytes, List, Option}
use subfile_data_service.Errors.{Error}
use subfile_data_service.Rust.Result.{Io}
use subfile_data_service.Rust.Words.{Build}
use subfile_data_service.Subfile.Hasher.{Digest}
use subfile_data_service.Subfile.Types.{ChunkFileMeta}
use subfile_data_service.Client.Targets.{IndexerEndpoint, SubfileDownloader}
use subfile_data_service.Client.Request.{GetRequest, GetResponse}
use subfile_data_service.Client.Transfer.{WriteOutcome}
use subfile_data_service.Client.Rounds.{Download, Step, transferred, finished, failed}
use subfile_data_service.Client.DownloadSubfile.{
  State, Move, task, opened, not_opened, completed, not_requested, not_joined, request_aborted,
  task_aborted, returned, Moves, no_move, and_then,
}

-- What a transfer is given: the choice of an endpoint, the network at each attempt, and the write.
abbrev pub Circumstance : Type 1
Circumstance =
    (choose : List IndexerEndpoint → Option IndexerEndpoint)
    (send : ℕ → GetRequest → Io GetResponse) (outcome : WriteOutcome)
    → Type 0

module _ (build : Build) (d : Digest) (print : List Error → Bytes) (self : SubfileDownloader) where
  abbrev pub join_moves :
      {s t u : State}
      → Moves build d print self s t
      → Moves build d print self t u
      → Moves build d print self s u
  join_moves m no_move = m
  join_moves m (and_then n step) = and_then (join_moves m n) step

  -- Every transfer of a history is of the kind `P`.
  module _ (P : Circumstance) where
    abbrev pub StepUses :
        {meta : ChunkFileMeta} {s t : Download} → Step build d self meta s t → Type 0
    StepUses (transferred s i choose req send outcome file waits made ran) = P choose send outcome
    StepUses (finished s i there) = Unit
    StepUses (failed s i choose req send outcome file e waits made ran) = P choose send outcome

    abbrev pub MoveUses : {s t : State} → Move build d print self s t → Type 0
    MoveUses (task main w k meta file s f g step) = StepUses step
    MoveUses (opened k es w meta f) = Unit
    MoveUses (not_opened k es w meta f) = Unit
    MoveUses (completed k es w meta f g) = Unit
    MoveUses (not_requested k es w meta i choose e f g h) = Unit
    MoveUses (not_joined k es w message) = Unit
    MoveUses (request_aborted k es w meta i choose f g h) = Unit
    MoveUses (task_aborted main w k meta file file' i choose req send outcome f g h e) =
        P choose send outcome
    MoveUses (returned k es w f) = Unit

    abbrev pub Uses : {s t : State} → Moves build d print self s t → Type 0
    Uses no_move = Unit
    Uses (and_then m step) = Uses m × MoveUses step

    pub Uses-join :
        {s t u : State} (m : Moves build d print self s t) (n : Moves build d print self t u)
        → Uses m
        → Uses n
        → Uses (join_moves m n)
    Uses-join m no_move um un = um
    Uses-join m (and_then n step) um un = (Uses-join m n um un.0, un.1)
