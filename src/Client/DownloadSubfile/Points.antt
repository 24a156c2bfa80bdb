-- ===== src/Client/DownloadSubfile/Points.antt =====
-- What holds at every point of a download: nothing is to come that was not at its start, and the file
-- whose rounds run has an output file.
use subfile_data_service.Prelude.{
  ℕ, Bytes, bytes_eq, bytes_eq_iff, List, [], true, ◌==◌, Bool-cases, inl, inr, some, if◌then◌else◌,
  ◌≡◌, refl, sym, ap, ◌∙◌, get_elem?,
}
use mathlib.Core.Path.{subst}
use subfile_data_service.Errors.{Error}
use subfile_data_service.HashMap.{get, insert}
use subfile_data_service.HashMap.Laws.{get-insert}
use subfile_data_service.Client.DownloadSubfile.Views.{get-insert_same}
use subfile_data_service.Rust.Words.{Build}
use subfile_data_service.Subfile.Hasher.{Digest}
use subfile_data_service.Subfile.Types.{ChunkFileMeta}
use subfile_data_service.Client.Targets.{SubfileDownloader, has_chunk, remove_chunk, chunks_at}
use subfile_data_service.Client.Targets.All.{chunks_at-insert}
use subfile_data_service.Client.Rounds.{Download, Step, transferred, finished, failed}
use subfile_data_service.Client.Rounds.Complete.{has_chunk-remove}
use subfile_data_service.Client.DownloadSubfile.{
  World, Main, at_file, in_rounds, ended, State, Move, task, opened, not_opened, completed,
  not_requested, not_joined, request_aborted, task_aborted, returned, Moves, no_move, and_then,
  begin, view, update, output_path,
}

pub removed_before :
    (i j : ℕ) (chunks : List ℕ)
    → has_chunk j (remove_chunk i chunks) ≡ true
    → has_chunk j chunks ≡ true
removed_before i j chunks e = elim (Bool-cases (i == j)) [
  | inl same ↦ absurd cc (rw (has_chunk-remove i j chunks, same) at e)
  | inr other ↦ rw (has_chunk-remove i j chunks, other) at e
]

module _ (build : Build) (d : Digest) (print : List Error → Bytes) (self : SubfileDownloader) where
  -- No chunk is to come that was not at the start.
  abbrev pub IsWithin : World → Type 0
  IsWithin w =
      (hash : Bytes) (i : ℕ)
      → has_chunk i (chunks_at hash w.target_chunks) ≡ true
      → has_chunk i (chunks_at hash self.target_chunks) ≡ true

  pub insert-IsWithin :
      (hash : Bytes) (chunks : List ℕ) (w w' : World)
      → w'.target_chunks ≡ insert hash chunks w.target_chunks
      → ((i : ℕ) → has_chunk i chunks ≡ true → has_chunk i (chunks_at hash w.target_chunks) ≡ true)
      → IsWithin w
      → IsWithin w'
  insert-IsWithin hash chunks w w' same fewer within h i e =
      let looked : chunks_at h w'.target_chunks
          ≡ (if bytes_eq hash h then chunks else chunks_at h w.target_chunks) =
        ap (chunks_at h) same ∙ chunks_at-insert hash h chunks w.target_chunks in
      elim (Bool-cases (bytes_eq hash h)) [
        | inl eq ↦
            let own : chunks_at h w'.target_chunks ≡ chunks = looked ∙ rw eq refl in
            within h i (
              subst (λ x. has_chunk i (chunks_at x w.target_chunks) ≡ true)
                ((bytes_eq_iff hash h).0 eq) (fewer i (ap (has_chunk i) (sym own) ∙ e)))
        | inr ne ↦
            let other : chunks_at h w'.target_chunks ≡ chunks_at h w.target_chunks =
              looked ∙ rw ne refl in
            within h i (ap (has_chunk i) (sym other) ∙ e)
      ]

  -- A task's step takes chunks off and adds none.
  step-fewer :
      (meta : ChunkFileMeta) (s t : Download) (i : ℕ)
      → Step build d self meta s t
      → has_chunk i t.remaining ≡ true
      → has_chunk i s.remaining ≡ true
  step-fewer meta s t i (transferred _ j choose req send outcome file waits made ran) there = there
  step-fewer meta s t i (finished _ j stored) there = removed_before j i s.remaining there
  step-fewer meta s t i (failed _ j choose req send outcome file e waits made ran) there = there

  -- There is a file at `k`, and its output file is there.
  abbrev pub IsCreated : ℕ → World → Type 0
  IsCreated k w =
      (meta : ChunkFileMeta) × (get_elem? self.subfile.chunk_files k ≡ some meta)
      × (file : Bytes) × (get (output_path self meta) w.outputs ≡ some file)

  insert-IsCreated :
      (k : ℕ) (path file : Bytes) (w w' : World)
      → w'.outputs ≡ insert path file w.outputs
      → IsCreated k w
      → IsCreated k w'
  insert-IsCreated k path file w w' same (meta, found, old, before) =
      let looked =
        ap (get (output_path self meta)) same
        ∙ get-insert path (output_path self meta) file w.outputs in
      elim (Bool-cases (bytes_eq path (output_path self meta))) [
        | inl own ↦ (meta, found, file, looked ∙ rw own refl)
        | inr other ↦ (meta, found, old, looked ∙ (rw other refl) ∙ before)
      ]

  abbrev pub HasOutput : State → Type 0
  HasOutput s = elim s.main [
    | at_file k es ↦ Unit
    | in_rounds k es ↦ IsCreated k s.world
    | ended r ↦ Unit
  ]

  abbrev pub IsPoint : State → Type 0
  IsPoint s = IsWithin s.world × HasOutput s

  update-HasOutput :
      (main : Main) (meta : ChunkFileMeta) (s : Download) (w : World)
      → HasOutput (record { main = main; world = w })
      → HasOutput (record { main = main; world = update self meta s w })
  update-HasOutput (at_file k es) meta s w there = tt
  update-HasOutput (in_rounds k es) meta s w there =
      insert-IsCreated k (output_path self meta) s.file w (update self meta s w) refl there
  update-HasOutput (ended r) meta s w there = tt

  Move-IsPoint : (s t : State) → Move build d print self s t → IsPoint s → IsPoint t
  Move-IsPoint s t (task main w k meta file s' f g step) (within, there) = (
    insert-IsWithin meta.meta_info.hash s'.remaining w (update self meta s' w) refl
        (λ i h. step-fewer meta (view self meta w) s' i step h) within,
    update-HasOutput main meta s' w there,
  )
  Move-IsPoint s t (opened k es w meta f) (within, there) =
      (within, (meta, f, [], get-insert_same (output_path self meta) [] w.outputs))
  Move-IsPoint s t (not_opened k es w meta f) (within, there) = (within, tt)
  Move-IsPoint s t (completed k es w meta f g) (within, there) = (within, tt)
  Move-IsPoint s t (not_requested k es w meta i choose e f g h) (within, there) = (within, tt)
  Move-IsPoint s t (not_joined k es w message) (within, there) = (within, tt)
  Move-IsPoint s t (request_aborted k es w meta i choose f g h) (within, there) = (within, tt)
  Move-IsPoint s t (task_aborted main w k meta file file' i choose req send outcome f g h e)
        (within, there) =
      (within, tt)
  Move-IsPoint s t (returned k es w f) (within, there) = (within, tt)

  pub Moves-IsPoint : (s : State) → Moves build d print self (begin self) s → IsPoint s
  Moves-IsPoint s no_move = (λ hash i h. h, tt)
  Moves-IsPoint s (and_then {t} m step) = Move-IsPoint t s step (Moves-IsPoint t m)
