-- ===== src/Client/DownloadSubfile/Complete.antt =====
-- The invariant of a download of a whole subfile, and what a successful one has written.
use mathlib.Core.Path.{subst}
use subfile_data_service.Prelude.{
  some-injective, ℕ, suc, Bytes, List, [], ◌∷◌, ◌++◌, ◌<◌, ◌≤◌, some, none, ◌≡◌, ◌≢◌, refl, sym, ap,
  ◌∙◌, arith, length, get_elem?, get_elem?-lt, ℕ_discrete, dec_lt,
}
use subfile_data_service.Errors.{Error}
use subfile_data_service.HashMap.{get}
use subfile_data_service.Rust.Result.{ok}
use subfile_data_service.Rust.Words.{Build}
use subfile_data_service.Subfile.Hasher.{Digest, CollisionFree}
use subfile_data_service.Subfile.Types.{ChunkFileMeta}
use subfile_data_service.Client.Targets.{SubfileDownloader, chunks_at}
use subfile_data_service.Client.Rounds.{Download, Step}
use subfile_data_service.Client.DownloadSubfile.{
  World, Main, at_file, in_rounds, ended, State, Move, task, opened, not_opened, completed,
  not_requested, not_joined, request_aborted, task_aborted, returned, Moves, no_move, and_then,
  output_path, view, update, created, conclude,
}
use subfile_data_service.Client.DownloadSubfile.Views.{Apart, SameAt, update-SameAt, created-SameAt}
use subfile_data_service.Client.DownloadSubfile.Files.{
  IsPublished, IsFresh, IsLive, IsDone, SameAt-IsFresh, SameAt-IsLive, SameAt-IsDone,
  created-IsLive, update-IsLive, update-IsDone,
}

module _ (build : Build) (d : Digest) (free : CollisionFree d) (print : List Error → Bytes)
    (self : SubfileDownloader) (content : ChunkFileMeta → Bytes)
    (each : (k : ℕ) (meta : ChunkFileMeta)
      → get_elem? self.subfile.chunk_files k ≡ some meta
      → IsPublished d (content meta) meta)
    (apart : (j k : ℕ) (a b : ChunkFileMeta)
      → get_elem? self.subfile.chunk_files j ≡ some a
      → get_elem? self.subfile.chunk_files k ≡ some b
      → j ≢ k
      → Apart self a b) where
  abbrev pub IsAt : ℕ → ChunkFileMeta → Type 0
  IsAt k meta = get_elem? self.subfile.chunk_files k ≡ some meta

  same_file : (j k : ℕ) (a b : ChunkFileMeta) → IsAt j a → IsAt k b → j ≡ k → a ≡ b
  same_file j k a b at_j at_k e =
      some-injective (sym at_j ∙ ap (get_elem? self.subfile.chunk_files) e ∙ at_k)

  -- The files from `k` on are still to come.
  abbrev pub AreFresh : ℕ → World → Type 0
  AreFresh k w =
      (j : ℕ) (meta : ChunkFileMeta) (found : IsAt j meta)
      → k ≤ j
      → IsFresh build d free self meta (content meta) (each j meta found) w

  abbrev pub AreDone : ℕ → World → Type 0
  AreDone k w =
      (j : ℕ) (meta : ChunkFileMeta) (found : IsAt j meta)
      → j < k
      → IsDone build d free self meta (content meta) (each j meta found) w

  abbrev pub IsCurrent : ℕ → World → Type 0
  IsCurrent k w =
      (meta : ChunkFileMeta) (found : IsAt k meta)
      → IsLive build d free self meta (content meta) (each k meta found) w

  abbrev pub Good : Main → World → Type 0
  Good (at_file k es) w = AreFresh k w × (es ≡ [] → AreDone k w)
  Good (in_rounds k es) w = AreFresh (suc k) w × IsCurrent k w × (es ≡ [] → AreDone k w)
  Good (ended r) w = r ≡ ok tt → AreDone (length self.subfile.chunk_files) w

  -- A step of a task for the file at `k`.
  module _ (w : World) (k : ℕ) (meta : ChunkFileMeta) (file : Bytes) (s : Download)
      (here : IsAt k meta) (there : get (output_path self meta) w.outputs ≡ some file)
      (step : Step build d self meta (view self meta w) s) where
    abbrev w' : World
    w' = update self meta s w

    abbrev step_at : (a : ChunkFileMeta) → meta ≡ a → Step build d self a (view self a w) s
    step_at a e = subst (λ m. Step build d self m (view self m w) s) e step

    other : (j : ℕ) (a : ChunkFileMeta) → IsAt j a → j ≢ k → SameAt self a w w'
    other j a at_j ne = update-SameAt self meta a s w (apart k j meta a here at_j (λ e. ne (sym e)))

    task-AreFresh : (from : ℕ) → AreFresh from w → AreFresh from w'
    task-AreFresh from fresh j a at_j le = elim (ℕ_discrete j k) [
      | yes e ↦
          let f = fresh j a at_j le in
          let same = same_file j k a meta at_j here e in
          let none_there : get (output_path self meta) w.outputs ≡ none =
            subst (λ m. get (output_path self m) w.outputs ≡ none) same f.not_created in
          let clash : none ≡ some file = sym none_there ∙ there in absurd cc
      | no ne ↦
          SameAt-IsFresh build d free self a (content a) (each j a at_j) w w' (other j a at_j ne)
            (fresh j a at_j le)
    ]

    task-IsLive :
        (j : ℕ) (a : ChunkFileMeta) (at_j : IsAt j a)
        → IsLive build d free self a (content a) (each j a at_j) w
        → IsLive build d free self a (content a) (each j a at_j) w'
    task-IsLive j a at_j live = elim (ℕ_discrete j k) [
      | yes e ↦
          let same = sym (same_file j k a meta at_j here e) in
          subst (λ m. IsLive build d free self a (content a) (each j a at_j) (update self m s w))
            (sym same)
            (update-IsLive build d free self a (content a) (each j a at_j) w s (step_at a same)
              live)
      | no ne ↦
          SameAt-IsLive build d free self a (content a) (each j a at_j) w w' (other j a at_j ne)
            live
    ]

    task-AreDone : (to : ℕ) → AreDone to w → AreDone to w'
    task-AreDone to done j a at_j lt = elim (ℕ_discrete j k) [
      | yes e ↦
          let same = sym (same_file j k a meta at_j here e) in
          subst (λ m. IsDone build d free self a (content a) (each j a at_j) (update self m s w))
            (sym same)
            (update-IsDone build d free self a (content a) (each j a at_j) w s (step_at a same)
              (done j a at_j lt))
      | no ne ↦
          SameAt-IsDone build d free self a (content a) (each j a at_j) w w' (other j a at_j ne)
            (done j a at_j lt)
    ]

    task-Good : (main : Main) → Good main w → Good main w'
    task-Good (at_file j es) (fresh, done) = (task-AreFresh j fresh, λ e. task-AreDone j (done e))
    task-Good (in_rounds j es) (fresh, live, done) = (
      task-AreFresh (suc j) fresh,
      λ a at_j. task-IsLive j a at_j (live a at_j),
      λ e. task-AreDone j (done e),
    )
    task-Good (ended r) done = λ e. task-AreDone (length self.subfile.chunk_files) (done e)

  opened-Good :
      (k : ℕ) (es : List Error) (w : World) (meta : ChunkFileMeta)
      → IsAt k meta
      → Good (at_file k es) w
      → Good (in_rounds k es) (created self meta w)
  opened-Good k es w meta here (fresh, done) = (
    λ j a at_j le.
        SameAt-IsFresh build d free self a (content a) (each j a at_j) w (created self meta w)
          (created-SameAt self meta a w (apart k j meta a here at_j (omega arith)))
          (fresh j a at_j (omega arith)),
    λ a at_k.
        subst (λ m. IsLive build d free self a (content a) (each k a at_k) (created self m w))
          (same_file k k a meta at_k here refl)
          (created-IsLive build d free self a (content a) (each k a at_k) w
            (fresh k a at_k (omega arith))),
    λ e j a at_j lt.
        SameAt-IsDone build d free self a (content a) (each j a at_j) w (created self meta w)
          (created-SameAt self meta a w (apart k j meta a here at_j (omega arith)))
          (done e j a at_j lt),
  )

  completed-Good :
      (k : ℕ) (es : List Error) (w : World) (meta : ChunkFileMeta)
      → IsAt k meta
      → chunks_at meta.meta_info.hash w.target_chunks ≡ []
      → Good (in_rounds k es) w
      → Good (at_file (suc k) es) w
  completed-Good k es w meta here no_more (fresh, live, done) = (
    fresh,
    λ e j a at_j lt. elim (dec_lt j k) [
      | yes before ↦ done e j a at_j before
      | no last ↦
          let at : j ≡ k = omega arith in
          let same = same_file k j meta a here at_j (sym at) in
          record {
            live =
                subst (λ i. (f : IsAt i a) → IsLive build d free self a (content a) (each i a f) w)
                  (sym at) (live a) at_j;
            no_more =
                subst (λ (m : ChunkFileMeta). chunks_at m.meta_info.hash w.target_chunks ≡ []) same
                  no_more;
          }
    ],
  )

  failed-Good :
      (k : ℕ) (es : List Error) (e : Error) (w : World)
      → Good (in_rounds k es) w
      → Good (at_file (suc k) (es ++ e ∷ [])) w
  failed-Good k [] e w (fresh, live, done) = (fresh, λ h. cc)
  failed-Good k (x ∷ es) e w (fresh, live, done) = (fresh, λ h. cc)

  returned-Good :
      (k : ℕ) (es : List Error) (w : World)
      → get_elem? self.subfile.chunk_files k ≡ none
      → Good (at_file k es) w
      → Good (ended (conclude print es)) w
  unfolding conclude
  returned-Good k [] w at_end (fresh, done) = λ e j a at_j lt.
      elim (dec_lt k (length self.subfile.chunk_files)) [
        | yes more ↦
            let (m, found) = get_elem?-lt self.subfile.chunk_files k more in
            let clash : none ≡ some m = sym at_end ∙ found in absurd cc
        | no ge ↦ done refl j a at_j (omega arith)
      ]
  returned-Good k (x ∷ es) w at_end (fresh, done) = λ e. cc

  Move-Good :
      {s t : State} → Move build d print self s t → Good s.main s.world → Good t.main t.world
  Move-Good (task main w k meta file s here there step) g =
      task-Good w k meta file s here there step main g
  Move-Good (opened k es w meta here) g = opened-Good k es w meta here g
  Move-Good (not_opened k es w meta here) g = λ e. cc
  Move-Good (completed k es w meta here no_more) g = completed-Good k es w meta here no_more g
  Move-Good (not_requested k es w meta i choose e here waits failed) g = failed-Good k es e w g
  Move-Good (not_joined k es w message) g = failed-Good k es _ w g
  Move-Good (request_aborted k es w meta i choose here waits aborted) g = λ e. cc
  Move-Good (task_aborted main w k meta file file' i choose req send outcome here there made ran)
        g =
      λ e. cc
  Move-Good (returned k es w at_end) g = returned-Good k es w at_end g

  pub Moves-Good :
      {s t : State} → Good s.main s.world → Moves build d print self s t → Good t.main t.world
  Moves-Good g no_move = g
  Moves-Good g (and_then ms m) = Move-Good m (Moves-Good g ms)
