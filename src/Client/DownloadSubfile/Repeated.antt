-- ===== src/Client/DownloadSubfile/Repeated.antt =====
-- Two files of a subfile with the same hash: they share their set of remaining chunks, so that none
-- remains for the second one once the loop has completed the first.
use subfile_data_service.Prelude.{
  some-injective, ℕ, suc, Bytes, List, [], ◌∷◌, ◌<◌, ◌≤◌, some, none, ◌≡◌, ◌≢◌, refl, sym, ap, ◌∙◌,
  arith, length, get_elem?, get_elem?-lt, get_elem?-ge, ℕ_discrete, dec_lt,
}
use subfile_data_service.Errors.{Error}
use subfile_data_service.HashMap.{get}
use subfile_data_service.Rust.Result.{ok}
use subfile_data_service.Rust.Words.{Build}
use subfile_data_service.Subfile.Hasher.{Digest}
use subfile_data_service.Subfile.Types.{ChunkFileMeta}
use subfile_data_service.Client.Targets.{SubfileDownloader, chunks_at}
use subfile_data_service.Client.Rounds.{Download, Step}
use subfile_data_service.Client.DownloadSubfile.{
  World, Main, at_file, in_rounds, ended, State, Move, task, opened, not_opened, completed,
  not_requested, not_joined, request_aborted, task_aborted, returned, Moves, no_move, and_then,
  begin, output_path, view, update, created, conclude,
}
use subfile_data_service.Client.DownloadSubfile.Idle.{Step-idle, update-none_remain}
use subfile_data_service.Client.DownloadSubfile.Views.{get-insert_same, get-insert_other, view-file}

module _ (build : Build) (d : Digest) (print : List Error → Bytes) (self : SubfileDownloader)
    (j k : ℕ) (a b : ChunkFileMeta) (at_j : get_elem? self.subfile.chunk_files j ≡ some a)
    (at_k : get_elem? self.subfile.chunk_files k ≡ some b) (before : j < k)
    (same_hash : a.meta_info.hash ≡ b.meta_info.hash)
    (own_path : (m : ℕ) (c : ChunkFileMeta)
      → get_elem? self.subfile.chunk_files m ≡ some c
      → m ≢ k
      → output_path self c ≢ output_path self b) where
  -- The loop has created the files below `at`, and completed those below `to`.
  record Facts (at to : ℕ) (w : World) : Type 0 where
    close : at ≤ suc to
    not_created : at ≤ k → get (output_path self b) w.outputs ≡ none
    no_more : j < to → chunks_at b.meta_info.hash w.target_chunks ≡ []
    left_empty : k < at → get (output_path self b) w.outputs ≡ some []

  abbrev Good : Main → World → Type 0
  Good (at_file m es) w = es ≡ [] → Facts m m w
  Good (in_rounds m es) w = es ≡ [] → Facts (suc m) m w
  Good (ended r) w = r ≡ ok tt → Facts (suc k) k w

  is_at_k :
      (m : ℕ) (c : ChunkFileMeta) → get_elem? self.subfile.chunk_files m ≡ some c → m ≡ k → c ≡ b
  is_at_k m c at_m e = some-injective (sym at_m ∙ ap (get_elem? self.subfile.chunk_files) e ∙ at_k)

  -- A task of the second file finds it created, so none of its chunks remains: the file is as it was.
  task-left_empty :
      (at to m : ℕ) (c : ChunkFileMeta) (w : World) (file : Bytes) (s : Download)
      → get_elem? self.subfile.chunk_files m ≡ some c
      → get (output_path self c) w.outputs ≡ some file
      → Step build d self c (view self c w) s
      → Facts at to w
      → k < at
      → get (output_path self b) (update self c s w).outputs ≡ some []
  task-left_empty at to m c w file s here there step f past = elim (ℕ_discrete m k) [
    | yes e ↦
        let same = is_at_k m c here e in
        let empty : (view self c w).file ≡ [] =
          view-file self c w []
            (ap (λ x. get (output_path self x) w.outputs) same ∙ f.left_empty past) in
        let idle : chunks_at c.meta_info.hash w.target_chunks ≡ [] =
          ap (λ (x : ChunkFileMeta). chunks_at x.meta_info.hash w.target_chunks) same
          ∙ f.no_more (omega (arith, f.close)) in
        ap (λ x. get (output_path self x) (update self c s w).outputs) (sym same)
        ∙ get-insert_same (output_path self c) s.file w.outputs
        ∙ ap some ((Step-idle build d self c (view self c w) s step idle).1 ∙ empty)
    | no ne ↦
        get-insert_other (output_path self c) (output_path self b) s.file w.outputs
          (own_path m c here ne)
        ∙ f.left_empty past
  ]

  task-not_created :
      (at to m : ℕ) (c : ChunkFileMeta) (w : World) (file : Bytes) (s : Download)
      → get_elem? self.subfile.chunk_files m ≡ some c
      → get (output_path self c) w.outputs ≡ some file
      → Facts at to w
      → at ≤ k
      → get (output_path self b) (update self c s w).outputs ≡ none
  task-not_created at to m c w file s here there f le = elim (ℕ_discrete m k) [
    | yes e ↦
        let clash : none ≡ some file =
          sym (f.not_created le)
          ∙ ap (λ x. get (output_path self x) w.outputs) (sym (is_at_k m c here e))
          ∙ there in
        absurd cc
    | no ne ↦
        get-insert_other (output_path self c) (output_path self b) s.file w.outputs
          (own_path m c here ne)
        ∙ f.not_created le
  ]

  task-Facts :
      (at to m : ℕ) (c : ChunkFileMeta) (w : World) (file : Bytes) (s : Download)
      → get_elem? self.subfile.chunk_files m ≡ some c
      → get (output_path self c) w.outputs ≡ some file
      → Step build d self c (view self c w) s
      → Facts at to w
      → Facts at to (update self c s w)
  task-Facts at to m c w file s here there step f = record {
    close = f.close;
    not_created = task-not_created at to m c w file s here there f;
    no_more = λ lt. update-none_remain build d self c b.meta_info.hash w s step (f.no_more lt);
    left_empty = task-left_empty at to m c w file s here there step f;
  }

  opened-Facts :
      (m : ℕ) (c : ChunkFileMeta) (w : World)
      → get_elem? self.subfile.chunk_files m ≡ some c
      → Facts m m w
      → Facts (suc m) m (created self c w)
  opened-Facts m c w here f = record {
    close = omega arith;
    not_created = λ le. others (omega arith) ∙ f.not_created (omega arith);
    no_more = f.no_more;
    left_empty = λ lt. elim (ℕ_discrete m k) [
      | yes e ↦
          ap (λ x. get (output_path self x) (created self c w).outputs) (sym (is_at_k m c here e))
          ∙ get-insert_same (output_path self c) [] w.outputs
      | no ne ↦ others ne ∙ f.left_empty (omega arith)
    ];
  }
    where
      others :
          m ≢ k
          → get (output_path self b) (created self c w).outputs ≡ get (output_path self b) w.outputs
      others ne =
          get-insert_other (output_path self c) (output_path self b) [] w.outputs
            (own_path m c here ne)

  completed-Facts :
      (m : ℕ) (c : ChunkFileMeta) (w : World)
      → get_elem? self.subfile.chunk_files m ≡ some c
      → chunks_at c.meta_info.hash w.target_chunks ≡ []
      → Facts (suc m) m w
      → Facts (suc m) (suc m) w
  completed-Facts m c w here none_left f = record {
    close = omega arith;
    not_created = f.not_created;
    no_more = λ lt. elim (ℕ_discrete m j) [
      | yes e ↦
          let same : c ≡ a =
            some-injective (sym here ∙ ap (get_elem? self.subfile.chunk_files) e ∙ at_j) in
          let hashes : c.meta_info.hash ≡ b.meta_info.hash =
            ap (λ (x : ChunkFileMeta). x.meta_info.hash) same ∙ same_hash in
          ap (λ h. chunks_at h w.target_chunks) (sym hashes) ∙ none_left
      | no ne ↦ f.no_more (omega arith)
    ];
    left_empty = f.left_empty;
  }

  returned-Good :
      (m : ℕ) (es : List Error) (w : World)
      → get_elem? self.subfile.chunk_files m ≡ none
      → Good (at_file m es) w
      → Good (ended (conclude print es)) w
  unfolding conclude
  returned-Good m [] w at_end g = λ e. elim (dec_lt k m) [
    | yes past ↦
        let f = g refl in
        record {
          close = omega arith;
          not_created = λ le. absurd (omega arith);
          no_more = λ lt. f.no_more (omega arith);
          left_empty = λ lt. f.left_empty past;
        }
    | no le ↦ absurd (in_list (omega arith))
  ]
    where
      in_list : m ≤ k → ⊥
      in_list le = elim (dec_lt m (length self.subfile.chunk_files)) [
        | yes more ↦
            let (c, found) = get_elem?-lt self.subfile.chunk_files m more in
            let clash : none ≡ some c = sym at_end ∙ found in cc
        | no out ↦
            let clash : none ≡ some b =
              sym (get_elem?-ge self.subfile.chunk_files k (omega arith)) ∙ at_k in
            cc
      ]
  returned-Good m (x ∷ es) w at_end g = λ e. cc

  task-Good :
      (main : Main) (m : ℕ) (c : ChunkFileMeta) (w : World) (file : Bytes) (s : Download)
      → get_elem? self.subfile.chunk_files m ≡ some c
      → get (output_path self c) w.outputs ≡ some file
      → Step build d self c (view self c w) s
      → Good main w
      → Good main (update self c s w)
  task-Good (at_file n es) m c w file s here there step g =
      λ e. task-Facts n n m c w file s here there step (g e)
  task-Good (in_rounds n es) m c w file s here there step g =
      λ e. task-Facts (suc n) n m c w file s here there step (g e)
  task-Good (ended r) m c w file s here there step g =
      λ e. task-Facts (suc k) k m c w file s here there step (g e)

  Move-Good :
      {s t : State} → Move build d print self s t → Good s.main s.world → Good t.main t.world
  Move-Good (task main w m c file s here there step) g =
      task-Good main m c w file s here there step g
  Move-Good (opened m es w c here) g = λ e. opened-Facts m c w here (g e)
  Move-Good (not_opened m es w c here) g = λ e. cc
  Move-Good (completed m es w c here none_left) g = λ e. completed-Facts m c w here none_left (g e)
  Move-Good (not_requested m [] w c i choose e here waits x) g = λ h. cc
  Move-Good (not_requested m (y ∷ es) w c i choose e here waits x) g = λ h. cc
  Move-Good (not_joined m [] w message) g = λ h. cc
  Move-Good (not_joined m (y ∷ es) w message) g = λ h. cc
  Move-Good (request_aborted m es w c i choose here waits x) g = λ e. cc
  Move-Good (task_aborted main w m c file file' i choose req send outcome here there made ran) g =
      λ e. cc
  Move-Good (returned m es w at_end) g = returned-Good m es w at_end g

  Moves-Good : {s : State} → Moves build d print self (begin self) s → Good s.main s.world
  unfolding get
  Moves-Good no_move = λ e. record {
    close = omega arith;
    not_created = λ le. refl;
    no_more = λ lt. absurd (omega arith);
    left_empty = λ lt. absurd (omega arith);
  }
  Moves-Good (and_then ms m) = Move-Good m (Moves-Good ms)

  -- Let two files of a subfile, at positions j < k, have the same hash, and the output path of
  -- the later one be no other file's. However the tasks of all files interleave and whatever
  -- the network answers: when download_subfile returns Ok, the output file of the later one is
  -- there and empty, whatever its content is.
  pub repeated_hash :
      (w : World)
      → Moves build d print self (begin self) (record { main = ended (ok tt); world = w })
      → get (output_path self b) w.outputs ≡ some []
  repeated_hash w run = (Moves-Good run refl).left_empty (omega arith)
