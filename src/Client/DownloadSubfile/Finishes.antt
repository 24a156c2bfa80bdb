-- ===== src/Client/DownloadSubfile/Finishes.antt =====
-- A download whose chunks are served can come to its end.
use mathlib.Core.Path.{subst}
use subfile_data_service.Prelude.{
  ℕ, zero, suc, Bytes, List, [], ◌∷◌, ◌+◌, ◌-◌, ◌≤◌, dec_lt, true, some, ◌≡◌, refl, sym, ap, ◌∙◌,
  arith, length, get_elem?, get_elem?-lt, get_elem?-ge, ==_refl,
}
use subfile_data_service.Errors.{Error}
use subfile_data_service.HashMap.{get}
use subfile_data_service.Rust.Result.{ok}
use subfile_data_service.Rust.Words.{Build}
use subfile_data_service.Subfile.Hasher.{Digest}
use subfile_data_service.Subfile.Types.{ChunkFileMeta}
use subfile_data_service.Client.Targets.{SubfileDownloader, has_chunk, remove_chunk, chunks_at}
use subfile_data_service.Client.Rounds.{Download, transferred, finished}
use subfile_data_service.Client.DownloadSubfile.{
  World, Main, at_file, in_rounds, ended, State, Moves, task, opened, completed, returned, conclude,
  begin, view, update, created, output_path,
}
use subfile_data_service.Client.DownloadSubfile.Uses.{Circumstance}
use subfile_data_service.Client.DownloadSubfile.Points.{
  IsWithin, insert-IsWithin, removed_before, IsPoint, Moves-IsPoint,
}
use subfile_data_service.Client.DownloadSubfile.Views.{get-insert_same, view-update}
use subfile_data_service.Client.DownloadSubfile.Served.{
  NoneIncomplete, IsServed, CanReach, stays, goes, join,
}

length-remove_chunk : (i : ℕ) (chunks : List ℕ) → length (remove_chunk i chunks) ≤ length chunks
unfolding remove_chunk
length-remove_chunk i [] = omega arith
length-remove_chunk i (j ∷ js) = ground (arith, length-remove_chunk i js)

remove_first : (i : ℕ) (chunks : List ℕ) → length (remove_chunk i (i ∷ chunks)) ≤ length chunks
unfolding remove_chunk
remove_first i chunks = rw (==_refl i) (length-remove_chunk i chunks)

has_first : (i : ℕ) (chunks : List ℕ) → has_chunk i (i ∷ chunks) ≡ true
unfolding has_chunk
has_first i chunks = rw (==_refl i) refl

module _ (build : Build) (d : Digest) (print : List Error → Bytes) (self : SubfileDownloader)
    (P : Circumstance) where
  module _ (k : ℕ) (meta : ChunkFileMeta)
      (found : get_elem? self.subfile.chunk_files k ≡ some meta) where
    -- A world in which the file's output is there and `chunks` remain.
    record IsOpen (w : World) (chunks : List ℕ) : Type 0 where
      file : Bytes
      there : get (output_path self meta) w.outputs ≡ some file
      remaining : chunks_at meta.meta_info.hash w.target_chunks ≡ chunks
      within : IsWithin build d print self w

    -- One chunk is stored and taken off.
    fetch_one :
        (main : Main) (w : World) (i : ℕ) (rest : List ℕ)
        → IsOpen w (i ∷ rest)
        → IsServed build d print self P meta i
        → (w' : World) × CanReach build d print self P
            (record { main = main; world = w })
            (record { main = main; world = w' })
          × IsOpen w' (remove_chunk i (i ∷ rest))
    fetch_one main w i rest now served =
        let (file', ran) = served.stores (view self meta w).file in
        let s1 : Download = record (view self meta w) {
          file = file';
          stored = i ∷ (view self meta w).stored;
        } in
        let w1 = update self meta s1 w in
        let s2 : Download = record (view self meta w1) {
          remaining = remove_chunk i (view self meta w1).remaining;
        } in
        let w2 = update self meta s2 w1 in
        let seen : view self meta w1 ≡ s1 = view-update self meta s1 w in
        let left : remove_chunk i (view self meta w1).remaining ≡ remove_chunk i (i ∷ rest) =
          ap (λ (s : Download). remove_chunk i s.remaining) seen
          ∙ ap (remove_chunk i) now.remaining in
        let within1 : IsWithin build d print self w1 =
          insert-IsWithin build d print self meta.meta_info.hash s1.remaining w w1 refl (λ j h. h)
            now.within in
        (
          w2,
          goes build d print self P
              (goes build d print self P (stays build d print self P _)
                (task main w k meta now.file s1 found now.there (
                  transferred (view self meta w) i served.choose served.req served.send
                    served.outcome file' (ap (has_chunk i) now.remaining ∙ has_first i rest)
                    served.made ran))
                served.allowed)
              (task main w1 k meta file' s2 found
                (get-insert_same (output_path self meta) file' w.outputs)
                (finished (view self meta w1) i (
                  ap (λ (s : Download). has_chunk i s.stored) seen
                  ∙ has_first i (view self meta w).stored)))
              tt,
          record {
            file = s2.file;
            there = get-insert_same (output_path self meta) s2.file w1.outputs;
            remaining = ap (λ (s : Download). s.remaining) (view-update self meta s2 w1) ∙ left;
            within =
                insert-IsWithin build d print self meta.meta_info.hash s2.remaining w1 w2 refl
                  (λ j h. removed_before i j (view self meta w1).remaining h) within1;
          },
        )

    fetch_all :
        (n : ℕ) (main : Main) (w : World) (chunks : List ℕ)
        → length chunks ≤ n
        → IsOpen w chunks
        → ((i : ℕ)
            → has_chunk i (chunks_at meta.meta_info.hash self.target_chunks) ≡ true
            → IsServed build d print self P meta i)
        → (w' : World) × CanReach build d print self P
            (record { main = main; world = w })
            (record { main = main; world = w' })
          × IsOpen w' []
    fetch_all n main w [] le now serves = (w, stays build d print self P _, now)
    fetch_all zero main w (i ∷ rest) le now serves = absurd (omega arith)
    fetch_all (suc n) main w (i ∷ rest) le now serves =
        let waits =
          now.within meta.meta_info.hash i (ap (has_chunk i) now.remaining ∙ has_first i rest) in
        let (w1, moves, fetched) = fetch_one main w i rest now (serves i waits) in
        let (w2, more, last) =
          fetch_all n main w1 (remove_chunk i (i ∷ rest)) (omega (arith, remove_first i rest))
            fetched serves in
        (w2, join build d print self P moves more, last)

  module _
      (serves : (k : ℕ) (meta : ChunkFileMeta) (i : ℕ)
        → get_elem? self.subfile.chunk_files k ≡ some meta
        → has_chunk i (chunks_at meta.meta_info.hash self.target_chunks) ≡ true
        → IsServed build d print self P meta i) where
    abbrev Finishes : State → Type 0
    Finishes s =
        (w : World) × CanReach build d print self P s (record { main = ended (ok tt); world = w })

    -- From the rounds of a file to the file behind it.
    finish_rounds :
        (k : ℕ) (meta : ChunkFileMeta) (found : get_elem? self.subfile.chunk_files k ≡ some meta)
        (w : World) (file : Bytes)
        → get (output_path self meta) w.outputs ≡ some file
        → IsWithin build d print self w
        → (w' : World) × CanReach build d print self P
            (record { main = in_rounds k []; world = w })
            (record { main = at_file (suc k) []; world = w' })
          × IsWithin build d print self w'
    finish_rounds k meta found w file there within =
        let chunks = chunks_at meta.meta_info.hash w.target_chunks in
        let (w2, moves, fetched) =
          fetch_all k meta found (length chunks) (in_rounds k []) w chunks (omega arith)
            (record { file = file; there = there; remaining = refl; within = within })
            (λ i waits. serves k meta i found waits) in
        (
          w2,
          goes build d print self P moves (completed k [] w2 meta found fetched.remaining) tt,
          fetched.within,
        )

    finish_from :
        (m k : ℕ) (w : World)
        → k + m ≡ length self.subfile.chunk_files
        → IsWithin build d print self w
        → Finishes (record { main = at_file k []; world = w })
    unfolding conclude
    finish_from zero k w count within = (
      w,
      goes build d print self P (stays build d print self P _)
          (returned k [] w (get_elem?-ge self.subfile.chunk_files k (omega arith))) tt,
    )
    finish_from (suc m) k w count within =
        let (meta, found) = get_elem?-lt self.subfile.chunk_files k (omega arith) in
        let (w2, moves, fetched) =
          finish_rounds k meta found (created self meta w) []
            (get-insert_same (output_path self meta) [] w.outputs) within in
        let (w3, rest) = finish_from m (suc k) w2 (omega arith) fetched in
        (
          w3,
          join build d print self P
              (join build d print self P
                (goes build d print self P (stays build d print self P _) (opened k [] w meta found)
                  tt)
                moves)
              rest,
        )

    finish_at :
        (k : ℕ) (w : World)
        → IsWithin build d print self w
        → Finishes (record { main = at_file k []; world = w })
    unfolding conclude
    finish_at k w within = elim (dec_lt (length self.subfile.chunk_files) k) [
      | yes behind ↦ (
        w,
        goes build d print self P (stays build d print self P _)
            (returned k [] w (get_elem?-ge self.subfile.chunk_files k (omega arith))) tt,
      )
      | no there ↦ finish_from (length self.subfile.chunk_files - k) k w (omega arith) within
    ]

    finish_point :
        (main : Main) (w : World)
        → IsPoint build d print self (record { main = main; world = w })
        → NoneIncomplete main
        → Finishes (record { main = main; world = w })
    finish_point (at_file k es) w (within, there) none_failed =
        subst (λ x. Finishes (record { main = at_file k x; world = w })) (sym none_failed)
          (finish_at k w within)
    finish_point (in_rounds k es) w (within, (meta, found, file, there)) none_failed =
        let (w2, moves, fetched) = finish_rounds k meta found w file there within in
        let (w3, rest) = finish_at (suc k) w2 fetched in
        subst (λ x. Finishes (record { main = in_rounds k x; world = w })) (sym none_failed)
          ((w3, join build d print self P moves rest))
    finish_point (ended r) w point none_failed = elim none_failed [ ]

    -- From every point of a download_subfile at which no file has failed, whatever happened
    -- before: when every chunk that was to come at the start is served by some transfer of a
    -- given kind, the download can go on, with transfers of that kind only, to return Ok. A
    -- chunk is served when some request for it is made whose transfer stores it, whatever the
    -- output file holds.
    pub download_subfile_finishes :
        (s : State)
        → Moves build d print self (begin self) s
        → NoneIncomplete s.main
        → (w : World) × CanReach build d print self P s (record { main = ended (ok tt); world = w })
    download_subfile_finishes s reached none_failed =
        finish_point s.main s.world (Moves-IsPoint build d print self s reached) none_failed
