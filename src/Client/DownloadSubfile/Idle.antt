-- ===== src/Client/DownloadSubfile/Idle.antt =====
-- The tasks of a file of which no chunk remains: they write nothing.
use subfile_data_service.Prelude.{
  ℕ, Bytes, bytes_eq, bytes_eq_iff, [], true, Bool-cases, inl, inr, ◌≡◌, ◌≢◌, refl, ap, ◌∙◌,
}
use subfile_data_service.Rust.Words.{Build}
use subfile_data_service.Subfile.Hasher.{Digest}
use subfile_data_service.Subfile.Types.{ChunkFileMeta}
use subfile_data_service.Client.Targets.{SubfileDownloader, has_chunk, remove_chunk, chunks_at}
use subfile_data_service.Client.Targets.All.{chunks_at-insert}
use subfile_data_service.Client.Rounds.{Download, Step, transferred, finished, failed}
use subfile_data_service.Client.DownloadSubfile.{World, view, update}

none_waits : (i : ℕ) → has_chunk i [] ≢ true
unfolding has_chunk
none_waits i e = cc

module _ (build : Build) (d : Digest) (self : SubfileDownloader) (meta : ChunkFileMeta) where
  -- Where no chunk remains, a task can only take off a chunk that is off.
  pub Step-idle :
      (s t : Download)
      → Step build d self meta s t
      → s.remaining ≡ []
      → (t.remaining ≡ []) × (t.file ≡ s.file)
  unfolding remove_chunk
  Step-idle s t (transferred _ i choose req send outcome file waits made ran) e =
      absurd (none_waits i (rw e at waits))
  Step-idle s t (finished _ i stored) e = (ap (remove_chunk i) e, refl)
  Step-idle s t (failed _ i choose req send outcome file x waits made ran) e =
      absurd (none_waits i (rw e at waits))

  -- A step of the file's tasks leaves a hash without chunks, be it the file's or another.
  pub update-none_remain :
      (hash : Bytes) (w : World) (s : Download)
      → Step build d self meta (view self meta w) s
      → chunks_at hash w.target_chunks ≡ []
      → chunks_at hash (update self meta s w).target_chunks ≡ []
  update-none_remain hash w s step none_left =
      let looked = chunks_at-insert meta.meta_info.hash hash s.remaining w.target_chunks in
      elim (Bool-cases (bytes_eq meta.meta_info.hash hash)) [
        | inl eq ↦
            let own : chunks_at meta.meta_info.hash w.target_chunks ≡ [] =
              ap (λ h. chunks_at h w.target_chunks) ((bytes_eq_iff meta.meta_info.hash hash).0 eq)
              ∙ none_left in
            looked ∙ (rw eq refl) ∙ (Step-idle (view self meta w) s step own).0
        | inr ne ↦ looked ∙ (rw ne refl) ∙ none_left
      ]
