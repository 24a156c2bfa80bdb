-- ===== src/Client/DownloadSubfile/Files.antt =====
-- What holds of one file as the download goes on.
use mathlib.Core.Path.{subst}
use subfile_data_service.Prelude.{
  ℕ, Bytes, List, [], ◌*◌, ◌<◌, ◌≤◌, true, some, none, ◌≡◌, refl, sym, ap, ◌∙◌, length,
}
use subfile_data_service.HashMap.{get}
use subfile_data_service.Rust.Words.{Build, isize_max}
use subfile_data_service.Subfile.Hasher.{Digest, CollisionFree}
use subfile_data_service.Subfile.Types.{ChunkFileMeta}
use subfile_data_service.Subfile.Validate.Chunk.{published}
use subfile_data_service.Client.Targets.{SubfileDownloader, has_chunk, chunks_at, remove_chunk}
use subfile_data_service.Client.Rounds.{Download, Step, transferred, finished, failed}
use subfile_data_service.Client.Rounds.Complete.{Inv, Inv-start, Inv-complete, Step-Inv}
use subfile_data_service.Client.DownloadSubfile.{World, output_path, view, update, created}
use subfile_data_service.Client.DownloadSubfile.Views.{
  SameAt, get-insert_same, view-update, view-created, view-SameAt, view-file,
}

-- The chunk file of an entry is the one of `content`, with a chunk size above zero.
pub record IsPublished (d : Digest) (content : Bytes) (meta : ChunkFileMeta) : Type 0 where
  pub made : meta.chunk_file ≡ published d meta.chunk_file.chunk_size content
  pub pos : 0 < meta.chunk_file.chunk_size
  pub fits : meta.chunk_file.chunk_size ≤ isize_max
  pub bounded : length content ≤ isize_max

module _ (build : Build) (d : Digest) (free : CollisionFree d) (self : SubfileDownloader)
    (meta : ChunkFileMeta) (content : Bytes) (p : IsPublished d content meta) where
  abbrev InvOf : Download → Type 0
  InvOf =
      Inv build d free self meta content meta.chunk_file.chunk_size p.made p.pos p.fits p.bounded

  -- Before the loop comes to it.
  pub record IsFresh (w : World) : Type 0 where
    pub not_created : get (output_path self meta) w.outputs ≡ none
    pub none_stored : chunks_at (output_path self meta) w.stored ≡ []
    pub all :
        (i : ℕ)
        → i * meta.chunk_file.chunk_size < length content
        → has_chunk i (chunks_at meta.meta_info.hash w.target_chunks) ≡ true

  -- While it is downloaded.
  pub record IsLive (w : World) : Type 0 where
    pub file : Bytes
    pub there : get (output_path self meta) w.outputs ≡ some file
    pub inv : InvOf (view self meta w)

  -- Once no chunk remains.
  pub record IsDone (w : World) : Type 0 where
    pub live : IsLive w
    pub no_more : chunks_at meta.meta_info.hash w.target_chunks ≡ []

  InvOf-blocklist :
      (s : Download) (urls : List Bytes) → InvOf s → InvOf (record s { blocklist = urls })
  InvOf-blocklist s urls v = record { within = v.within; held = v.held; gone = v.gone }

  pub SameAt-IsFresh : (w w' : World) → SameAt self meta w w' → IsFresh w → IsFresh w'
  SameAt-IsFresh w w' same fresh = record {
    not_created = same.outputs ∙ fresh.not_created;
    none_stored = same.stores ∙ fresh.none_stored;
    all = λ i inside. ap (has_chunk i) same.targets ∙ fresh.all i inside;
  }

  pub SameAt-IsLive : (w w' : World) → SameAt self meta w w' → IsLive w → IsLive w'
  SameAt-IsLive w w' same live = record {
    file = live.file;
    there = same.outputs ∙ live.there;
    inv =
        subst InvOf (sym (view-SameAt self meta w w' same))
          (InvOf-blocklist (view self meta w) w'.blocklist live.inv);
  }

  pub SameAt-IsDone : (w w' : World) → SameAt self meta w w' → IsDone w → IsDone w'
  SameAt-IsDone w w' same done = record {
    live = SameAt-IsLive w w' same done.live;
    no_more = same.targets ∙ done.no_more;
  }

  pub created-IsLive : (w : World) → IsFresh w → IsLive (created self meta w)
  created-IsLive w fresh = record {
    file = [];
    there = get-insert_same (output_path self meta) [] w.outputs;
    inv = subst InvOf (sym (view-created self meta w)) (
        Inv-start build d free self meta content meta.chunk_file.chunk_size p.made p.pos p.fits
          p.bounded (record (view self meta w) { file = [] }) refl fresh.none_stored fresh.all);
  }

  pub update-IsLive :
      (w : World) (s : Download)
      → Step build d self meta (view self meta w) s
      → IsLive w
      → IsLive (update self meta s w)
  update-IsLive w s step live = record {
    file = s.file;
    there = get-insert_same (output_path self meta) s.file w.outputs;
    inv = subst InvOf (sym (view-update self meta s w)) (
        Step-Inv build d free self meta content meta.chunk_file.chunk_size p.made p.pos p.fits
          p.bounded step live.inv);
  }

  Step-no_more : {s t : Download} → Step build d self meta s t → s.remaining ≡ [] → t.remaining ≡ []
  unfolding remove_chunk
  Step-no_more (transferred s i choose req send outcome file waits made_req ran) e = e
  Step-no_more (finished s i h) e = rw e refl
  Step-no_more (failed s i choose req send outcome file e' waits made_req ran) e = e

  pub update-IsDone :
      (w : World) (s : Download)
      → Step build d self meta (view self meta w) s
      → IsDone w
      → IsDone (update self meta s w)
  update-IsDone w s step done = record {
    live = update-IsLive w s step done.live;
    no_more =
        ap (λ (t : Download). t.remaining) (view-update self meta s w)
        ∙ Step-no_more step done.no_more;
  }

  pub IsDone-content : (w : World) → IsDone w → get (output_path self meta) w.outputs ≡ some content
  IsDone-content w done =
      done.live.there
      ∙ ap some (
          sym (view-file self meta w done.live.file done.live.there)
          ∙ Inv-complete build d free self meta content meta.chunk_file.chunk_size p.made p.pos
              p.fits p.bounded (view self meta w) done.live.inv done.no_more)
