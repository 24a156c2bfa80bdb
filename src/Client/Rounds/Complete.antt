-- ===== src/Client/Rounds/Complete.antt =====
-- The invariant of a download's steps, and its file once no chunk remains.
use mathlib.Core.Path.{subst}
use subfile_data_service.Prelude.{
  ℕ, zero, suc, Bytes, List, [], ◌∷◌, ◌+◌, ◌*◌, ◌≤◌, ◌<◌, ◌≡◌, refl, sym, ◌∙◌, min, arith, length,
  take-eq_self, true, false, ◌==◌, if◌then◌else◌, dec_lt, Bool-cases, inl, inr, ==_iff,
}
use subfile_data_service.Rust.Result.{ok, err}
use subfile_data_service.Rust.Words.{Build, isize_max}
use subfile_data_service.Subfile.Hasher.{Digest, CollisionFree}
use subfile_data_service.Subfile.Types.{ChunkFileMeta}
use subfile_data_service.Subfile.Reader.Chunks.{num_chunks, num_chunks_covers}
use subfile_data_service.Subfile.Spans.{Same, Same-cast, Same-join}
use subfile_data_service.Subfile.Validate.Chunk.{published, chunk_length}
use subfile_data_service.Client.Targets.{SubfileDownloader, has_chunk, remove_chunk}
use subfile_data_service.Client.Rounds.{
  Download, Step, transferred, finished, failed, Reach, here, next,
}
use subfile_data_service.Client.Rounds.Overwrite.{Agrees}
use subfile_data_service.Client.Rounds.Tasks.{Kept, transfer-Kept}

pub has_chunk-remove :
    (i j : ℕ) (chunks : List ℕ)
    → has_chunk j (remove_chunk i chunks) ≡ (if i == j then false else has_chunk j chunks)
unfolding has_chunk remove_chunk
has_chunk-remove i j [] = ground arith
has_chunk-remove i j (k ∷ ks) = ground (arith, has_chunk-remove i j ks)

module _ (build : Build) (d : Digest) (free : CollisionFree d) (self : SubfileDownloader)
    (meta : ChunkFileMeta) (content : Bytes) (size : ℕ)
    (made : meta.chunk_file ≡ published d size content) (pos : 0 < size) (fits : size ≤ isize_max)
    (bounded : length content ≤ isize_max) where
  abbrev n : ℕ → ℕ
  n i = chunk_length size (length content) (i * size)

  -- Chunks that were stored, or taken off, are in the file; the file is no longer than the content.
  pub record Inv (s : Download) : Type 0 where
    pub within : length s.file ≤ length content
    pub held :
        (i : ℕ)
        → i * size < length content
        → has_chunk i s.stored ≡ true
        → Agrees size content i s.file
    pub gone :
        (i : ℕ)
        → i * size < length content
        → has_chunk i s.remaining ≡ false
        → Agrees size content i s.file

  held_next :
      (s : Download) (v : Inv s) (i j : ℕ) (inside : j * size < length content) (file : Bytes)
      → Kept size content i s.file (ok tt, file)
      → has_chunk j (i ∷ s.stored) ≡ true
      → Agrees size content j file
  unfolding has_chunk
  held_next s v i j inside file k e = elim (Bool-cases (i == j)) [
    | inl same ↦ subst (λ l. Agrees size content l file) ((==_iff i j).0 same) (k.stores refl)
    | inr other ↦ k.kept j inside (v.held j inside (ground arith))
  ]

  gone_next :
      (s : Download) (v : Inv s) (i j : ℕ) (inside : j * size < length content)
      → has_chunk i s.stored ≡ true
      → has_chunk j (remove_chunk i s.remaining) ≡ false
      → Agrees size content j s.file
  gone_next s v i j inside e g = elim (Bool-cases (i == j)) [
    | inl same ↦ v.held j inside (subst (λ l. has_chunk l s.stored ≡ true) ((==_iff i j).0 same) e)
    | inr other ↦ v.gone j inside (ground (arith, has_chunk-remove i j s.remaining))
  ]

  pub Step-Inv : {s t : Download} → Step build d self meta s t → Inv s → Inv t
  Step-Inv (transferred s i choose req send outcome file waits made_req ran) v =
      let k =
        transfer-Kept build d free self meta content size made pos fits bounded choose i req send
          outcome s.file file (ok tt) made_req ran in
      record {
        within = k.within v.within;
        held = λ j inside e. held_next s v i j inside file k e;
        gone = λ j inside e. k.kept j inside (v.gone j inside e);
      }
  Step-Inv (finished s i e) v = record {
    within = v.within;
    held = v.held;
    gone = λ j inside g. gone_next s v i j inside e g;
  }
  Step-Inv (failed s i choose req send outcome file e waits made_req ran) v =
      let k =
        transfer-Kept build d free self meta content size made pos fits bounded choose i req send
          outcome s.file file (err e) made_req ran in
      record {
        within = k.within v.within;
        held = λ j inside h. k.kept j inside (v.held j inside h);
        gone = λ j inside g. k.kept j inside (v.gone j inside g);
      }

  Reach-Inv : {s t : Download} → Inv s → Reach build d self meta s t → Inv t
  Reach-Inv v here = v
  Reach-Inv v (next r st) = Step-Inv st (Reach-Inv v r)

  Same-up_to :
      (file : Bytes)
      → ((i : ℕ) → i * size < length content → Agrees size content i file)
      → (r : ℕ) → Same file content 0 (min (r * size) (length content))
  Same-up_to file all zero = let z : min (0 * size) (length content) ≡ 0 = omega arith in rw z
  Same-up_to file all (suc r) = elim (dec_lt (r * size) (length content)) [
    | yes lt ↦ Same-cast file content 0 0 (r * size + n r) _ refl (omega arith) (
        Same-join file content 0 (r * size) (n r)
          (Same-cast file content 0 0 (min (r * size) (length content)) (r * size) refl
            (omega arith) (Same-up_to file all r))
          (Same-cast file content (r * size) (0 + r * size) (n r) (n r) (omega arith) refl
            (all r lt)))
    | no ge ↦
        Same-cast file content 0 0 (min (r * size) (length content)) _ refl (omega arith)
          (Same-up_to file all r)
  ]

  pub Inv-start :
      (s : Download)
      → s.file ≡ []
      → s.stored ≡ []
      → ((i : ℕ) → i * size < length content → has_chunk i s.remaining ≡ true)
      → Inv s
  unfolding has_chunk
  Inv-start s e f g = record {
    within = rw e (omega arith);
    held = λ i inside h. cc (rw f at h);
    gone = λ i inside h. cc (g i inside, h);
  }

  pub Inv-complete : (t : Download) → Inv t → t.remaining ≡ [] → t.file ≡ content
  unfolding has_chunk
  Inv-complete t v no_more =
      let whole =
        Same-up_to t.file (λ i inside. v.gone i inside (rw no_more))
          (num_chunks size (length content)) in
      sym (take-eq_self (length content) t.file v.within)
      ∙ Same-cast t.file content 0 0 _ (length content) refl
          (omega (arith, num_chunks_covers size (length content) pos)) whole
      ∙ take-eq_self (length content) content (omega arith)

  -- Let the hash functions be collision-free and the chunk file be the one of the content, with
  -- a chunk size above zero, both lengths within isize. However the tasks interleave, whatever
  -- the servers answer and wherever a write fails: a download of the file, begun with an empty
  -- output file and all its chunks to come, has exactly the content in the output file once no
  -- chunk remains.
  pub download_complete :
      (s t : Download)
      → s.file ≡ []
      → s.stored ≡ []
      → ((i : ℕ) → i * size < length content → has_chunk i s.remaining ≡ true)
      → Reach build d self meta s t
      → t.remaining ≡ []
      → t.file ≡ content
  download_complete s t empty none_stored all r no_more =
      Inv-complete t (Reach-Inv (Inv-start s empty none_stored all) r) no_more
