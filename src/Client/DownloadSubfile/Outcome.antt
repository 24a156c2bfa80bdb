-- ===== src/Client/DownloadSubfile/Outcome.antt =====
-- From the call of `download_subfile` to its return.

use subfile_data_service.Prelude.{
  ℕ, Bytes, List, ◌<◌, some, none, ◌≡◌, ◌≢◌, refl, sym, ap, ◌∙◌, arith, inl, inr, length, get_elem?,
  get_elem?-ge, dec_lt,
}
use subfile_data_service.Errors.{Error}
use subfile_data_service.HashMap.{get}
use subfile_data_service.Rust.Result.{
  ok, err, panic, out_of_fuel, Io, >>=-eq-ok, ok-injective, Result-cases,
}
use subfile_data_service.Rust.Words.{Build}
use subfile_data_service.Serde.{Serde}
use subfile_data_service.Ipfs.{IpfsClient}
use subfile_data_service.Finder.{StatusReply}
use subfile_data_service.Subfile.Hasher.{Digest, CollisionFree}
use subfile_data_service.Subfile.Types.{ChunkFile, ChunkFileMeta, Subfile}
use subfile_data_service.Client.Targets.{
  SubfileDownloader, has_chunk, chunks_at, target_chunks, target_files, remaining_chunks,
}
use subfile_data_service.Client.Targets.All.{target_chunks_cover}
use subfile_data_service.Client.Check.{Prints, availbility_check, availbility_check-keeps}
use subfile_data_service.Client.DownloadSubfile.{World, ended, Moves, output_path, prepare, begin}
use subfile_data_service.Client.DownloadSubfile.Views.{Apart}
use subfile_data_service.Client.DownloadSubfile.Files.{IsPublished, IsFresh, IsDone-content}
use subfile_data_service.Client.DownloadSubfile.Complete.{Moves-Good}

target_chunks-keeps :
    (build : Build) (start self : SubfileDownloader)
    → target_chunks build start.subfile start ≡ ok self
    → (self.subfile ≡ start.subfile) × (self.output_dir ≡ start.output_dir)
unfolding target_chunks
target_chunks-keeps build start self e =
    let (targets, filled, same) =
      >>=-eq-ok (target_files build start.subfile.chunk_files start.target_chunks) _ e in
    (
      sym (ap (λ (s : SubfileDownloader). s.subfile) (ok-injective same)),
      sym (ap (λ (s : SubfileDownloader). s.output_dir) (ok-injective same)),
    )

module _ (serde : Serde) (client : IpfsClient) (http_get : Bytes → Io StatusReply) (prints : Prints)
    (build : Build) where
  pub prepare-eq-ok :
      (start self : SubfileDownloader)
      → prepare serde client http_get prints build start ≡ ok self
      → (mid : SubfileDownloader) × (target_chunks build start.subfile start ≡ ok mid)
        × (self.target_chunks ≡ mid.target_chunks)
        × (self.subfile ≡ start.subfile)
        × (self.output_dir ≡ start.output_dir)
  unfolding prepare
  prepare-eq-ok start self e =
      let (mid, targeted, more) = >>=-eq-ok (target_chunks build start.subfile start) _ e in
      let (targets, subfile, dir) = availbility_check-keeps serde client http_get prints mid in
      let same = checked mid more in
      (
        mid,
        targeted,
        ap (λ (s : SubfileDownloader). s.target_chunks) same ∙ targets,
        ap (λ (s : SubfileDownloader). s.subfile) same
            ∙ subfile
            ∙ (target_chunks-keeps build start mid targeted).0,
        ap (λ (s : SubfileDownloader). s.output_dir) same
            ∙ dir
            ∙ (target_chunks-keeps build start mid targeted).1,
      )
    where
      checked :
          (mid : SubfileDownloader)
          → elim ((availbility_check serde client http_get prints mid).0) [
            | ok u ↦ ok ((availbility_check serde client http_get prints mid).1)
            | err e ↦ ok ((availbility_check serde client http_get prints mid).1)
            | panic ↦ panic
            | out_of_fuel ↦ out_of_fuel
          ]
            ≡ ok self
          → self ≡ (availbility_check serde client http_get prints mid).1
      checked mid h = elim (Result-cases ((availbility_check serde client http_get prints mid).0)) [
        | inl (u, p) ↦ sym (ok-injective (rw p at h))
        | inr (inl (x, p)) ↦ sym (ok-injective (rw p at h))
        | inr (inr (inl p)) ↦ absurd (cc (rw p at h))
        | inr (inr (inr p)) ↦ absurd (cc (rw p at h))
      ]

  begin-IsFresh :
      (d : Digest) (free : CollisionFree d) (start self mid : SubfileDownloader) (k : ℕ)
      (meta : ChunkFileMeta) (content : Bytes) (p : IsPublished d content meta)
      → target_chunks build start.subfile start ≡ ok mid
      → self.target_chunks ≡ mid.target_chunks
      → get_elem? start.subfile.chunk_files k ≡ some meta
      → IsFresh build d free self meta content p (begin self).world
  unfolding remaining_chunks chunks_at get
  begin-IsFresh d free start self mid k meta content p targeted targets found =
      let total : meta.chunk_file.total_bytes ≡ length content =
        ap (λ (c : ChunkFile). c.total_bytes) p.made in
      record {
        not_created = refl;
        none_stored = refl;
        all = λ i inside.
            ap (λ t. has_chunk i (chunks_at meta.meta_info.hash t)) targets
            ∙ target_chunks_cover build meta i p.pos (rw total p.bounded) (rw total inside)
                start.subfile start mid k targeted found;
      }

  module _ (d : Digest) (free : CollisionFree d) (print : List Error → Bytes)
      (content : ChunkFileMeta → Bytes) where
    -- Let the hash functions be collision-free, each file of the subfile have the chunk file of
    -- its content, with a chunk size above zero and both lengths within isize, and no two of
    -- its files share a hash or an output path. However the tasks of all files interleave,
    -- whatever the network answers and wherever a write fails: when download_subfile returns
    -- Ok, the output file of every file of the subfile holds exactly its content.
    pub download_subfile_complete :
        (start self : SubfileDownloader) (w : World)
        → prepare serde client http_get prints build start ≡ ok self
        → ((k : ℕ) (meta : ChunkFileMeta)
            → get_elem? start.subfile.chunk_files k ≡ some meta
            → IsPublished d (content meta) meta)
        → ((j k : ℕ) (a b : ChunkFileMeta)
            → get_elem? start.subfile.chunk_files j ≡ some a
            → get_elem? start.subfile.chunk_files k ≡ some b
            → j ≢ k
            → Apart self a b)
        → Moves build d print self (begin self) (record { main = ended (ok tt); world = w })
        → (k : ℕ) (meta : ChunkFileMeta) → get_elem? start.subfile.chunk_files k ≡ some meta
        → get (output_path self meta) w.outputs ≡ some (content meta)
    download_subfile_complete start self w prepared each apart moves k meta found =
        let (mid, targeted, targets, subfile, dir) = prepare-eq-ok start self prepared in
        let found' : get_elem? self.subfile.chunk_files k ≡ some meta =
          ap (λ (s : Subfile). get_elem? s.chunk_files k) subfile ∙ found in
        let listed : (j : ℕ) (a : ChunkFileMeta)
            → get_elem? self.subfile.chunk_files j ≡ some a
            → get_elem? start.subfile.chunk_files j ≡ some a =
          λ j a f. ap (λ (s : Subfile). get_elem? s.chunk_files j) (sym subfile) ∙ f in
        let good =
          Moves-Good build d free print self content (λ j a f. each j a (listed j a f))
            (λ i j a b f g. apart i j a b (listed i a f) (listed j b g))
            (
              λ j a f le.
                  begin-IsFresh d free start self mid j a (content a) (each j a (listed j a f))
                    targeted targets (listed j a f),
              λ e j a f lt. absurd (omega arith),
            )
            moves in
        IsDone-content build d free self meta (content meta) (each k meta (listed k meta found')) w
          (good refl k meta found' (inside self k meta found'))
      where
        inside :
            (self : SubfileDownloader) (k : ℕ) (meta : ChunkFileMeta)
            → get_elem? self.subfile.chunk_files k ≡ some meta
            → k < length self.subfile.chunk_files
        inside self k meta found = elim (dec_lt k (length self.subfile.chunk_files)) [
          | yes lt ↦ lt
          | no ge ↦
              let clash : none ≡ some meta =
                sym (get_elem?-ge self.subfile.chunk_files k (omega arith)) ∙ found in
              absurd cc
        ]
