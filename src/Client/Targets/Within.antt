-- ===== src/Client/Targets/Within.antt =====
-- `target_chunks` sets out to fetch no chunk behind the end of a file.
use subfile_data_service.Prelude.{
  ℕ, suc, Bytes, bytes_eq, bytes_eq_iff, List, [], ◌∷◌, ◌+◌, ◌*◌, ◌/◌, ◌%◌, ◌≤◌, ◌<◌, ◌≡◌, ◌≢◌, ◌∙◌,
  refl, sym, arith, true, some, ltb, ltb→lt, ◌⊎◌, Bool-cases, inl, inr, get_elem?,
}
use mathlib.Core.Path.{subst}
use subfile_data_service.Rust.Result.{ok, >>=-eq-ok, ok-injective}
use subfile_data_service.Rust.Words.{Build, isize_max}
use subfile_data_service.HashMap.{HashMap, get, insert}
use subfile_data_service.Subfile.Types.{ChunkFile, ChunkFileMeta, Subfile}
use subfile_data_service.Subfile.ChunkFiles.{chunk_rounds}
use subfile_data_service.Client.Targets.{
  SubfileDownloader, has_chunk, insert_range, chunks_at, target_files, target_chunks,
}
use subfile_data_service.Client.Targets.All.{
  has_chunk-insert_range, chunks_at-insert, chunk_rounds-eq,
}

-- A file of the list with the hash, of whose rounds the chunk is one.
pub record IsWithin (build : Build) (files : List ChunkFileMeta) (hash : Bytes) (i : ℕ)
    : Type 0 where
  pub position : ℕ
  pub meta : ChunkFileMeta
  pub found : get_elem? files position ≡ some meta
  pub hashed : meta.meta_info.hash ≡ hash
  pub rounds : ℕ
  pub counted : chunk_rounds build meta.chunk_file ≡ ok rounds
  pub below : i < rounds

range-or :
    (rounds i : ℕ) (chunks : List ℕ)
    → has_chunk i (insert_range rounds 0 chunks) ≡ true
    → (i < rounds) ⊎ (has_chunk i chunks ≡ true)
range-or rounds i chunks there = elim (Bool-cases (ltb i rounds)) [
  | inl low ↦ inl (ltb→lt i rounds low)
  | inr high ↦ inr (ground (arith, has_chunk-insert_range rounds 0 i chunks))
]

-- One file's round adds no others.
insert-or :
    (k h : Bytes) (rounds i : ℕ) (m : HashMap (List ℕ))
    → has_chunk i (chunks_at h (insert k (insert_range rounds 0 (chunks_at k m)) m)) ≡ true
    → ((k ≡ h) × (i < rounds)) ⊎ (has_chunk i (chunks_at h m) ≡ true)
insert-or k h rounds i m there = elim (Bool-cases (bytes_eq k h)) [
  | inl e ↦
      let same : k ≡ h = (bytes_eq_iff k h).0 e in
      elim (range-or rounds i (chunks_at k m)
        (rw (chunks_at-insert k h (insert_range rounds 0 (chunks_at k m)) m, e) at there)) [
          | inl low ↦ inl (same, low)
          | inr old ↦ inr (subst (λ x. has_chunk i (chunks_at x m) ≡ true) same old)
        ]
  | inr e ↦ inr (rw (chunks_at-insert k h (insert_range rounds 0 (chunks_at k m)) m, e) at there)
]

module _ (build : Build) (hash : Bytes) (i : ℕ) where
  later :
      (file : ChunkFileMeta) (files : List ChunkFileMeta)
      → IsWithin build files hash i
      → IsWithin build (file ∷ files) hash i
  later file files w = record {
    position = suc w.position;
    meta = w.meta;
    found = w.found;
    hashed = w.hashed;
    rounds = w.rounds;
    counted = w.counted;
    below = w.below;
  }

  target_files-IsWithin :
      (files : List ChunkFileMeta) (m m' : HashMap (List ℕ))
      → target_files build files m ≡ ok m'
      → has_chunk i (chunks_at hash m') ≡ true
      → IsWithin build files hash i ⊎ (has_chunk i (chunks_at hash m) ≡ true)
  unfolding target_files
  target_files-IsWithin [] m m' e there =
      inr (subst (λ x. has_chunk i (chunks_at hash x) ≡ true) (sym (ok-injective e)) there)
  target_files-IsWithin (file ∷ files) m m' e there =
      let (rounds, counted, more) = >>=-eq-ok (chunk_rounds build file.chunk_file) _ e in
      elim (target_files-IsWithin files _ m' more there) [
        | inl w ↦ inl (later file files w)
        | inr old ↦ elim (insert-or file.meta_info.hash hash rounds i m old) [
          | inl (same, low) ↦ inl (record {
            position = 0;
            meta = file;
            found = refl;
            hashed = same;
            rounds = rounds;
            counted = counted;
            below = low;
          })
          | inr before ↦ inr before
        ]
      ]

  -- With nothing to fetch before, every chunk to fetch is one of a file of the subfile.
  pub target_chunks-IsWithin :
      (subfile : Subfile) (self self' : SubfileDownloader)
      → target_chunks build subfile self ≡ ok self'
      → self.target_chunks ≡ []
      → has_chunk i (chunks_at hash self'.target_chunks) ≡ true
      → IsWithin build subfile.chunk_files hash i
  unfolding target_chunks chunks_at has_chunk get
  target_chunks-IsWithin subfile self self' e empty there =
      let (targets, filled, same) =
        >>=-eq-ok (target_files build subfile.chunk_files self.target_chunks) _ e in
      let targeted : has_chunk i (chunks_at hash targets) ≡ true =
        subst (λ (x : SubfileDownloader). has_chunk i (chunks_at hash x.target_chunks) ≡ true)
          (sym (ok-injective same)) there in
      elim (target_files-IsWithin subfile.chunk_files self.target_chunks targets filled targeted) [
        | inl w ↦ w
        | inr old ↦ absurd (nothing (rw empty at old))
      ]
    where
      nothing : has_chunk i (chunks_at hash []) ≡ true → ⊥
      nothing old = cc

-- A chunk of the rounds of a file begins inside it, when the chunk size does not divide the length.
pub round_inside :
    (build : Build) (file : ChunkFile) (rounds i : ℕ)
    → 0 < file.chunk_size
    → file.total_bytes ≤ isize_max
    → file.total_bytes % file.chunk_size ≢ 0
    → chunk_rounds build file ≡ ok rounds
    → i < rounds
    → i * file.chunk_size < file.total_bytes
round_inside build file rounds i pos fits part counted low =
    let n : file.total_bytes / file.chunk_size + 1 ≡ rounds =
      ok-injective (sym (chunk_rounds-eq build file pos fits) ∙ counted) in
    inside file.total_bytes file.chunk_size i pos part (omega arith)
  where
    inside : (n size i : ℕ) → 0 < size → n % size ≢ 0 → i ≤ n / size → i * size < n
    inside n size i pos part le = grind arith
