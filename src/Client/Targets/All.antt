-- ===== src/Client/Targets/All.antt =====
-- Which chunks `target_chunks` sets out to fetch.
use subfile_data_service.Prelude.{
  ℕ, zero, suc, Bytes, bytes_eq, bytes_eq_iff, bytes_eq_refl, List, [], ◌∷◌, ◌+◌, ◌*◌, ◌/◌, ◌≤◌,
  ◌<◌, ◌≡◌, ◌∙◌, refl, sym, arith, Bool, true, false, some, ◌||◌, ◌==◌, leb, ltb, lt→ltb, ◌&&◌,
  ℕ_discrete, if◌then◌else◌, Bool-cases, inl, inr, get_elem?,
}
use mathlib.Core.Path.{subst}
use subfile_data_service.Rust.Result.{ok, >>=-eq-ok, ok-injective}
use subfile_data_service.Rust.Words.{Build, isize_max, u64_mod, div_u64-eq-ok, add_u64-eq-ok}
use subfile_data_service.HashMap.{HashMap, insert}
use subfile_data_service.HashMap.Laws.{get-insert}
use subfile_data_service.Subfile.Types.{ChunkFile, ChunkFileMeta, Subfile}
use subfile_data_service.Subfile.ChunkFiles.{chunk_rounds}
use subfile_data_service.Client.Targets.{
  SubfileDownloader, has_chunk, insert_chunk, insert_range, chunks_at, target_files, target_chunks,
  remaining_chunks,
}

div_le : (n size : ℕ) → 0 < size → n / size ≤ n
div_le n size pos = grind arith

div_ge : (n size i : ℕ) → 0 < size → i * size < n → i ≤ n / size
div_ge n size i pos h = grind arith

has_chunk-insert :
    (i j : ℕ) (chunks : List ℕ)
    → has_chunk j (insert_chunk i chunks) ≡ (i == j || has_chunk j chunks)
unfolding insert_chunk has_chunk
has_chunk-insert i j chunks = elim (ℕ_discrete i j) [
  | yes e ↦ rw e (ground arith)
  | no h ↦ ground arith
]

-- The chunks of a range, inserted into a set, are those that were there and the range's numbers,
-- and no others.
pub has_chunk-insert_range :
    (rounds i j : ℕ) (chunks : List ℕ)
    → has_chunk j (insert_range rounds i chunks)
      ≡ ((leb i j && ltb j (i + rounds)) || has_chunk j chunks)
unfolding insert_range
has_chunk-insert_range zero i j chunks = ground arith
has_chunk-insert_range (suc rounds) i j chunks = ground (
  arith,
  has_chunk-insert_range rounds (i + 1) j (insert_chunk i chunks),
  has_chunk-insert i j chunks,
)

pub chunks_at-insert :
    (k h : Bytes) (chunks : List ℕ) (m : HashMap (List ℕ))
    → chunks_at h (insert k chunks m) ≡ (if bytes_eq k h then chunks else chunks_at h m)
unfolding chunks_at
chunks_at-insert k h chunks m = elim (Bool-cases (bytes_eq k h)) [
  | inl e ↦ rw (get-insert k h chunks m, e, chunks_at)
  | inr e ↦ rw (get-insert k h chunks m, e, chunks_at)
]

-- One file's round of `target_chunks` keeps what was there.
insert-keeps :
    (k h : Bytes) (rounds i : ℕ) (m : HashMap (List ℕ))
    → has_chunk i (chunks_at h m) ≡ true
    → has_chunk i (chunks_at h (insert k (insert_range rounds 0 (chunks_at k m)) m)) ≡ true
insert-keeps k h rounds i m there = elim (Bool-cases (bytes_eq k h)) [
  | inl e ↦
      let same : k ≡ h = (bytes_eq_iff k h).0 e in
      rw
        (
          chunks_at-insert k h (insert_range rounds 0 (chunks_at k m)) m,
          e,
          has_chunk-insert_range rounds 0 i (chunks_at k m),
          same,
          there,
        )
        (or-true (leb 0 i && ltb i (0 + rounds)))
  | inr e ↦ rw (chunks_at-insert k h (insert_range rounds 0 (chunks_at k m)) m, e) there
]
  where
    or-true : (b : Bool) → (b || true) ≡ true
    or-true true = refl
    or-true false = refl

target_files-keeps :
    (build : Build) (files : List ChunkFileMeta) (m m' : HashMap (List ℕ)) (h : Bytes) (i : ℕ)
    → target_files build files m ≡ ok m'
    → has_chunk i (chunks_at h m) ≡ true
    → has_chunk i (chunks_at h m') ≡ true
unfolding target_files
target_files-keeps build [] m m' h i e there =
    subst (λ x. has_chunk i (chunks_at h x) ≡ true) (ok-injective e) there
target_files-keeps build (meta ∷ files) m m' h i e there =
    let (rounds, counted, more) = >>=-eq-ok (chunk_rounds build meta.chunk_file) _ e in
    target_files-keeps build files _ m' h i more
      (insert-keeps meta.meta_info.hash h rounds i m there)

pub chunk_rounds-eq :
    (build : Build) (file : ChunkFile)
    → 0 < file.chunk_size
    → file.total_bytes ≤ isize_max
    → chunk_rounds build file ≡ ok (file.total_bytes / file.chunk_size + 1)
unfolding chunk_rounds
chunk_rounds-eq build file pos fits = rw (div_u64-eq-ok file.total_bytes file.chunk_size pos) (
    add_u64-eq-ok build (file.total_bytes / file.chunk_size) 1
      (small file.total_bytes file.chunk_size pos fits))
  where
    small : (n size : ℕ) → 0 < size → n ≤ isize_max → n / size + 1 < u64_mod
    small n size pos fits = let le = div_le n size pos in omega arith

module _ (build : Build) (meta : ChunkFileMeta) (i : ℕ) (pos : 0 < meta.chunk_file.chunk_size)
    (fits : meta.chunk_file.total_bytes ≤ isize_max)
    (inside : i * meta.chunk_file.chunk_size < meta.chunk_file.total_bytes) where
  insert-covers :
      (rounds : ℕ) (m : HashMap (List ℕ))
      → chunk_rounds build meta.chunk_file ≡ ok rounds
      → has_chunk i (
          chunks_at meta.meta_info.hash (
            insert meta.meta_info.hash (insert_range rounds 0 (chunks_at meta.meta_info.hash m)) m))
        ≡ true
  insert-covers rounds m counted =
      let n : meta.chunk_file.total_bytes / meta.chunk_file.chunk_size + 1 ≡ rounds =
        ok-injective (sym (chunk_rounds-eq build meta.chunk_file pos fits) ∙ counted) in
      let le = div_ge meta.chunk_file.total_bytes meta.chunk_file.chunk_size i pos inside in
      let low : ltb i (0 + rounds) ≡ true = lt→ltb i (0 + rounds) (omega arith) in
      rw
        (
          chunks_at-insert meta.meta_info.hash meta.meta_info.hash
              (insert_range rounds 0 (chunks_at meta.meta_info.hash m)) m,
          bytes_eq_refl meta.meta_info.hash,
          has_chunk-insert_range rounds 0 i (chunks_at meta.meta_info.hash m),
          low,
        )
        (ground arith)

  target_files_cover :
      (files : List ChunkFileMeta) (m m' : HashMap (List ℕ)) (k : ℕ)
      → target_files build files m ≡ ok m'
      → get_elem? files k ≡ some meta
      → has_chunk i (chunks_at meta.meta_info.hash m') ≡ true
  unfolding target_files
  target_files_cover [] m m' k e found = cc
  target_files_cover (file ∷ files) m m' zero e found =
      let same : file ≡ meta = cc in
      let (rounds, counted, more) =
        >>=-eq-ok (chunk_rounds build meta.chunk_file) _
          (subst (λ x. target_files build (x ∷ files) m ≡ ok m') same e) in
      target_files-keeps build files _ m' meta.meta_info.hash i more
        (insert-covers rounds m counted)
  target_files_cover (file ∷ files) m m' (suc k) e found =
      let (rounds, counted, more) = >>=-eq-ok (chunk_rounds build file.chunk_file) _ e in
      target_files_cover files _ m' k more found

  -- When target_chunks succeeds, every chunk that begins inside a file of the subfile is among
  -- the chunks that remain for that file, for a file with a chunk size above zero and a length
  -- within isize.
  pub target_chunks_cover :
      (subfile : Subfile) (self self' : SubfileDownloader) (k : ℕ)
      → target_chunks build subfile self ≡ ok self'
      → get_elem? subfile.chunk_files k ≡ some meta
      → has_chunk i (remaining_chunks meta.meta_info.hash self') ≡ true
  unfolding target_chunks remaining_chunks
  target_chunks_cover subfile self self' k e found =
      let (targets, filled, same) =
        >>=-eq-ok (target_files build subfile.chunk_files self.target_chunks) _ e in
      subst (λ (x : SubfileDownloader). has_chunk i (remaining_chunks meta.meta_info.hash x) ≡ true)
        (ok-injective same)
        (target_files_cover subfile.chunk_files self.target_chunks targets k filled found)
