-- ===== src/Exchange/Distinct.antt =====
-- Files with different contents are told apart: by chunk file, by hash and by output path.
use mathlib.Core.Path.{subst}
use subfile_data_service.Prelude.{
  ℕ, zero, suc, Bytes, codes, List, [], ◌∷◌, ◌++◌, ◌*◌, ◌<◌, some, ◌≡◌, refl, sym, ap, ◌∙◌, map,
  length, concat, get_elem?, All, All-append, take-eq_self, strip_prefix, strip_prefix-append,
}
use subfile_data_service.Rust.Result.{ok, >>=-eq-ok, ok-injective}
use subfile_data_service.Serde.{Serde}
use subfile_data_service.Ipfs.{IpfsClient}
use subfile_data_service.Ipfs.Fetch.{
  read_subfile, fetch_subfile_from_ipfs, fetch_chunk_files, fetch_chunk_file_from_ipfs,
}
use subfile_data_service.Subfile.Hasher.{Digest, CollisionFree, hash_chunk}
use subfile_data_service.Subfile.Types.{
  FileMetaInfo, SubfileManifest, ChunkFile, ChunkFileMeta, Subfile,
}
use subfile_data_service.Subfile.Reader.Chunks.{num_chunks, chunks_of, num_chunks_covers}
use subfile_data_service.Subfile.Validate.Chunk.{published, hash_injective}
use subfile_data_service.ObjectStore.Ranges.{concat-pieces}

append_cancel : (p s t : Bytes) → p ++ s ≡ p ++ t → s ≡ t
append_cancel p s t e =
    let found : some s ≡ some t =
      sym (strip_prefix-append p s) ∙ ap (strip_prefix p) e ∙ strip_prefix-append p t in
    cc

pub path_injective : (dir s t : Bytes) → dir ++ (codes "/" ++ s) ≡ dir ++ (codes "/" ++ t) → s ≡ t
path_injective dir s t e =
    append_cancel (codes "/") s t (append_cancel dir (codes "/" ++ s) (codes "/" ++ t) e)

concat-chunks_of :
    (size : ℕ) (content : Bytes) → 0 < size → concat (chunks_of size content) ≡ content
concat-chunks_of size content pos =
    concat-pieces size content (num_chunks size (length content)) 0
    ∙ take-eq_self (num_chunks size (length content) * size) content
        (num_chunks_covers size (length content) pos)

module _ (d : Digest) (free : CollisionFree d) where
  hashes_injective : (xs ys : List Bytes) → map (hash_chunk d) xs ≡ map (hash_chunk d) ys → xs ≡ ys
  hashes_injective [] [] e = refl
  hashes_injective [] (y ∷ ys) e = absurd cc
  hashes_injective (x ∷ xs) [] e = absurd cc
  hashes_injective (x ∷ xs) (y ∷ ys) e =
      let heads : hash_chunk d x ≡ hash_chunk d y = cc in
      let tails : map (hash_chunk d) xs ≡ map (hash_chunk d) ys = cc in
      let same_head : x ≡ y = hash_injective d free x y heads in
      let same_tail : xs ≡ ys = hashes_injective xs ys tails in cc

  -- A chunk file determines the content.
  pub published_injective :
      (size : ℕ) (a b : Bytes) → 0 < size → published d size a ≡ published d size b → a ≡ b
  published_injective size a b pos e =
      let chunks : chunks_of size a ≡ chunks_of size b =
        hashes_injective (chunks_of size a) (chunks_of size b)
          (ap (λ (c : ChunkFile). c.chunk_hashes) e) in
      sym (concat-chunks_of size a pos) ∙ ap concat chunks ∙ concat-chunks_of size b pos

module _ (serde : Serde) (client : IpfsClient) where
  -- The entry's chunk file is what IPFS has under the entry's hash.
  IsFetched : ChunkFileMeta → Type 0
  IsFetched m = fetch_chunk_file_from_ipfs serde client m.meta_info.hash ≡ ok m.chunk_file

  fetch_chunk_files-All :
      (files : List FileMetaInfo) (acc ms : List ChunkFileMeta)
      → All IsFetched acc
      → fetch_chunk_files serde client files acc ≡ ok ms
      → All IsFetched ms
  unfolding fetch_chunk_files IsFetched
  fetch_chunk_files-All [] acc ms all e = subst (All IsFetched) (ok-injective e) all
  fetch_chunk_files-All (f ∷ files) acc ms all e =
      let (c, fetched, more) = >>=-eq-ok (fetch_chunk_file_from_ipfs serde client f.hash) _ e in
      let m : ChunkFileMeta = record { meta_info = f; chunk_file = c } in
      fetch_chunk_files-All files (acc ++ m ∷ []) ms
        (All-append IsFetched acc (m ∷ []) all ((fetched, tt))) more

  All-get :
      (ms : List ChunkFileMeta) (k : ℕ) (m : ChunkFileMeta)
      → All IsFetched ms
      → get_elem? ms k ≡ some m
      → IsFetched m
  All-get [] k m all found = absurd cc
  All-get (x ∷ ms) zero m all found = let same : x ≡ m = cc in subst IsFetched same all.0
  All-get (x ∷ ms) (suc k) m all found = All-get ms k m all.1 found

  -- Entries of a subfile with the same hash have the same chunk file.
  pub read_subfile-same_hash :
      (hash path : Bytes) (subfile : Subfile) (j k : ℕ) (a b : ChunkFileMeta)
      → read_subfile serde client hash path ≡ ok subfile
      → get_elem? subfile.chunk_files j ≡ some a
      → get_elem? subfile.chunk_files k ≡ some b
      → a.meta_info.hash ≡ b.meta_info.hash
      → a.chunk_file ≡ b.chunk_file
  unfolding read_subfile IsFetched
  read_subfile-same_hash hash path subfile j k a b e at_j at_k same =
      let (manifest, fetched, more) = >>=-eq-ok (fetch_subfile_from_ipfs serde client hash) _ e in
      let (ms, filled, last) =
        >>=-eq-ok (fetch_chunk_files serde client manifest.files []) _ more in
      let files : ms ≡ subfile.chunk_files =
        ap (λ (s : Subfile). s.chunk_files) (ok-injective last) in
      let all : All IsFetched subfile.chunk_files =
        subst (All IsFetched) files (fetch_chunk_files-All manifest.files [] ms tt filled) in
      let one : IsFetched a = All-get subfile.chunk_files j a all at_j in
      let two : IsFetched b = All-get subfile.chunk_files k b all at_k in
      ok-injective (sym one ∙ ap (fetch_chunk_file_from_ipfs serde client) same ∙ two)

  -- The entries of a subfile do not depend on the path that it is given.
  pub read_subfile-same_entries :
      (hash p q : Bytes) (a b : Subfile)
      → read_subfile serde client hash p ≡ ok a
      → read_subfile serde client hash q ≡ ok b
      → a.chunk_files ≡ b.chunk_files
  unfolding read_subfile
  read_subfile-same_entries hash p q a b e f =
      let (m, fetched, more) = >>=-eq-ok (fetch_subfile_from_ipfs serde client hash) _ e in
      let (ms, filled, last) = >>=-eq-ok (fetch_chunk_files serde client m.files []) _ more in
      let (m', fetched', more') = >>=-eq-ok (fetch_subfile_from_ipfs serde client hash) _ f in
      let (ms', filled', last') = >>=-eq-ok (fetch_chunk_files serde client m'.files []) _ more' in
      let manifests : m ≡ m' = ok-injective (sym fetched ∙ fetched') in
      let entries : ms ≡ ms' = ok-injective (
        sym filled
        ∙ ap (λ (x : SubfileManifest). fetch_chunk_files serde client x.files []) manifests
        ∙ filled') in
      ap (λ (s : Subfile). s.chunk_files) (sym (ok-injective last))
      ∙ entries
      ∙ ap (λ (s : Subfile). s.chunk_files) (ok-injective last')
