-- ===== src/Client/DownloadSubfile/Views.antt =====
-- What a step of one file's tasks changes of another file: nothing.
use subfile_data_service.Prelude.{
  ℕ, Bytes, bytes_eq, bytes_eq_iff, bytes_eq_refl, List, [], false, Bool-cases, inl, inr, Option,
  none, some, ◌≡◌, ◌≢◌, refl, ap, ◌∙◌,
}
use subfile_data_service.HashMap.{HashMap, get, insert}
use subfile_data_service.HashMap.Laws.{get-insert}
use subfile_data_service.Subfile.Types.{ChunkFileMeta}
use subfile_data_service.Client.Targets.{SubfileDownloader, chunks_at}
use subfile_data_service.Client.Targets.All.{chunks_at-insert}
use subfile_data_service.Client.Rounds.{Download}
use subfile_data_service.Client.DownloadSubfile.{
  World, output_path, output_at, view, update, created,
}

bytes_eq-ne : (a b : Bytes) → a ≢ b → bytes_eq a b ≡ false
bytes_eq-ne a b ne = elim (Bool-cases (bytes_eq a b)) [
  | inl e ↦ absurd (ne ((bytes_eq_iff a b).0 e))
  | inr e ↦ e
]

pub get-insert_same :
    {V : Type 0} (k : Bytes) (v : V) (m : HashMap V) → get k (insert k v m) ≡ some v
get-insert_same k v m = get-insert k k v m ∙ rw (bytes_eq_refl k) refl

pub get-insert_other :
    {V : Type 0} (k j : Bytes) (v : V) (m : HashMap V) → k ≢ j → get j (insert k v m) ≡ get j m
get-insert_other k j v m ne = get-insert k j v m ∙ rw (bytes_eq-ne k j ne) refl

chunks_at-insert_same :
    (k : Bytes) (chunks : List ℕ) (m : HashMap (List ℕ)) → chunks_at k (insert k chunks m) ≡ chunks
chunks_at-insert_same k chunks m = chunks_at-insert k k chunks m ∙ rw (bytes_eq_refl k) refl

chunks_at-insert_other :
    (k j : Bytes) (chunks : List ℕ) (m : HashMap (List ℕ))
    → k ≢ j
    → chunks_at j (insert k chunks m) ≡ chunks_at j m
chunks_at-insert_other k j chunks m ne =
    chunks_at-insert k j chunks m ∙ rw (bytes_eq-ne k j ne) refl

output_at-eq :
    (path : Bytes) (m m' : HashMap Bytes)
    → get path m' ≡ get path m
    → output_at path m' ≡ output_at path m
unfolding output_at
output_at-eq path m m' e = ap (λ (o : Option Bytes). elim o [ none ↦ [] | some file ↦ file ]) e

output_at-insert_same :
    (path file : Bytes) (m : HashMap Bytes) → output_at path (insert path file m) ≡ file
unfolding output_at
output_at-insert_same path file m =
    ap (λ (o : Option Bytes). elim o [ none ↦ [] | some file ↦ file ]) (get-insert_same path file m)

-- Two downloads with the same parts.
same_parts :
    {a b : Download}
    → a.file ≡ b.file
    → a.remaining ≡ b.remaining
    → a.stored ≡ b.stored
    → a.blocklist ≡ b.blocklist
    → a ≡ b
same_parts f r s l i = record { file = f i; remaining = r i; stored = s i; blocklist = l i }

module _ (self : SubfileDownloader) where
  -- Two files that no step of a task confuses.
  pub record Apart (a b : ChunkFileMeta) : Type 0 where
    pub hashes : a.meta_info.hash ≢ b.meta_info.hash
    pub paths : output_path self a ≢ output_path self b

  -- What two worlds have of one file.
  pub record SameAt (meta : ChunkFileMeta) (w w' : World) : Type 0 where
    pub outputs : get (output_path self meta) w'.outputs ≡ get (output_path self meta) w.outputs
    pub targets :
        chunks_at meta.meta_info.hash w'.target_chunks
        ≡ chunks_at meta.meta_info.hash w.target_chunks
    pub stores :
        chunks_at (output_path self meta) w'.stored ≡ chunks_at (output_path self meta) w.stored

  pub update-SameAt :
      (a b : ChunkFileMeta) (s : Download) (w : World) → Apart a b → SameAt b w (update self a s w)
  update-SameAt a b s w apart = record {
    outputs =
        get-insert_other (output_path self a) (output_path self b) s.file w.outputs apart.paths;
    targets =
        chunks_at-insert_other a.meta_info.hash b.meta_info.hash s.remaining w.target_chunks
          apart.hashes;
    stores =
        chunks_at-insert_other (output_path self a) (output_path self b) s.stored w.stored
          apart.paths;
  }

  pub created-SameAt : (a b : ChunkFileMeta) (w : World) → Apart a b → SameAt b w (created self a w)
  created-SameAt a b w apart = record {
    outputs = get-insert_other (output_path self a) (output_path self b) [] w.outputs apart.paths;
    targets = refl;
    stores = refl;
  }

  pub view-update :
      (meta : ChunkFileMeta) (s : Download) (w : World) → view self meta (update self meta s w) ≡ s
  view-update meta s w =
      same_parts (output_at-insert_same (output_path self meta) s.file w.outputs)
        (chunks_at-insert_same meta.meta_info.hash s.remaining w.target_chunks)
        (chunks_at-insert_same (output_path self meta) s.stored w.stored) refl

  pub view-created :
      (meta : ChunkFileMeta) (w : World)
      → view self meta (created self meta w) ≡ record (view self meta w) { file = [] }
  view-created meta w =
      same_parts (output_at-insert_same (output_path self meta) [] w.outputs) refl refl refl

  pub view-SameAt :
      (meta : ChunkFileMeta) (w w' : World)
      → SameAt meta w w'
      → view self meta w' ≡ record (view self meta w) { blocklist = w'.blocklist }
  view-SameAt meta w w' same =
      same_parts (output_at-eq (output_path self meta) w.outputs w'.outputs same.outputs)
        same.targets same.stores refl

  pub view-file :
      (meta : ChunkFileMeta) (w : World) (file : Bytes)
      → get (output_path self meta) w.outputs ≡ some file
      → (view self meta w).file ≡ file
  unfolding output_at
  view-file meta w file e = ap (λ (o : Option Bytes). elim o [ none ↦ [] | some file ↦ file ]) e
