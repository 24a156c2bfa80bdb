-- ===== src/Exchange/Entries.antt =====
-- The entries of a published subfile, apart when no two files have the same content.
use mathlib.Core.Path.{subst}
use subfile_data_service.Prelude.{
  ℕ, Bytes, ◌<◌, ◌≤◌, some, ◌≡◌, ◌≢◌, sym, ap, ◌∙◌, length, get_elem?,
}
use subfile_data_service.Rust.Result.{ok}
use subfile_data_service.Rust.Words.{Build, isize_max}
use subfile_data_service.Serde.{Serde}
use subfile_data_service.System.{FileSystem, Holds, Fills}
use subfile_data_service.Ipfs.{IpfsClient}
use subfile_data_service.Ipfs.Fetch.{read_subfile}
use subfile_data_service.Subfile.Hasher.{Digest, CollisionFree}
use subfile_data_service.Subfile.Types.{ChunkFile, ChunkFileMeta, Subfile}
use subfile_data_service.Subfile.Reader.{format_path}
use subfile_data_service.Subfile.Reader.Chunks.{num_chunks}
use subfile_data_service.Subfile.Validate.Chunk.{published}
use subfile_data_service.Publisher.{SubfilePublisher, publish}
use subfile_data_service.Publisher.ReadBack.{RoundTrips, Keeps}
use subfile_data_service.Client.Targets.{SubfileDownloader}
use subfile_data_service.Client.DownloadSubfile.Views.{Apart}
use subfile_data_service.Client.DownloadSubfile.Files.{IsPublished}
use subfile_data_service.Exchange.Downloaded.{published_entry}
use subfile_data_service.Exchange.Distinct.{
  path_injective, published_injective, read_subfile-same_hash,
}

module _ (serde : Serde) (trips : RoundTrips serde) (client : IpfsClient) (keeps : Keeps client)
    (build : Build) (fs : FileSystem) (d : Digest) (free : CollisionFree d) (fuel : ℕ)
    (publisher : SubfilePublisher) (own : publisher.ipfs_client ≡ client)
    (pos : 0 < publisher.config.chunk_size) (fits : publisher.config.chunk_size ≤ isize_max)
    (content : Bytes → Bytes)
    (holds : (k : ℕ) (name : Bytes)
      → get_elem? publisher.config.file_names k ≡ some name
      → (h : Holds fs (format_path publisher.config.read_dir name) (content name)) × Fills h.handle
          (content name)
        × (num_chunks publisher.config.chunk_size (length (content name)) < fuel))
    (distinct : (j k : ℕ) (a b : Bytes)
      → get_elem? publisher.config.file_names j ≡ some a
      → get_elem? publisher.config.file_names k ≡ some b
      → content a ≡ content b
      → j ≡ k) where
  -- No two files of the subfile are confused.
  pub publish-Apart :
      (hash path : Bytes) (subfile : Subfile) (self : SubfileDownloader)
      → publish serde build fs d fuel publisher ≡ ok hash
      → read_subfile serde client hash path ≡ ok subfile
      → (j k : ℕ) (a b : ChunkFileMeta) → get_elem? subfile.chunk_files j ≡ some a
      → get_elem? subfile.chunk_files k ≡ some b
      → j ≢ k
      → Apart self a b
  publish-Apart hash path subfile self published_it read j k a b at_j at_k ne =
      let (name_a, made_a) = entry j a at_j in
      let (name_b, made_b) = entry k b at_k in
      let differ : content a.meta_info.name ≢ content b.meta_info.name =
        λ same. ne (distinct j k a.meta_info.name b.meta_info.name name_a name_b same) in
      record {
        hashes = λ same. differ (
            published_injective d free publisher.config.chunk_size (content a.meta_info.name)
              (content b.meta_info.name) pos
              (sym made_a
                ∙ read_subfile-same_hash serde client hash path subfile j k a b read at_j at_k same
                ∙ made_b));
        paths = λ same.
            differ
              (ap content (path_injective self.output_dir a.meta_info.name b.meta_info.name same));
      }
    where
      entry :
          (i : ℕ) (m : ChunkFileMeta)
          → get_elem? subfile.chunk_files i ≡ some m
          → (get_elem? publisher.config.file_names i ≡ some m.meta_info.name)
            × (m.chunk_file ≡ published d publisher.config.chunk_size (content m.meta_info.name))
      entry i m found =
          published_entry serde trips client keeps build fs d fuel publisher own pos fits content
            holds hash path subfile i m published_it read found

  -- An entry of the subfile that is read back: its name stands at its position of the publisher's
  -- list, and its chunk file is the one of the file's content, in chunks of the publisher's size.
  pub record IsEntry (k : ℕ) (meta : ChunkFileMeta) : Type 0 where
    pub named : get_elem? publisher.config.file_names k ≡ some meta.meta_info.name
    pub from_content : IsPublished d (content meta.meta_info.name) meta
    pub sized : publisher.config.chunk_size ≡ meta.chunk_file.chunk_size

  pub read_subfile-IsEntry :
      (hash path : Bytes) (subfile : Subfile) (k : ℕ) (meta : ChunkFileMeta)
      → publish serde build fs d fuel publisher ≡ ok hash
      → read_subfile serde client hash path ≡ ok subfile
      → get_elem? subfile.chunk_files k ≡ some meta
      → IsEntry k meta
  read_subfile-IsEntry hash path subfile k meta published_it read found =
      let (named, made) =
        published_entry serde trips client keeps build fs d fuel publisher own pos fits content
          holds hash path subfile k meta published_it read found in
      let (h, fills, enough) = holds k meta.meta_info.name named in
      let of_size : publisher.config.chunk_size ≡ meta.chunk_file.chunk_size =
        ap (λ (c : ChunkFile). c.chunk_size) (sym made) in
      record {
        named = named;
        from_content = record {
          made = made ∙ ap (λ n. published d n (content meta.meta_info.name)) of_size;
          pos = subst (λ n. 0 < n) of_size pos;
          fits = subst (λ n. n ≤ isize_max) of_size fits;
          bounded = h.bounded;
        };
        sized = of_size;
      }
