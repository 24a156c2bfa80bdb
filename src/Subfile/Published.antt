-- ===== src/Subfile/Published.antt =====
-- The chunk file that `ChunkFile::new` makes of a file.
use subfile_data_service.Prelude.{
  ℕ, Bytes, ◌≡◌, ◌≢◌, ◌<◌, ◌≤◌, ◌%◌, length, arith, sym, ◌∙◌, take-eq_self,
}
use subfile_data_service.Rust.Result.{ok, ok-injective}
use subfile_data_service.Rust.Words.{Build, isize_max}
use subfile_data_service.System.{FileSystem, Holds, Fills}
use subfile_data_service.Subfile.Hasher.{Digest, CollisionFree}
use subfile_data_service.Subfile.Reader.{format_path}
use subfile_data_service.Subfile.Reader.Chunks.{num_chunks, chunk_file-Fills}
use subfile_data_service.Subfile.Types.{ChunkFileMeta, Subfile}
use subfile_data_service.Subfile.ChunkFiles.{new, push, read_and_validate_file}
use subfile_data_service.Subfile.Validate.Chunk.{published}
use subfile_data_service.Subfile.Validate.Files.{read_and_validate_file_iff}

module _ (build : Build) (fs : FileSystem) (d : Digest) (read_dir name content : Bytes)
    (h : Holds fs (format_path read_dir name) content) (fills : Fills h.handle content)
    (size fuel : ℕ) (pos : 0 < size) (fits : size ≤ isize_max)
    (enough : num_chunks size (length content) < fuel) where
  -- With reads that fill the buffer, a chunk size above zero and more fuel than there are
  -- chunks, ChunkFile::new makes the chunk file of the content: its length, the chunk size, and
  -- the hash of each chunk in order.
  pub new-eq-published : new build fs d fuel read_dir name size ≡ ok (published d size content)
  unfolding new
  new-eq-published = rw (
      chunk_file-Fills build fs (format_path read_dir name) content h size pos fits fuel fills
        enough)

  -- With collision-free hash functions, and a chunk size above zero that does not divide the
  -- length: a file that a publisher has hashed, with reads that fill the buffer and enough
  -- fuel, passes the validation of a server that holds the same bytes.
  pub published_validates :
      (server : Build) (disk : FileSystem) (subfile : Subfile) (file : ChunkFileMeta)
      → CollisionFree d
      → Holds disk (push subfile.local_path file.meta_info.name) content
      → new build fs d fuel read_dir name size ≡ ok file.chunk_file
      → length content % size ≢ 0
      → read_and_validate_file server disk d subfile file ≡ ok tt
  published_validates server disk subfile file free held made part =
      (read_and_validate_file_iff server disk d free subfile file content content held size
          (ok-injective (sym made ∙ new-eq-published)) pos fits h.bounded part).1
        (take-eq_self (length content) content (omega arith))
