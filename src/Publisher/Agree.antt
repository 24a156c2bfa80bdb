-- ===== src/Publisher/Agree.antt =====
-- The two ways of subfile-exchange/src/publisher/mod.rs to make a chunk file.
use subfile_data_service.Prelude.{ℕ, Bytes, ◌%◌, ◌≤◌, ◌<◌, ◌≡◌, ◌≢◌, arith, length, true}
use subfile_data_service.Rust.Result.{done}
use subfile_data_service.Rust.Words.{Build, isize_max}
use subfile_data_service.Serde.{Serde}
use subfile_data_service.System.{FileSystem, Holds, Fills}
use subfile_data_service.Subfile.Hasher.{Digest}
use subfile_data_service.Subfile.Reader.{format_path}
use subfile_data_service.Subfile.Reader.Chunks.{num_chunks}
use subfile_data_service.Subfile.Published.{new-eq-published}
use subfile_data_service.ObjectStore.Local.{LocalFileSystem, Stores}
use subfile_data_service.ObjectStore.Store.{make_directory, new}
use subfile_data_service.ObjectStore.Hashed.{chunk_object-eq, of_parts-eq-published}
use subfile_data_service.Publisher.{SubfilePublisher, write_chunk_file}
use subfile_data_service.Publisher.Stored.{object_store_write_chunk_file}

module _ (build : Build) (fs : FileSystem) (d : Digest) (serde : Serde) (self : SubfilePublisher)
    (name content : Bytes) (h : Holds fs (format_path self.config.read_dir name) content)
    (fills : Fills h.handle content) (pos : 0 < self.config.chunk_size)
    (fits : self.config.chunk_size ≤ isize_max) (fuel : ℕ)
    (enough : num_chunks self.config.chunk_size (length content) < fuel) where
  -- Through a store on an existing directory that holds the file, object_store_write_chunk_file
  -- gives what write_chunk_file gives and leaves the disk as it was, when the chunk size does
  -- not divide the length and is at most the length: reads fill the buffer, the fuel is above
  -- the number of chunks, and the chunk size is above zero and within isize.
  pub object_store_write_chunk_file-agrees :
      (store : LocalFileSystem) (debug_str : Bytes → Bytes) (root : store.Root) (disk : store.Disk)
      → store.path_exists self.config.read_dir disk ≡ true
      → store.is_dir self.config.read_dir disk ≡ true
      → store.new_with_prefix self.config.read_dir disk ≡ done root
      → Stores store root name content disk
      → length content % self.config.chunk_size ≢ 0
      → self.config.chunk_size ≤ length content
      → object_store_write_chunk_file store serde build d debug_str self name disk
        ≡ (write_chunk_file serde build fs d fuel self name, disk)
  unfolding object_store_write_chunk_file write_chunk_file new make_directory
  object_store_write_chunk_file-agrees store debug_str root disk there dir opened stored part le =
      let size = self.config.chunk_size in
      rw (
        there,
        dir,
        opened,
        new-eq-published build fs d self.config.read_dir name content h fills size fuel pos fits
            enough,
        chunk_object-eq store build d
            (record { local_file_system = root; read_concurrency = 16; write_concurrency = 8 }) name
            content disk stored (omega arith) h.bounded size pos fits,
        of_parts-eq-published d size content pos part le,
      )
