-- ===== src/Publisher/Stored.antt =====
-- `object_store_write_chunk_file` of subfile-exchange/src/publisher/mod.rs.
use subfile_data_service.Prelude.{Bytes, some}
use subfile_data_service.Errors.{yaml_error}
use subfile_data_service.Rust.Result.{◌>>=◌, map_err}
use subfile_data_service.Rust.Words.{Build}
use subfile_data_service.Serde.{Serde}
use subfile_data_service.Subfile.Hasher.{Digest}
use subfile_data_service.ObjectStore.Local.{LocalFileSystem}
use subfile_data_service.ObjectStore.Store.{Change, after, new, chunk_object}
use subfile_data_service.Publisher.{SubfilePublisher}

-- `debug_str` is the print `{:?}` of a text.
unfoldable pub object_store_write_chunk_file :
    (fs : LocalFileSystem)
    → Serde
    → Build
    → Digest
    → (debug_str : Bytes → Bytes) → SubfilePublisher
    → Bytes
    → Change fs Bytes
object_store_write_chunk_file fs serde build d debug_str self file_name disk =
    after fs (new fs debug_str self.config.read_dir disk) λ store disk'. (
      chunk_object fs build d store file_name (some self.config.chunk_size) disk'
          >>= (λ chunk_file. map_err (serde.chunk_file_to_yaml chunk_file) yaml_error),
      disk',
    )
