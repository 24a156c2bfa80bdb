-- ===== src/Publisher.antt =====
-- subfile-exchange/src/publisher/mod.rs
pub mod ReadBack
pub mod Stored
pub mod Agree
use subfile_data_service.Prelude.{ℕ, Bytes, List, [], ◌∷◌, ◌++◌, Option}
use subfile_data_service.Errors.{ipfs_error, yaml_error}
use subfile_data_service.Rust.Result.{Result, ok, ◌>>=◌, map_err}
use subfile_data_service.Rust.Words.{Build}
use subfile_data_service.Serde.{Serde}
use subfile_data_service.System.{FileSystem}
use subfile_data_service.Ipfs.{IpfsClient, AddResponse, add}
use subfile_data_service.Subfile.Hasher.{Digest}
use subfile_data_service.Subfile.Types.{FileMetaInfo, SubfileManifest}
use subfile_data_service.Subfile.ChunkFiles.{new}

-- The fields of `PublisherArgs` (subfile-exchange/src/config.rs) that the publisher reads.
pub record PublisherArgs : Type 0 where
  pub read_dir : Bytes
  pub file_names : List Bytes
  pub file_type : Bytes
  pub file_version : Bytes
  pub chunk_size : ℕ
  pub start_block : Option ℕ
  pub end_block : Option ℕ
  pub description : Bytes
  pub chain_id : Bytes

pub record SubfilePublisher : Type 0 where
  pub ipfs_client : IpfsClient
  pub config : PublisherArgs

-- `fuel` bounds the reads of one file.
module _ (serde : Serde) (build : Build) (fs : FileSystem) (d : Digest) (fuel : ℕ) where
  open serde use {chunk_file_to_yaml, manifest_to_yaml}

  unfoldable pub write_chunk_file : SubfilePublisher → Bytes → Result Bytes
  write_chunk_file self file_name = do
    chunk_file ← new build fs d fuel self.config.read_dir file_name self.config.chunk_size
    map_err (chunk_file_to_yaml chunk_file) yaml_error

  unfoldable pub hash_and_publish_file : SubfilePublisher → Bytes → Result AddResponse
  hash_and_publish_file self file_name = do
    yaml_str ← write_chunk_file self file_name
    map_err (add self.ipfs_client yaml_str) ipfs_error

  -- The loop of `hash_and_publish_files` over the names that are left.
  unfoldable pub publish_names :
      SubfilePublisher → List Bytes → List FileMetaInfo → Result (List FileMetaInfo)
  publish_names self [] root_hashes = ok root_hashes
  publish_names self (file_name ∷ file_names) root_hashes = do
    added ← hash_and_publish_file self file_name
    publish_names self file_names
        (root_hashes ++ record { name = file_name; hash = added.hash } ∷ [])

  unfoldable pub hash_and_publish_files : SubfilePublisher → Result (List FileMetaInfo)
  hash_and_publish_files self = publish_names self self.config.file_names []

  abbrev pub manifest_of : SubfilePublisher → List FileMetaInfo → SubfileManifest
  manifest_of self file_meta_info = record {
    files = file_meta_info;
    file_type = self.config.file_type;
    spec_version = self.config.file_version;
    description = self.config.description;
    chain_id = self.config.chain_id;
    block_range = record {
      start_block = self.config.start_block;
      end_block = self.config.end_block;
    };
  }

  unfoldable pub construct_subfile_manifest : SubfilePublisher → List FileMetaInfo → Result Bytes
  construct_subfile_manifest self file_meta_info =
      map_err (manifest_to_yaml (manifest_of self file_meta_info)) yaml_error

  unfoldable pub publish_subfile_manifest : SubfilePublisher → Bytes → Result Bytes
  publish_subfile_manifest self manifest_yaml = do
    added ← map_err (add self.ipfs_client manifest_yaml) ipfs_error
    ok added.hash

  unfoldable pub publish : SubfilePublisher → Result Bytes
  publish self = do
    meta_info ← hash_and_publish_files self
    manifest_yaml ← construct_subfile_manifest self meta_info
    publish_subfile_manifest self manifest_yaml
