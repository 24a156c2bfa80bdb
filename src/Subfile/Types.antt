-- ===== src/Subfile/Types.antt =====
-- The manifests and the chunk files of subfile-exchange/src/subfile/mod.rs.
use subfile_data_service.Prelude.{ℕ, Bytes, List, Option}

pub record BlockRange : Type 0 where
  pub start_block : Option ℕ
  pub end_block : Option ℕ

pub record FileMetaInfo : Type 0 where
  pub name : Bytes
  pub hash : Bytes

pub record SubfileManifest : Type 0 where
  pub files : List FileMetaInfo
  pub file_type : Bytes
  pub spec_version : Bytes
  pub description : Bytes
  pub chain_id : Bytes
  pub block_range : BlockRange

pub record ChunkFile : Type 0 where
  pub total_bytes : ℕ
  pub chunk_size : ℕ
  pub chunk_hashes : List Bytes

pub record ChunkFileMeta : Type 0 where
  pub meta_info : FileMetaInfo
  pub chunk_file : ChunkFile

pub record Subfile : Type 0 where
  pub ipfs_hash : Bytes
  pub local_path : Bytes
  pub manifest : SubfileManifest
  pub chunk_files : List ChunkFileMeta
