-- ===== src/Ipfs/Fetch.antt =====
-- subfile-exchange/src/subfile/subfile_reader.rs: manifests and chunk files from IPFS.
use subfile_data_service.Prelude.{Bytes, List, [], ◌∷◌, ◌++◌}
use subfile_data_service.Errors.{ipfs_error, subfile_error, yaml_error}
use subfile_data_service.Rust.Result.{Result, ok, ◌>>=◌, map_err}
use subfile_data_service.Serde.{Serde}
use subfile_data_service.Ipfs.{IpfsClient, cat_all}
use subfile_data_service.Subfile.Types.{
  FileMetaInfo, SubfileManifest, ChunkFile, ChunkFileMeta, Subfile,
}

module _ (serde : Serde) where
  open serde use {YamlValue, from_utf8, yaml_from_str, yaml_to_manifest, yaml_to_chunk_file}

  parse_subfile_manifest : YamlValue → Result SubfileManifest
  parse_subfile_manifest yaml = map_err (yaml_to_manifest yaml) yaml_error

  parse_chunk_file : YamlValue → Result ChunkFile
  parse_chunk_file yaml = map_err (yaml_to_chunk_file yaml) yaml_error

  unfoldable pub fetch_subfile_from_ipfs : IpfsClient → Bytes → Result SubfileManifest
  unfolding parse_subfile_manifest
  fetch_subfile_from_ipfs client ipfs_hash = do
    file_bytes ← map_err (cat_all client ipfs_hash 10) ipfs_error
    text ← map_err (from_utf8 file_bytes) subfile_error
    content ← map_err (yaml_from_str text) yaml_error
    parse_subfile_manifest content

  unfoldable pub fetch_chunk_file_from_ipfs : IpfsClient → Bytes → Result ChunkFile
  unfolding parse_chunk_file
  fetch_chunk_file_from_ipfs client ipfs_hash = do
    file_bytes ← map_err (cat_all client ipfs_hash 10) ipfs_error
    text ← map_err (from_utf8 file_bytes) subfile_error
    content ← map_err (yaml_from_str text) yaml_error
    parse_chunk_file content

  -- The loop of `read_subfile` over the files of the manifest.
  unfoldable pub fetch_chunk_files :
      IpfsClient → List FileMetaInfo → List ChunkFileMeta → Result (List ChunkFileMeta)
  fetch_chunk_files client [] chunk_files = ok chunk_files
  fetch_chunk_files client (file_info ∷ files) chunk_files = do
    chunk_file ← fetch_chunk_file_from_ipfs client file_info.hash
    fetch_chunk_files client files
        (chunk_files ++ record { meta_info = file_info; chunk_file = chunk_file } ∷ [])

  unfoldable pub read_subfile : IpfsClient → Bytes → Bytes → Result Subfile
  read_subfile client ipfs local_path = do
    manifest ← fetch_subfile_from_ipfs client ipfs
    chunk_files ← fetch_chunk_files client manifest.files []
    ok (record {
      ipfs_hash = ipfs;
      local_path = local_path;
      manifest = manifest;
      chunk_files = chunk_files;
    })
