-- ===== src/Examples/Publishing.antt =====
-- A publication of a file of one chunk, read back.
use subfile_data_service.Prelude.{Bytes, codes, refl, ◌≡◌, ◌∷◌, [], none, map}
use subfile_data_service.Rust.Result.{ok}
use subfile_data_service.Rust.Words.{debug, vec_zeroed, add_u64}
use subfile_data_service.Ipfs.{add, cat_all}
use subfile_data_service.Ipfs.Fetch.{read_subfile}
use subfile_data_service.Subfile.Types.{ChunkFileMeta, Subfile}
use subfile_data_service.Publisher.{
  SubfilePublisher, manifest_of, publish, hash_and_publish_files, publish_names,
  hash_and_publish_file, write_chunk_file, construct_subfile_manifest, publish_subfile_manifest,
}
use subfile_data_service.Subfile.ChunkFiles.{new}
use subfile_data_service.Subfile.Reader.{chunk_file, chunk_loop}
use subfile_data_service.Subfile.Hasher.{hash_chunk}
use subfile_data_service.Publisher.ReadBack.{Keeps, Made, read_subfile-publish}
use subfile_data_service.Examples.World.{plain, five, disk, ipfs_example}
use subfile_data_service.Examples.Wire.{serde_example, serde_example-RoundTrips}

pub ipfs_example-Keeps : Keeps ipfs_example
unfolding ipfs_example add cat_all
ipfs_example-Keeps = record { kept = λ bytes r e. cc }

abbrev pub publisher : SubfilePublisher
publisher = record {
  ipfs_client = ipfs_example;
  config = record {
    read_dir = codes "/data";
    file_names = codes "f" ∷ [];
    file_type = [];
    file_version = [];
    chunk_size = 5;
    start_block = none;
    end_block = none;
    description = [];
    chain_id = [];
  };
}

-- the hash is the manifest's text, which holds the name and the chunk file's text
abbrev published_hash : Bytes
published_hash = 102 ∷ 5 ∷ 5 ∷ five

publisher-ok : publish serde_example debug (disk five) plain 3 publisher ≡ ok published_hash
unfolding publish hash_and_publish_files publish_names hash_and_publish_file write_chunk_file new
    chunk_file chunk_loop vec_zeroed add_u64 serde_example add ipfs_example
    construct_subfile_manifest publish_subfile_manifest hash_chunk
publisher-ok = refl

read_subfile-publish_example :
    (subfile : Subfile) × (read_subfile serde_example ipfs_example published_hash (codes "/data")
      ≡ ok subfile)
    × (subfile.manifest
        ≡ manifest_of serde_example debug
            (disk five)
            plain
            3
            publisher
            (map (λ (m : ChunkFileMeta). m.meta_info) subfile.chunk_files))
    × Made serde_example serde_example-RoundTrips ipfs_example ipfs_example-Keeps debug
        (disk five)
        plain
        3
        publisher
        refl
        (codes "f" ∷ [])
        subfile.chunk_files
read_subfile-publish_example =
    read_subfile-publish serde_example serde_example-RoundTrips ipfs_example ipfs_example-Keeps
      debug (disk five) plain 3 publisher refl published_hash (codes "/data") publisher-ok
