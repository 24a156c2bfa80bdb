-- ===== src/Examples/World.antt =====
-- A disk, hash functions and IPFS client that are small enough to compute with.
use subfile_data_service.Prelude.{
  Bytes, codes, true, none, some, ◌∷◌, [], length, slice, drop, refl, ◌≤◌, arith,
}
use subfile_data_service.Rust.Result.{Io, done}
use subfile_data_service.Rust.Words.{debug, isize_max}
use subfile_data_service.System.{FileHandle, FileSystem, Holds}
use subfile_data_service.Subfile.Hasher.{Digest, CollisionFree}
use subfile_data_service.Subfile.Types.{SubfileManifest, ChunkFileMeta, Subfile}
use subfile_data_service.Subfile.Validate.Chunk.{published}
use subfile_data_service.Ipfs.{IpfsClient, PostRequest, PostResponse}
use subfile_data_service.Server.State.{Host}

-- hash functions that keep the text
abbrev pub plain : Digest
plain = record { sha256 = λ x. x; base64 = λ x. x }

pub plain-CollisionFree : CollisionFree plain
plain-CollisionFree = record { sha256_injective = λ a b e. e; base64_injective = λ a b e. e }

-- five bytes, and six
abbrev pub five : Bytes
five = codes "hello"

abbrev pub six : Bytes
six = codes "hello!"

abbrev pub handle_of : Bytes → FileHandle
handle_of content = record {
  metadata = done (length content);
  seek = λ n. done tt;
  read_exact = λ start n. done (slice start n content);
  read = λ pos n. done (slice pos n content);
}

-- a disk on which every path holds the content
abbrev pub disk : Bytes → FileSystem
disk content = record {
  open_file = λ path. done (handle_of content);
  read_all = λ path. done content;
  path_exists = λ path. true;
}

abbrev pub disk-Holds :
    (path content : Bytes) → length content ≤ isize_max → Holds (disk content) path content
disk-Holds path content h = record {
  handle = handle_of content;
  opened = refl;
  sized = refl;
  seeks = λ n le. refl;
  exact = λ start n le. refl;
  whole = refl;
  bounded = h;
}

pub five-bounded : length five ≤ isize_max
five-bounded = omega arith

pub six-bounded : length six ≤ isize_max
six-bounded = omega arith

abbrev pub five_meta : ChunkFileMeta
five_meta = record {
  meta_info = record { name = codes "five"; hash = codes "QmFive" };
  chunk_file = published plain 2 five;
}

abbrev pub six_meta : ChunkFileMeta
six_meta = record {
  meta_info = record { name = codes "six"; hash = codes "QmSix" };
  chunk_file = published plain 2 six;
}

abbrev pub manifest_example : SubfileManifest
manifest_example = record {
  files = five_meta.meta_info ∷ [];
  file_type = [];
  spec_version = [];
  description = [];
  chain_id = [];
  block_range = record { start_block = none; end_block = none };
}

-- a valid IPFS hash
abbrev pub hash_example : Bytes
hash_example = codes "QmUVskWrz1ZiQZ76AtyhcfFDEH1ELnRpoyEhVL8p6NFTbR"

abbrev pub subfile_of : ChunkFileMeta → Subfile
subfile_of meta = record {
  ipfs_hash = hash_example;
  local_path = codes "/data";
  manifest = manifest_example;
  chunk_files = meta ∷ [];
}

abbrev pub host_of : Bytes → Host
host_of content = record { build = debug; fs = disk content; digest = plain; debug_str = λ s. s }

-- an IPFS node whose hash of a text is the text
send_example : PostRequest → Io PostResponse
send_example req = elim (req.form) [
  | some bytes ↦ done (record {
    error_for_status = done tt;
    bytes = done [];
    json = done (record { name = []; hash = bytes; size = [] });
  })
  | none ↦ done (record {
    error_for_status = done tt;
    bytes = done (drop 15 req.url);
    json = done (record { name = []; hash = []; size = [] });
  })
]

unfoldable pub ipfs_example : IpfsClient
unfolding send_example
ipfs_example = record {
  base = [];
  client = record { parse_uri = λ s. done s; send = send_example };
}
