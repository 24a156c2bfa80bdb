-- ===== src/Subfile/Hasher.antt =====
-- subfile-exchange/src/subfile/file_hasher.rs. SHA-256 and base64 are crates, so parameters.
use subfile_data_service.Prelude.{Bytes, Bool, bytes_eq, ◌≡◌, ◌++◌}

pub record Digest : Type 0 where
  pub sha256 : Bytes → Bytes
  pub base64 : Bytes → Bytes

-- No two texts collide: the collision resistance on which the protocol rests.
pub record CollisionFree (d : Digest) : Type 0 where
  pub sha256_injective : (a b : Bytes) → d.sha256 a ≡ d.sha256 b → a ≡ b
  pub base64_injective : (a b : Bytes) → d.base64 a ≡ d.base64 b → a ≡ b

unfoldable pub hash_chunk : Digest → Bytes → Bytes
hash_chunk d chunk = d.base64 (d.sha256 chunk)

-- `MergeU8::merge`: the hash of a node of the Merkle tree.
unfoldable pub merge : Digest → Bytes → Bytes → Bytes
merge d left right = d.sha256 (left ++ right)

unfoldable pub verify_chunk : Digest → Bytes → Bytes → Bool
verify_chunk d chunk chunk_hash = bytes_eq (hash_chunk d chunk) chunk_hash
