-- ===== src/Subfile/Merkle.antt =====
-- The Merkle tree of subfile-exchange/src/subfile/file_hasher.rs. The crate merkle_cbt, which builds
-- trees over a function that joins two nodes, is a parameter.
use subfile_data_service.Prelude.{ℕ, Bytes, List, Option}
use subfile_data_service.Subfile.Hasher.{Digest, merge}

-- `CBMT<Vec<u8>, M>`: a tree and a proof over texts, built with the `merge` of `M`.
pub record Cbmt : Type 1 where
  pub MerkleTree : Type 0
  pub MerkleProof : Type 0
  pub build_root : (Bytes → Bytes → Bytes) → List Bytes → Bytes
  pub build_tree : (Bytes → Bytes → Bytes) → List Bytes → MerkleTree
  pub build_proof : (Bytes → Bytes → Bytes) → List Bytes → List ℕ → Option MerkleProof

module _ (cbmt : Cbmt) (d : Digest) where
  open cbmt use {MerkleTree, MerkleProof, build_root, build_tree, build_proof}

  unfoldable merkle_root : List Bytes → Bytes
  merkle_root leaves = build_root (merge d) leaves

  unfoldable build_merkle_tree : List Bytes → MerkleTree
  build_merkle_tree leaves = build_tree (merge d) leaves

  unfoldable build_merkle_proof : (leaves : List Bytes) (indices : List ℕ) → Option MerkleProof
  build_merkle_proof leaves indices = build_proof (merge d) leaves indices
