-- ===== src/Examples/Node.antt =====
-- An IPFS node that takes the texts of one publication only.
use subfile_data_service.Prelude.{
  Bytes, codes, bytes_eq, bytes_eq_iff, drop, Bool-cases, inl, inr, if◌then◌else◌, [], ◌∷◌, some,
  none, ◌≡◌, refl, sym,
}
use subfile_data_service.Rust.Result.{Io, done, failed}
use subfile_data_service.Ipfs.{AddResponse, PostRequest, PostResponse, IpfsClient, add, cat_all}
use subfile_data_service.Publisher.ReadBack.{Keeps}
use subfile_data_service.Examples.World.{five, hash_example}

abbrev chunk_text : Bytes
chunk_text = 5 ∷ 6 ∷ five

abbrev manifest_text : Bytes
manifest_text = codes "fQmFive"

-- an IPFS node that takes these two texts only
unfoldable pub stored_as : Bytes → Io Bytes
stored_as bytes =
    if bytes_eq bytes chunk_text
    then done (codes "QmFive")
    else if bytes_eq bytes manifest_text
    then done hash_example
    else failed []

unfoldable pub under : Bytes → Io Bytes
under hash =
    if bytes_eq hash (codes "QmFive")
    then done chunk_text
    else if bytes_eq hash hash_example
    then done manifest_text
    else failed []

stored-under : (bytes hash : Bytes) → stored_as bytes ≡ done hash → under hash ≡ done bytes
unfolding stored_as under bytes_eq
stored-under bytes hash e = elim (Bool-cases (bytes_eq bytes chunk_text)) [
  | inl chunk ↦
      let text : bytes ≡ chunk_text = (bytes_eq_iff bytes chunk_text).0 chunk in
      let name : codes "QmFive" ≡ hash = cc (rw chunk at e) in rw (sym name, text) refl
  | inr other ↦ elim (Bool-cases (bytes_eq bytes manifest_text)) [
    | inl manifest ↦
        let text : bytes ≡ manifest_text = (bytes_eq_iff bytes manifest_text).0 manifest in
        let name : hash_example ≡ hash = cc (rw (other, manifest) at e) in rw (sym name, text) refl
    | inr neither ↦ absurd cc (rw (other, neither) at e)
  ]
]

unfoldable pub hashed : Io Bytes → Io AddResponse
hashed (done hash) = done (record { name = []; hash = hash; size = [] })
hashed (failed e) = failed e

unfoldable pub answer : PostRequest → Io PostResponse
unfolding hashed
answer req = elim (req.form) [
  | some bytes ↦
      done (record { error_for_status = done tt; bytes = done []; json = hashed (stored_as bytes) })
  | none ↦
      done
        (record { error_for_status = done tt; bytes = under (drop 15 req.url); json = failed [] })
]

unfoldable pub node : IpfsClient
unfolding answer
node = record { base = []; client = record { parse_uri = λ s. done s; send = answer } }

hashed-eq_done :
    (r : Io Bytes) (response : AddResponse) → hashed r ≡ done response → r ≡ done (response.hash)
unfolding hashed
hashed-eq_done (done hash) response e = cc
hashed-eq_done (failed x) response e = absurd cc

pub node-Keeps : Keeps node
unfolding node add cat_all answer
node-Keeps = record {
  kept = λ bytes r e. stored-under bytes r.hash (hashed-eq_done (stored_as bytes) r e);
}
