-- ===== src/Finder/Discovery.antt =====
-- What a discovery must find.
use subfile_data_service.Prelude.{
  ℕ, zero, suc, Bytes, bytes_eq, bytes_eq_refl, List, [], ◌∷◌, true, some, ◌≡◌, refl, sym, ◌∙◌,
  get_elem?, Bool-cases, inl, inr, map, All,
}
use mathlib.Core.Path.{subst}
use subfile_data_service.Rust.Result.{ok, Io, ok-injective, Result-cases}
use subfile_data_service.Serde.{Serde}
use subfile_data_service.HashMap.Laws.{get-insert}
use subfile_data_service.Ipfs.{IpfsClient}
use subfile_data_service.Ipfs.Fetch.{fetch_subfile_from_ipfs, read_subfile}
use subfile_data_service.Subfile.Types.{FileMetaInfo, ChunkFileMeta, SubfileManifest, Subfile}
use subfile_data_service.Client.Targets.{IndexerEndpoint, contains}
use subfile_data_service.Finder.{
  StatusReply, FileAvailbilityMap, record_serving, target_hashes, record_subfiles, endpoint_info,
  file_availability, discover, file_discovery,
}
use subfile_data_service.Finder.Discovered.{
  IsRecorded, record_serving-kept, record_serving-IsRecorded, record_serving-IsTarget, IsTarget,
}

abbrev pub hashes_of : SubfileManifest → List Bytes
hashes_of manifest = map (λ (f : FileMetaInfo). f.hash) manifest.files

target_hashes-IsTarget :
    (files : List ChunkFileMeta) (j : ℕ) (meta : ChunkFileMeta)
    → get_elem? files j ≡ some meta
    → IsTarget meta.meta_info.hash (target_hashes files)
unfolding target_hashes
target_hashes-IsTarget [] j meta found = absurd cc
target_hashes-IsTarget (c ∷ files) zero meta found =
    let same : c ≡ meta = cc in
    (
      [],
      get-insert c.meta_info.hash meta.meta_info.hash [] (target_hashes files)
          ∙ rw (same, bytes_eq_refl meta.meta_info.hash) refl,
    )
target_hashes-IsTarget (c ∷ files) (suc j) meta found =
    let (av, there) = target_hashes-IsTarget files j meta found in
    let looked = get-insert c.meta_info.hash meta.meta_info.hash [] (target_hashes files) in
    elim (Bool-cases (bytes_eq c.meta_info.hash meta.meta_info.hash)) [
      | inl same ↦ ([], looked ∙ rw same refl)
      | inr other ↦ (av, looked ∙ (rw other refl) ∙ there)
    ]

module _ (serde : Serde) (client : IpfsClient) (http_get : Bytes → Io StatusReply) where
  -- A property of the map that every recording keeps, the discovery keeps.
  module _ (P : FileAvailbilityMap → Type 0)
      (kept : (endpoint : IndexerEndpoint) (subfile : Bytes) (hashes : List Bytes)
          (m : FileAvailbilityMap)
        → P m
        → P (record_serving endpoint subfile hashes m)) where
    record_subfiles-keeps :
        (endpoint : IndexerEndpoint) (subfiles : List Bytes) (m : FileAvailbilityMap)
        → P m
        → P (record_subfiles serde client http_get endpoint subfiles m).1
    unfolding record_subfiles
    record_subfiles-keeps endpoint [] m p = p
    record_subfiles-keeps endpoint (subfile ∷ subfiles) m p =
        elim (Result-cases (fetch_subfile_from_ipfs serde client subfile)) [
          | inl (manifest, e) ↦
              rw (e, record_subfiles)
                (record_subfiles-keeps endpoint subfiles _
                  (kept endpoint subfile (hashes_of manifest) m p))
          | inr (inl (x, e)) ↦ rw (e, record_subfiles) p
          | inr (inr (inl e)) ↦ rw (e, record_subfiles) p
          | inr (inr (inr e)) ↦ rw (e, record_subfiles) p
        ]

    file_availability-keeps :
        (print : List Bytes → Bytes) (url : Bytes) (m : FileAvailbilityMap)
        → P m
        → P (file_availability serde client http_get print url m).1
    unfolding file_availability
    file_availability-keeps print url m p =
        elim (Result-cases (endpoint_info serde client http_get url)) [
          | inl (found, e) ↦
              rw (e, file_availability) (record_subfiles-keeps (found.0, url) found.1 m p)
          | inr (inl (x, e)) ↦ rw (e, file_availability) p
          | inr (inr (inl e)) ↦ rw (e, file_availability) p
          | inr (inr (inr e)) ↦ rw (e, file_availability) p
        ]

    discover-keeps :
        (print : List Bytes → Bytes) (urls : List Bytes) (m : FileAvailbilityMap)
        → P m
        → P (discover serde client http_get print urls m)
    unfolding discover
    discover-keeps print [] m p = p
    discover-keeps print (url ∷ urls) m p =
        discover-keeps print urls _ (file_availability-keeps print url m p)

  -- Every manifest of the list is fetched.
  abbrev pub AreFetched : List Bytes → Type 0
  AreFetched subfiles =
      All
        (λ s. (manifest : SubfileManifest) × (fetch_subfile_from_ipfs serde client s ≡ ok manifest))
        subfiles

  module _ (target subfile : Bytes) (manifest : SubfileManifest)
      (fetched : fetch_subfile_from_ipfs serde client subfile ≡ ok manifest)
      (holds : contains target (hashes_of manifest) ≡ true) where
    record_subfiles-IsRecorded :
        (endpoint : IndexerEndpoint) (subfiles : List Bytes) (k : ℕ) (m : FileAvailbilityMap)
        → AreFetched subfiles
        → get_elem? subfiles k ≡ some subfile
        → IsTarget target m
        → IsRecorded endpoint subfile target
            (record_subfiles serde client http_get endpoint subfiles m).1
    unfolding record_subfiles
    record_subfiles-IsRecorded endpoint [] k m all listed known = absurd cc
    record_subfiles-IsRecorded endpoint (s ∷ subfiles) zero m all listed (av, known) =
        let same : s ≡ subfile = cc in
        let read : fetch_subfile_from_ipfs serde client s ≡ ok manifest =
          subst (λ x. fetch_subfile_from_ipfs serde client x ≡ ok manifest) (sym same) fetched in
        subst
          (λ x.
            IsRecorded endpoint x target
              (record_subfiles serde client http_get endpoint (s ∷ subfiles) m).1)
          same
          (rw (read, record_subfiles)
            (record_subfiles-keeps (IsRecorded endpoint s target)
              (λ other new hashes. record_serving-kept other new hashes endpoint s target) endpoint
              subfiles _
              (record_serving-IsRecorded endpoint s (hashes_of manifest) target av m known holds)))
    record_subfiles-IsRecorded endpoint (s ∷ subfiles) (suc k) m ((read, e), all) listed known =
        rw (e, record_subfiles)
          (record_subfiles-IsRecorded endpoint subfiles k _ all listed
            (record_serving-IsTarget endpoint s (hashes_of read) target m known))

    module _ (print : List Bytes → Bytes) (url operator : Bytes) (subfiles : List Bytes) (k : ℕ)
        (answers : endpoint_info serde client http_get url ≡ ok (operator, subfiles))
        (all : AreFetched subfiles) (listed : get_elem? subfiles k ≡ some subfile) where
      file_availability-IsRecorded :
          (m : FileAvailbilityMap)
          → IsTarget target m
          → IsRecorded
              (operator, url)
              subfile
              target
              (file_availability serde client http_get print url m).1
      unfolding file_availability
      file_availability-IsRecorded m known =
          rw (answers, file_availability)
            (record_subfiles-IsRecorded (operator, url) subfiles k m all listed known)

      discover-IsRecorded :
          (urls : List Bytes) (i : ℕ) (m : FileAvailbilityMap)
          → get_elem? urls i ≡ some url
          → IsTarget target m
          → IsRecorded (operator, url) subfile target (discover serde client http_get print urls m)
      unfolding discover
      discover-IsRecorded [] i m there known = absurd cc
      discover-IsRecorded (u ∷ urls) zero m there known =
          let same : url ≡ u = cc in
          discover-keeps (IsRecorded (operator, url) subfile target)
            (λ other new hashes.
              record_serving-kept other new hashes (operator, url) subfile target)
            print urls _
            (subst
              (λ x.
                IsRecorded (operator, url) subfile target
                  (file_availability serde client http_get print x m).1)
              same (file_availability-IsRecorded m known))
      discover-IsRecorded (u ∷ urls) (suc i) m there known = discover-IsRecorded urls i _ there (
          file_availability-keeps (IsTarget target)
            (λ other new hashes. record_serving-IsTarget other new hashes target) print u m known)

      -- When a discovery succeeds: an endpoint of the checklist that answers with its operator
      -- and with a list of subfiles whose manifests are all fetched is recorded, for each
      -- target file that the manifest of a listed subfile holds, with that subfile.
      pub file_discovery-IsRecorded :
          (subfile_hash : Bytes) (urls : List Bytes) (i j : ℕ) (wanted : Subfile)
          (meta : ChunkFileMeta) (m : FileAvailbilityMap)
          → get_elem? urls i ≡ some url
          → read_subfile serde client subfile_hash [] ≡ ok wanted
          → get_elem? wanted.chunk_files j ≡ some meta
          → meta.meta_info.hash ≡ target
          → file_discovery serde client http_get print subfile_hash urls ≡ ok m
          → IsRecorded (operator, url) subfile target m
      unfolding file_discovery
      file_discovery-IsRecorded subfile_hash urls i j wanted meta m there read has same e =
          let known : IsTarget target (target_hashes wanted.chunk_files) =
            subst (λ t. IsTarget t (target_hashes wanted.chunk_files)) same
              (target_hashes-IsTarget wanted.chunk_files j meta has) in
          subst (IsRecorded (operator, url) subfile target) (ok-injective (rw read at e))
            (discover-IsRecorded urls i (target_hashes wanted.chunk_files) there known)
