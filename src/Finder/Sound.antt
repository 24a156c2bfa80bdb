-- ===== src/Finder/Sound.antt =====
-- The finder's reports, against what the endpoints and IPFS answer.
use subfile_data_service.Prelude.{
  Bytes, bytes_eq, List, [], ◌∷◌, map, true, ◌≡◌, All, All-append, Bool-cases, inl, inr,
}
use mathlib.Core.Path.{subst}
use subfile_data_service.Rust.Result.{ok, Io, >>=-eq-ok, ok-injective, Result-cases}
use subfile_data_service.Serde.{Serde}
use subfile_data_service.HashMap.{insert}
use subfile_data_service.Ipfs.{IpfsClient}
use subfile_data_service.Ipfs.Fetch.{fetch_subfile_from_ipfs, read_subfile}
use subfile_data_service.Subfile.Types.{FileMetaInfo, ChunkFileMeta, SubfileManifest}
use subfile_data_service.Client.Targets.{IndexerEndpoint, contains}
use subfile_data_service.Finder.{
  StatusReply, Availability, FileAvailbilityMap, endpoint_eq, push_subfile, record_serving,
  target_hashes, indexer_operator, indexer_status, subfile_availability, successes,
  subfile_availabilities, record_subfiles, file_availability, endpoint_info, discover,
  file_discovery,
}

module _ (serde : Serde) (client : IpfsClient) (http_get : Bytes → Io StatusReply) where
  -- The endpoint answers with its operator, and with a list of subfiles that has the subfile.
  pub record IsServing (subfile_hash : Bytes) (endpoint : IndexerEndpoint) : Type 0 where
    pub files : List Bytes
    pub listed : indexer_status serde client http_get endpoint.1 ≡ ok files
    pub contained : contains subfile_hash files ≡ true
    pub operated : indexer_operator serde client http_get endpoint.1 ≡ ok endpoint.0

  available-IsServing :
      (subfile_hash url : Bytes) (endpoint : IndexerEndpoint)
      → subfile_availability serde client http_get subfile_hash url ≡ ok endpoint
      → IsServing subfile_hash endpoint
  unfolding subfile_availability
  available-IsServing subfile_hash url endpoint e =
      let (files, listed, more) = >>=-eq-ok (indexer_status serde client http_get url) _ e in
      let (operator, operated, last) =
        >>=-eq-ok (indexer_operator serde client http_get url) _ more in
      elim (Bool-cases (contains subfile_hash files)) [
        | inl c ↦
            let same : (operator, url) ≡ endpoint = ok-injective (rw c at last) in
            subst (IsServing subfile_hash) same
              (record { files = files; listed = listed; contained = c; operated = operated })
        | inr c ↦ let no : ⊥ = cc (rw c at last) in absurd no
      ]

  -- Every endpoint that the availability check returns has answered with its operator, and with
  -- a list of subfiles that has the subfile.
  pub subfile_availabilities-IsServing :
      (subfile_hash : Bytes) (urls : List Bytes)
      → All
          (IsServing subfile_hash)
          (subfile_availabilities serde client http_get subfile_hash urls)
  unfolding subfile_availabilities successes
  subfile_availabilities-IsServing subfile_hash [] = tt
  subfile_availabilities-IsServing subfile_hash (url ∷ urls) =
      elim (Result-cases (subfile_availability serde client http_get subfile_hash url)) [
        | inl (endpoint, e) ↦ rw e (
            (
              available-IsServing subfile_hash url endpoint e,
              subfile_availabilities-IsServing subfile_hash urls,
            ))
        | inr (inl (x, e)) ↦ rw e (subfile_availabilities-IsServing subfile_hash urls)
        | inr (inr (inl e)) ↦ rw e (subfile_availabilities-IsServing subfile_hash urls)
        | inr (inr (inr e)) ↦ rw e (subfile_availabilities-IsServing subfile_hash urls)
      ]

  -- The manifest of the subfile has the target file.
  pub record HasTarget (target subfile : Bytes) : Type 0 where
    pub manifest : SubfileManifest
    pub fetched : fetch_subfile_from_ipfs serde client subfile ≡ ok manifest
    pub has : contains target (map (λ (f : FileMetaInfo). f.hash) manifest.files) ≡ true

  abbrev AllHave : Bytes → Availability → Type 0
  AllHave target m = All (λ (p : IndexerEndpoint × List Bytes). All (HasTarget target) p.1) m

  -- Every subfile that is recorded for a target file has that file.
  abbrev pub IsSound : FileAvailbilityMap → Type 0
  IsSound targets = All (λ (t : Bytes × Availability). AllHave t.0 t.1) targets

  push-AllHave :
      (target : Bytes) (endpoint : IndexerEndpoint) (subfile : Bytes) (m : Availability)
      → HasTarget target subfile
      → AllHave target m
      → AllHave target (push_subfile endpoint subfile m)
  unfolding push_subfile
  push-AllHave target endpoint subfile [] h all = ((h, tt), tt)
  push-AllHave target endpoint subfile ((e, subfiles) ∷ m) h all =
      elim (Bool-cases (endpoint_eq e endpoint)) [
        | inl same ↦
            rw same ((All-append (HasTarget target) subfiles (subfile ∷ []) all.0 ((h, tt)), all.1))
        | inr other ↦ rw other ((all.0, push-AllHave target endpoint subfile m h all.1))
      ]

  record-IsSound :
      (endpoint : IndexerEndpoint) (subfile : Bytes) (manifest : SubfileManifest)
      (targets : FileAvailbilityMap)
      → fetch_subfile_from_ipfs serde client subfile ≡ ok manifest
      → IsSound targets
      → IsSound (
          record_serving endpoint subfile
            (map (λ (f : FileMetaInfo). f.hash) manifest.files)
            targets)
  unfolding record_serving
  record-IsSound endpoint subfile manifest [] f all = tt
  record-IsSound endpoint subfile manifest ((target, m) ∷ targets) f all =
      elim (Bool-cases (contains target (map (λ (f : FileMetaInfo). f.hash) manifest.files))) [
        | inl c ↦ rw c (
            (
              push-AllHave target endpoint subfile m
                  (record { manifest = manifest; fetched = f; has = c }) all.0,
              record-IsSound endpoint subfile manifest targets f all.1,
            ))
        | inr c ↦ rw c ((all.0, record-IsSound endpoint subfile manifest targets f all.1))
      ]

  record_subfiles-IsSound :
      (endpoint : IndexerEndpoint) (subfiles : List Bytes) (targets : FileAvailbilityMap)
      → IsSound targets
      → IsSound (record_subfiles serde client http_get endpoint subfiles targets).1
  unfolding record_subfiles
  record_subfiles-IsSound endpoint [] targets all = all
  record_subfiles-IsSound endpoint (subfile ∷ subfiles) targets all =
      elim (Result-cases (fetch_subfile_from_ipfs serde client subfile)) [
        | inl (manifest, e) ↦
            rw (e, record_subfiles)
              (record_subfiles-IsSound endpoint subfiles _
                (record-IsSound endpoint subfile manifest targets e all))
        | inr (inl (x, e)) ↦ rw (e, record_subfiles) all
        | inr (inr (inl e)) ↦ rw (e, record_subfiles) all
        | inr (inr (inr e)) ↦ rw (e, record_subfiles) all
      ]

  module _ (debug_list : List Bytes → Bytes) where
    file_availability-IsSound :
        (url : Bytes) (targets : FileAvailbilityMap)
        → IsSound targets
        → IsSound (file_availability serde client http_get debug_list url targets).1
    unfolding file_availability
    file_availability-IsSound url targets all =
        elim (Result-cases (endpoint_info serde client http_get url)) [
          | inl (found, e) ↦
              rw (e, file_availability) (record_subfiles-IsSound (found.0, url) found.1 targets all)
          | inr (inl (x, e)) ↦ rw (e, file_availability) all
          | inr (inr (inl e)) ↦ rw (e, file_availability) all
          | inr (inr (inr e)) ↦ rw (e, file_availability) all
        ]

    discover-IsSound :
        (urls : List Bytes) (targets : FileAvailbilityMap)
        → IsSound targets
        → IsSound (discover serde client http_get debug_list urls targets)
    unfolding discover
    discover-IsSound [] targets all = all
    discover-IsSound (url ∷ urls) targets all =
        discover-IsSound urls _ (file_availability-IsSound url targets all)

    insert-IsSound :
        (target : Bytes) (targets : FileAvailbilityMap)
        → IsSound targets
        → IsSound (insert target [] targets)
    unfolding insert
    insert-IsSound target [] all = (tt, tt)
    insert-IsSound target ((t, m) ∷ targets) all = elim (Bool-cases (bytes_eq t target)) [
      | inl same ↦ rw same ((tt, all.1))
      | inr other ↦ rw other ((all.0, insert-IsSound target targets all.1))
    ]

    target_hashes-IsSound : (files : List ChunkFileMeta) → IsSound (target_hashes files)
    unfolding target_hashes
    target_hashes-IsSound [] = tt
    target_hashes-IsSound (c ∷ files) =
        insert-IsSound c.meta_info.hash (target_hashes files) (target_hashes-IsSound files)

    -- In what a discovery returns, every subfile that is recorded for a target file has a
    -- manifest on IPFS that holds that file.
    pub file_discovery-IsSound :
        (subfile_hash : Bytes) (urls : List Bytes) (targets : FileAvailbilityMap)
        → file_discovery serde client http_get debug_list subfile_hash urls ≡ ok targets
        → IsSound targets
    unfolding file_discovery
    file_discovery-IsSound subfile_hash urls targets e =
        let (subfile, read, same) = >>=-eq-ok (read_subfile serde client subfile_hash []) _ e in
        subst IsSound (ok-injective same) (
          discover-IsSound urls (target_hashes subfile.chunk_files)
            (target_hashes-IsSound subfile.chunk_files))
