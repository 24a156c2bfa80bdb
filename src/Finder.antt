-- ===== src/Finder.antt =====
-- subfile-exchange/src/subfile_finder/mod.rs. The HTTP client is a crate, so a parameter.
pub mod Sound
pub mod Complete
pub mod Discovered
pub mod Discovery
use subfile_data_service.Prelude.{
  Bytes, codes, bytes_eq, List, [], ◌∷◌, ◌++◌, map, Bool, not, ◌&&◌, if◌then◌else◌,
}
use subfile_data_service.Errors.{request, data_unavilable}
use subfile_data_service.Rust.Result.{Result, ok, err, panic, out_of_fuel, Io, ◌>>=◌, ◌>>◌, map_err}
use subfile_data_service.Serde.{Serde}
use subfile_data_service.HashMap.{HashMap, insert}
use subfile_data_service.Ipfs.{IpfsClient}
use subfile_data_service.Ipfs.Fetch.{fetch_subfile_from_ipfs, read_subfile}
use subfile_data_service.Subfile.Types.{FileMetaInfo, ChunkFileMeta}
use subfile_data_service.Client.Targets.{IndexerEndpoint, contains}

-- A response to a GET: `status().is_success()`, and its JSON as a list of texts (`/status`) or as an
-- `Operator` (`/operator`).
pub record StatusReply : Type 0 where
  pub is_success : Bool
  pub json_files : Io (List Bytes)
  pub json_operator : Io Bytes

-- What each endpoint was found to serve of a file: for an endpoint the subfiles that hold it.
abbrev pub Availability : Type 0
Availability = List (IndexerEndpoint × List Bytes)

-- Per target file, by its hash. The `Arc<Mutex<..>>` around the maps is shared by no other task.
abbrev pub FileAvailbilityMap : Type 0
FileAvailbilityMap = HashMap Availability

unfoldable pub endpoint_eq : IndexerEndpoint → IndexerEndpoint → Bool
endpoint_eq a b = bytes_eq a.0 b.0 && bytes_eq a.1 b.1

-- `entry(endpoint).and_modify(|e| e.push(subfile)).or_insert(vec![subfile])`
unfoldable pub push_subfile : IndexerEndpoint → Bytes → Availability → Availability
unfolding endpoint_eq
push_subfile endpoint subfile [] = (endpoint, subfile ∷ []) ∷ []
push_subfile endpoint subfile ((e, subfiles) ∷ m) =
    if endpoint_eq e endpoint
    then (e, subfiles ++ subfile ∷ []) ∷ m
    else (e, subfiles) ∷ push_subfile endpoint subfile m

-- One subfile of the endpoint, for every target file.
unfoldable pub record_serving :
    IndexerEndpoint
    → (subfile : Bytes) (file_hashes : List Bytes) → FileAvailbilityMap
    → FileAvailbilityMap
unfolding push_subfile
record_serving endpoint subfile file_hashes [] = []
record_serving endpoint subfile file_hashes ((target, m) ∷ targets) =
    (target, if contains target file_hashes then push_subfile endpoint subfile m else m)
    ∷ record_serving endpoint subfile file_hashes targets

unfoldable pub unavailable_files : FileAvailbilityMap → List Bytes
unavailable_files [] = []
unavailable_files ((target, []) ∷ targets) = target ∷ unavailable_files targets
unavailable_files ((target, e ∷ m) ∷ targets) = unavailable_files targets

-- The target files, by hash, with nothing found yet.
unfoldable pub target_hashes : List ChunkFileMeta → FileAvailbilityMap
target_hashes [] = []
target_hashes (c ∷ files) = insert c.meta_info.hash [] (target_hashes files)

module _ (serde : Serde) (client : IpfsClient) (http_get : Bytes → Io StatusReply) where
  unfoldable pub indexer_operator : Bytes → Result Bytes
  indexer_operator url = do
    response ← map_err (http_get (url ++ codes "/operator")) request
    if not response.is_success
        then err (data_unavilable (codes "Operator request failed."))
        else map_err response.json_operator request

  unfoldable pub indexer_status : Bytes → Result (List Bytes)
  indexer_status url = do
    response ← map_err (http_get (url ++ codes "/status")) request
    if not response.is_success
        then err (data_unavilable (codes "Status response errored: " ++ (url ++ codes "/status")))
        else map_err response.json_files request

  unfoldable pub subfile_availability : (subfile_hash url : Bytes) → Result IndexerEndpoint
  subfile_availability subfile_hash url = do
    files ← indexer_status url
    operator ← indexer_operator url
    if not (contains subfile_hash files)
        then err (data_unavilable (codes "IPFS hash not found in files served at " ++ url))
        else ok (operator, url)

  -- `results.into_iter().filter_map(Result::ok)`
  unfoldable pub successes : List (Result IndexerEndpoint) → List IndexerEndpoint
  successes [] = []
  successes (ok endpoint ∷ results) = endpoint ∷ successes results
  successes (_ ∷ results) = successes results

  -- `buffer_unordered` gives the results in the order in which the checks end; here they stand in the
  -- order of the checklist. For an empty checklist the function here returns: the source buffers by 0
  -- there, with which the crate's stream does not end.
  unfoldable pub subfile_availabilities : Bytes → List Bytes → List IndexerEndpoint
  unfolding successes
  subfile_availabilities subfile_hash endpoint_checklist =
      successes (map (subfile_availability subfile_hash) endpoint_checklist)

  -- The loop of `file_availability` over the subfiles of an endpoint; what was recorded before an
  -- error stays recorded.
  unfoldable pub record_subfiles :
      IndexerEndpoint → List Bytes → FileAvailbilityMap → Result (Unit {0}) × FileAvailbilityMap
  unfolding record_serving
  record_subfiles endpoint [] targets = (ok tt, targets)
  record_subfiles endpoint (subfile ∷ subfiles) targets =
      elim (fetch_subfile_from_ipfs serde client subfile) [
        | ok manifest ↦ record_subfiles endpoint subfiles (
            record_serving endpoint subfile (map (λ (f : FileMetaInfo). f.hash) manifest.files)
              targets)
        | err e ↦ (err e, targets)
        | panic ↦ (panic, targets)
        | out_of_fuel ↦ (out_of_fuel, targets)
      ]

  -- The check at the end of `file_availability`. The message lists the missing files in the debug
  -- format, `debug_list`.
  unfoldable pub check_complete :
      (debug_list : List Bytes → Bytes) → FileAvailbilityMap → Result (Unit {0})
  check_complete debug_list targets = elim (unavailable_files targets) [
    | [] ↦ ok tt
    | f ∷ fs ↦ err (
        data_unavilable
          (codes "File availability incomplete, missing files: " ++ debug_list (f ∷ fs)))
  ]

  -- The operator of an endpoint and the subfiles that it serves.
  unfoldable pub endpoint_info : Bytes → Result (Bytes × List Bytes)
  endpoint_info url = do
    operator ← indexer_operator url
    subfiles ← indexer_status url
    ok (operator, subfiles)

  unfoldable pub file_availability :
      (debug_list : List Bytes → Bytes)
      → Bytes
      → FileAvailbilityMap
      → Result (Unit {0}) × FileAvailbilityMap
  file_availability debug_list url targets = elim (endpoint_info url) [
    | ok found ↦
        let (r, targets') = record_subfiles (found.0, url) found.1 targets in
        (r >> check_complete debug_list targets', targets')
    | err e ↦ (err e, targets)
    | panic ↦ (panic, targets)
    | out_of_fuel ↦ (out_of_fuel, targets)
  ]

  -- The loop of `file_discovery` over the endpoints; an endpoint that fails is passed over.
  unfoldable pub discover :
      (debug_list : List Bytes → Bytes) → List Bytes → FileAvailbilityMap → FileAvailbilityMap
  discover debug_list [] targets = targets
  discover debug_list (url ∷ urls) targets =
      discover debug_list urls (file_availability debug_list url targets).1

  unfoldable pub file_discovery :
      (debug_list : List Bytes → Bytes)
      → (subfile_hash : Bytes) → List Bytes
      → Result FileAvailbilityMap
  file_discovery debug_list subfile_hash endpoint_checklist = do
    subfile ← read_subfile serde client subfile_hash []
    ok (discover debug_list endpoint_checklist (target_hashes subfile.chunk_files))
