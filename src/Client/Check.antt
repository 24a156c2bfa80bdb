-- ===== src/Client/Check.antt =====
-- `availbility_check` of subfile-exchange/src/subfile_client/mod.rs.
use subfile_data_service.Prelude.{
  Bytes, codes, arith, List, [], ◌∷◌, ◌++◌, false, not, if◌then◌else◌, ◌≡◌, All, Bool-cases, inl,
  inr,
}
use mathlib.Core.Path.{subst}
use subfile_data_service.Errors.{Error, data_unavilable}
use subfile_data_service.Rust.Result.{
  Result, ok, err, panic, out_of_fuel, Io, >>=-eq-ok, ok-injective, Result-cases,
}
use subfile_data_service.Serde.{Serde}
use subfile_data_service.Ipfs.{IpfsClient}
use subfile_data_service.Finder.{
  StatusReply, FileAvailbilityMap, subfile_availability, successes, subfile_availabilities,
  file_discovery, indexer_status, indexer_operator,
}
use subfile_data_service.Finder.Sound.{IsServing, subfile_availabilities-IsServing}
use subfile_data_service.Client.Targets.{
  IndexerEndpoint, SubfileDownloader, contains, update_indexer_urls,
}

-- The prints `{:#?}` and `{:?}` of the messages.
pub record Prints : Type 0 where
  pub missing : List Bytes → Bytes
  pub found : FileAvailbilityMap → Bytes
  pub urls : List IndexerEndpoint → Bytes
  pub failure : Error → Bytes

-- `static_endpoints.iter().filter(|url| !blocklist.contains(*url))`
unfoldable pub not_blocked : (blocklist urls : List Bytes) → List Bytes
not_blocked blocklist [] = []
not_blocked blocklist (url ∷ urls) =
    let rest = not_blocked blocklist urls in
    if not (contains url blocklist) then url ∷ rest else rest

not_blocked-All :
    (blocklist urls : List Bytes)
    → All (λ url. contains url blocklist ≡ false) (not_blocked blocklist urls)
unfolding not_blocked
not_blocked-All blocklist [] = tt
not_blocked-All blocklist (url ∷ urls) = elim (Bool-cases (contains url blocklist)) [
  | inl e ↦ rw e (not_blocked-All blocklist urls)
  | inr e ↦ rw e ((e, not_blocked-All blocklist urls))
]

module _ (serde : Serde) (client : IpfsClient) (http_get : Bytes → Io StatusReply) where
  -- The result, with the endpoints that the downloader has afterwards.
  unfoldable pub availbility_check :
      Prints → SubfileDownloader → Result (Unit {0}) × SubfileDownloader
  availbility_check prints self =
      let endpoints = not_blocked self.indexer_blocklist self.static_endpoints in
      let self' =
        update_indexer_urls (subfile_availabilities serde client http_get self.ipfs_hash endpoints)
          self in
      elim (self'.indexer_urls) [
        | e ∷ es ↦ (ok tt, self')
        | [] ↦ elim (file_discovery serde client http_get prints.missing self.ipfs_hash endpoints) [
          | ok m ↦ (
            err (
                data_unavilable
                  (codes "Files available on these available subfiles: " ++ prints.found m)),
            self',
          )
          | err e ↦ (
            err (
                data_unavilable (
                  codes "Cannot match the files: "
                  ++ (prints.urls self'.indexer_urls ++ (codes ", " ++ prints.failure e)))),
            self',
          )
          | panic ↦ (panic, self')
          | out_of_fuel ↦ (out_of_fuel, self')
        ]
      ]

  availability-url :
      (subfile_hash url : Bytes) (endpoint : IndexerEndpoint)
      → subfile_availability serde client http_get subfile_hash url ≡ ok endpoint
      → url ≡ endpoint.1
  unfolding subfile_availability
  availability-url subfile_hash url endpoint e =
      let (files, listed, more) = >>=-eq-ok (indexer_status serde client http_get url) _ e in
      let (operator, operated, last) =
        >>=-eq-ok (indexer_operator serde client http_get url) _ more in
      elim (Bool-cases (contains subfile_hash files)) [
        | inl c ↦ let same : (operator, url) ≡ endpoint = ok-injective (rw c at last) in cc
        | inr c ↦ let no : ⊥ = cc (rw c at last) in absurd no
      ]

  module _ (P : Bytes → Type 0) where
    available-All :
        (subfile_hash : Bytes) (urls : List Bytes)
        → All P urls
        → All
            (λ (e : IndexerEndpoint). P e.1)
            (subfile_availabilities serde client http_get subfile_hash urls)
    unfolding subfile_availabilities successes
    available-All subfile_hash [] all = tt
    available-All subfile_hash (url ∷ urls) all =
        elim (Result-cases (subfile_availability serde client http_get subfile_hash url)) [
          | inl (endpoint, e) ↦ rw e (
              (
                subst P (availability-url subfile_hash url endpoint e) all.0,
                available-All subfile_hash urls all.1,
              ))
          | inr (inl (x, e)) ↦ rw e (available-All subfile_hash urls all.1)
          | inr (inr (inl e)) ↦ rw e (available-All subfile_hash urls all.1)
          | inr (inr (inr e)) ↦ rw e (available-All subfile_hash urls all.1)
        ]

  pub check-urls :
      (prints : Prints) (self : SubfileDownloader)
      → (availbility_check prints self).1.indexer_urls
        ≡ subfile_availabilities serde client http_get self.ipfs_hash
            (not_blocked self.indexer_blocklist self.static_endpoints)
  unfolding availbility_check update_indexer_urls
  check-urls prints self = ground arith

  -- After an availability check, whatever it returns, every endpoint of the downloader has
  -- answered with its operator and with a list of subfiles that has the wanted one, and was not
  -- on the blocklist.
  pub availbility_check-All :
      (prints : Prints) (self : SubfileDownloader)
      → All
          (IsServing serde client http_get self.ipfs_hash)
          (availbility_check prints self).1.indexer_urls
        × All
            (λ (e : IndexerEndpoint). contains e.1 self.indexer_blocklist ≡ false)
            (availbility_check prints self).1.indexer_urls
  availbility_check-All prints self = rw (check-urls prints self) (
      (
        subfile_availabilities-IsServing serde client http_get self.ipfs_hash
            (not_blocked self.indexer_blocklist self.static_endpoints),
        available-All (λ url. contains url self.indexer_blocklist ≡ false) self.ipfs_hash
            (not_blocked self.indexer_blocklist self.static_endpoints)
            (not_blocked-All self.indexer_blocklist self.static_endpoints),
      ))

  -- The check changes the endpoints only.
  pub availbility_check-keeps :
      (prints : Prints) (self : SubfileDownloader)
      → ((availbility_check prints self).1.target_chunks ≡ self.target_chunks)
        × ((availbility_check prints self).1.subfile ≡ self.subfile)
        × ((availbility_check prints self).1.output_dir ≡ self.output_dir)
  unfolding availbility_check update_indexer_urls
  availbility_check-keeps prints self = (ground arith, ground arith, ground arith)
