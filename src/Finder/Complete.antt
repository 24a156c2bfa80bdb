-- ===== src/Finder/Complete.antt =====
-- Which endpoints the availability check must find.
use subfile_data_service.Prelude.{
  ℕ, zero, suc, Bytes, List, [], ◌∷◌, some, false, ◌≡◌, refl, sym, ap, get_elem?, Bool-cases, inl,
  inr,
}
use mathlib.Core.Path.{subst}
use subfile_data_service.Rust.Result.{ok, Io, Result-cases}
use subfile_data_service.Serde.{Serde}
use subfile_data_service.Ipfs.{IpfsClient}
use subfile_data_service.Finder.{
  StatusReply, subfile_availability, successes, subfile_availabilities,
}
use subfile_data_service.Client.Targets.{
  IndexerEndpoint, SubfileDownloader, contains, update_indexer_urls,
}
use subfile_data_service.Client.Check.{Prints, not_blocked, availbility_check, check-urls}

-- An element of a list, at some position.
abbrev pub At : {A : Type 0} → A → List A → Type 0
At x xs = (k : ℕ) × (get_elem? xs k ≡ some x)

At-cons : {A : Type 0} (x : A) (xs : List A) → At x xs → (y : A) × (ys : List A) × (xs ≡ y ∷ ys)
At-cons x [] (k, found) = absurd cc
At-cons x (y ∷ ys) found = (y, ys, refl)

not_blocked-At :
    (blocklist urls : List Bytes) (url : Bytes) (k : ℕ)
    → get_elem? urls k ≡ some url
    → contains url blocklist ≡ false
    → At url (not_blocked blocklist urls)
unfolding not_blocked
not_blocked-At blocklist [] url k found free = absurd cc
not_blocked-At blocklist (x ∷ urls) url zero found free =
    let same : url ≡ x = cc in
    rw (subst (λ u. contains u blocklist ≡ false) same free) ((0, ap some (sym same)))
not_blocked-At blocklist (x ∷ urls) url (suc k) found free =
    let (j, there) = not_blocked-At blocklist urls url k found free in
    elim (Bool-cases (contains x blocklist)) [
      | inl e ↦ rw e ((j, there))
      | inr e ↦ rw e ((suc j, there))
    ]

module _ (serde : Serde) (client : IpfsClient) (http_get : Bytes → Io StatusReply) where
  availabilities-At :
      (subfile_hash : Bytes) (urls : List Bytes) (url : Bytes) (endpoint : IndexerEndpoint) (k : ℕ)
      → get_elem? urls k ≡ some url
      → subfile_availability serde client http_get subfile_hash url ≡ ok endpoint
      → At endpoint (subfile_availabilities serde client http_get subfile_hash urls)
  unfolding subfile_availabilities successes
  availabilities-At subfile_hash [] url endpoint k found serves = absurd cc
  availabilities-At subfile_hash (x ∷ urls) url endpoint zero found serves =
      let same : url ≡ x = cc in
      rw
        (subst (λ u. subfile_availability serde client http_get subfile_hash u ≡ ok endpoint) same
          serves)
        ((0, refl))
  availabilities-At subfile_hash (x ∷ urls) url endpoint (suc k) found serves =
      let (j, there) = availabilities-At subfile_hash urls url endpoint k found serves in
      elim (Result-cases (subfile_availability serde client http_get subfile_hash x)) [
        | inl (other, e) ↦ rw e ((suc j, there))
        | inr (inl (x', e)) ↦ rw e ((j, there))
        | inr (inr (inl e)) ↦ rw e ((j, there))
        | inr (inr (inr e)) ↦ rw e ((j, there))
      ]

  -- A check that finds an endpoint succeeds.
  check-ok :
      (prints : Prints) (self : SubfileDownloader) (endpoint : IndexerEndpoint)
      → At endpoint (
          subfile_availabilities serde client http_get self.ipfs_hash
            (not_blocked self.indexer_blocklist self.static_endpoints))
      → (availbility_check serde client http_get prints self).0 ≡ ok tt
  unfolding availbility_check update_indexer_urls
  check-ok prints self endpoint found =
      let (e, es, some_found) = At-cons endpoint _ found in rw (some_found, availbility_check) refl

  -- When an endpoint among the static ones that is not on the blocklist is available, which
  -- means that it answers with its operator and lists the subfile, the availability check
  -- succeeds and the downloader has that endpoint.
  pub availbility_check_complete :
      (prints : Prints) (self : SubfileDownloader) (url : Bytes) (endpoint : IndexerEndpoint)
      (k : ℕ)
      → get_elem? self.static_endpoints k ≡ some url
      → contains url self.indexer_blocklist ≡ false
      → subfile_availability serde client http_get self.ipfs_hash url ≡ ok endpoint
      → ((availbility_check serde client http_get prints self).0 ≡ ok tt)
        × At endpoint (availbility_check serde client http_get prints self).1.indexer_urls
  availbility_check_complete prints self url endpoint k found free serves =
      let (i, kept) =
        not_blocked-At self.indexer_blocklist self.static_endpoints url k found free in
      let there =
        availabilities-At self.ipfs_hash (not_blocked self.indexer_blocklist self.static_endpoints)
          url endpoint i kept serves in
      (
        check-ok prints self endpoint there,
        subst (At endpoint) (sym (check-urls serde client http_get prints self)) there,
      )
