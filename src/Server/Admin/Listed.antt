-- ===== src/Server/Admin/Listed.antt =====
-- What an accepted admin request has changed of the subfiles that the server lists.
use mathlib.Core.Path.{subst}
use subfile_data_service.Prelude.{
  ℕ, zero, suc, Bytes, bytes_eq, bytes_eq_iff, bytes_eq_refl, List, [], ◌∷◌, ◌||◌, some, Bool,
  false, ◌≡◌, refl, sym, ap, ◌∙◌, map, arith, get_elem?, Bool-cases, inl, inr,
}
use subfile_data_service.Errors.{json_error}
use subfile_data_service.Rust.Result.{Result, ok, err, panic, out_of_fuel, Io, done, failed}
use subfile_data_service.Serde.{Serde}
use subfile_data_service.HashMap.{HashMap, get, insert}
use subfile_data_service.HashMap.Laws.{get-insert}
use subfile_data_service.Http.{StatusCode, Response}
use subfile_data_service.Ipfs.{IpfsClient}
use subfile_data_service.Ipfs.Fetch.{read_subfile}
use subfile_data_service.Subfile.Types.{Subfile}
use subfile_data_service.Subfile.ChunkFiles.{validate_local_subfile}
use subfile_data_service.Subfile.Entries.{validate_subfile_entries}
use subfile_data_service.Client.Targets.{contains}
use subfile_data_service.Server.State.{Host, create_error_response}
use subfile_data_service.Server.Invariant.{read_subfile-fields}
use subfile_data_service.Server.Admin.{State, Step, or_refuse, add_entries, add_subfile}

module _ (serde : Serde) (host : Host) where
  -- A step that answers with status 200 has got its result.
  or_refuse-accepted :
      {A : Type 0} (r : Result A) (s : State serde) (rest : A → Step serde) {response : Response}
      → (or_refuse serde r s rest).0 ≡ ok response
      → response.status ≡ StatusCode.ok
      → (a : A) × (r ≡ ok a) × (or_refuse serde r s rest ≡ rest a)
  unfolding create_error_response
  or_refuse-accepted (ok a) s rest e accepted = (a, refl, refl)
  or_refuse-accepted (err x) s rest e accepted = absurd cc
  or_refuse-accepted panic s rest e accepted = absurd cc
  or_refuse-accepted out_of_fuel s rest e accepted = absurd cc

  -- A subfile as it was read from IPFS under the hash, and found valid.
  pub record IsAdded (client : IpfsClient) (hash : Bytes) (subfile : Subfile) : Type 0 where
    pub path : Bytes
    pub read : read_subfile serde client hash path ≡ ok subfile
    pub passed : validate_local_subfile host.build host.fs host.digest subfile ≡ ok tt

  abbrev pub IsListed : IpfsClient → Bytes → HashMap Subfile → Type 0
  IsListed client hash subfiles =
      (subfile : Subfile) × (get hash subfiles ≡ some subfile) × IsAdded client hash subfile

  module _ (client : IpfsClient) (hash path : Bytes) (subfile : Subfile) (m : HashMap Subfile)
      (read : read_subfile serde client hash path ≡ ok subfile)
      (passed : validate_local_subfile host.build host.fs host.digest subfile ≡ ok tt) where
    insert_new : IsListed client hash (insert hash subfile m)
    insert_new = (
      subfile,
      get-insert hash hash subfile m ∙ rw (bytes_eq_refl hash) refl,
      record { path = path; read = read; passed = passed },
    )

    insert_kept : (j : Bytes) → IsListed client j m → IsListed client j (insert hash subfile m)
    insert_kept j (other, there, added) = elim (Bool-cases (bytes_eq hash j)) [
      | inl e ↦
          subst (λ k. IsListed client k (insert hash subfile m)) ((bytes_eq_iff hash j).0 e)
            insert_new
      | inr e ↦ (other, get-insert hash j subfile m ∙ rw e there, added)
    ]

  -- The entries that are left go on after one was added.
  add_one :
      (hash path : Bytes) (entries : List (Bytes × Bytes)) (s : State serde) {response : Response}
      → (add_entries serde host ((hash, path) ∷ entries) s).0 ≡ ok response
      → response.status ≡ StatusCode.ok
      → (subfile : Subfile) × (read_subfile serde s.client hash path ≡ ok subfile)
        × (validate_local_subfile host.build host.fs host.digest subfile ≡ ok tt)
        × (add_entries serde host ((hash, path) ∷ entries) s
            ≡ add_entries serde host entries
                (record s { subfiles = insert hash subfile s.subfiles }))
  unfolding add_entries
  add_one hash path entries s e accepted =
      let (subfile, read, more) =
        or_refuse-accepted (read_subfile serde s.client hash path) s _ e accepted in
      let e' = sym (ap (λ (p : Step serde). p.0) more) ∙ e in
      let (u, passed, rest) =
        or_refuse-accepted (validate_local_subfile host.build host.fs host.digest subfile) s _ e'
          accepted in
      (
        subfile,
        read,
        passed,
        more
            ∙ rest
            ∙ ap
                (λ k.
                  add_entries serde host entries
                    (record s { subfiles = insert k subfile s.subfiles }))
                (read_subfile-fields serde s.client hash path subfile read).0,
      )

  add_entries-kept :
      (entries : List (Bytes × Bytes)) (s : State serde) (j : Bytes) {response : Response}
      → (add_entries serde host entries s).0 ≡ ok response
      → response.status ≡ StatusCode.ok
      → IsListed s.client j s.subfiles
      → IsListed s.client j (add_entries serde host entries s).1.subfiles
  unfolding add_entries
  add_entries-kept [] s j e accepted there = there
  add_entries-kept ((hash, path) ∷ entries) s j e accepted there =
      let (subfile, read, passed, same) = add_one hash path entries s e accepted in
      subst (λ (p : Step serde). IsListed s.client j p.1.subfiles) (sym same)
        (add_entries-kept entries (record s { subfiles = insert hash subfile s.subfiles }) j
          (sym (ap (λ (p : Step serde). p.0) same) ∙ e) accepted
          (insert_kept s.client hash path subfile s.subfiles read passed j there))

  add_entries-IsListed :
      (entries : List (Bytes × Bytes)) (s : State serde) (k : ℕ) (hash path : Bytes)
      {response : Response}
      → (add_entries serde host entries s).0 ≡ ok response
      → response.status ≡ StatusCode.ok
      → get_elem? entries k ≡ some (hash, path)
      → IsListed s.client hash (add_entries serde host entries s).1.subfiles
  unfolding add_entries
  add_entries-IsListed [] s k hash path e accepted found = absurd cc
  add_entries-IsListed ((h, p) ∷ entries) s zero hash path e accepted found =
      let (subfile, read, passed, same) = add_one h p entries s e accepted in
      let same_hash : h ≡ hash = cc in
      subst (λ x. IsListed s.client x (add_entries serde host ((h, p) ∷ entries) s).1.subfiles)
        same_hash
        (subst (λ (p : Step serde). IsListed s.client h p.1.subfiles) (sym same)
          (add_entries-kept entries (record s { subfiles = insert h subfile s.subfiles }) h
            (sym (ap (λ (p : Step serde). p.0) same) ∙ e) accepted
            (insert_new s.client h p subfile s.subfiles read passed)))
  add_entries-IsListed ((h, p) ∷ entries) s (suc k) hash path e accepted found =
      let (subfile, read, passed, same) = add_one h p entries s e accepted in
      subst (λ (p : Step serde). IsListed s.client hash p.1.subfiles) (sym same)
        (add_entries-IsListed entries (record s { subfiles = insert h subfile s.subfiles }) k hash
          path (sym (ap (λ (p : Step serde). p.0) same) ∙ e) accepted found)

  add_entries-others :
      (entries : List (Bytes × Bytes)) (s : State serde) (j : Bytes) {response : Response}
      → (add_entries serde host entries s).0 ≡ ok response
      → response.status ≡ StatusCode.ok
      → contains j (map (λ (e : Bytes × Bytes). e.0) entries) ≡ false
      → get j (add_entries serde host entries s).1.subfiles ≡ get j s.subfiles
  unfolding add_entries contains
  add_entries-others [] s j e accepted other = refl
  add_entries-others ((hash, path) ∷ entries) s j e accepted other =
      let (subfile, read, passed, same) = add_one hash path entries s e accepted in
      let (first, rest) =
        neither (bytes_eq hash j) (contains j (map (λ (e : Bytes × Bytes). e.0) entries)) other in
      ap (λ (p : Step serde). get j p.1.subfiles) same
      ∙ add_entries-others entries (record s { subfiles = insert hash subfile s.subfiles }) j
          (sym (ap (λ (p : Step serde). p.0) same) ∙ e) accepted rest
      ∙ get-insert hash j subfile s.subfiles
      ∙ rw first refl
    where
      neither : (a b : Bool) → (a || b) ≡ false → (a ≡ false) × (b ≡ false)
      neither a b e = ground arith

  abbrev decoded_step : State serde → Io (List Bytes) → Step serde
  decoded_step s r = elim r as (λ _. Step serde) [
    | failed x ↦ (err (json_error x), s)
    | done entries ↦
        or_refuse serde (validate_subfile_entries host.fs entries) s
          λ subfile_entries. add_entries serde host subfile_entries s
  ]

  -- An accepted request is that of its entries.
  add_subfile-accepted :
      (params : serde.JsonValue) (s : State serde) {response : Response}
      → (add_subfile serde host (some params) s).0 ≡ ok response
      → response.status ≡ StatusCode.ok
      → (texts : List Bytes) × (entries : List (Bytes × Bytes)) × (serde.json_to_strings params
          ≡ done texts)
        × (validate_subfile_entries host.fs texts ≡ ok entries)
        × (add_subfile serde host (some params) s ≡ add_entries serde host entries s)
  unfolding add_subfile
  add_subfile-accepted params s {response} e accepted = decoded (serde.json_to_strings params) e
    where
      decoded :
          (r : Io (List Bytes))
          → (decoded_step s r).0 ≡ ok response
          → (texts : List Bytes) × (entries : List (Bytes × Bytes)) × (r ≡ done texts)
            × (validate_subfile_entries host.fs texts ≡ ok entries)
            × (decoded_step s r ≡ add_entries serde host entries s)
      decoded (failed x) h = absurd cc
      decoded (done texts) h =
          let (entries, valid, same) =
            or_refuse-accepted (validate_subfile_entries host.fs texts) s _ h accepted in
          (texts, entries, refl, valid, same)

  -- When add_subfile answers with status 200, its parameters were a list of texts that were
  -- accepted as entries; each entry's hash is then listed with a subfile that was read from
  -- IPFS under that hash and whose local files were validated, and every hash that is no
  -- entry's is listed as before.
  pub add_subfile-lists :
      (params : serde.JsonValue) (s : State serde) (response : Response)
      → (add_subfile serde host (some params) s).0 ≡ ok response
      → response.status ≡ StatusCode.ok
      → (texts : List Bytes) × (entries : List (Bytes × Bytes)) × (serde.json_to_strings params
          ≡ done texts)
        × (validate_subfile_entries host.fs texts ≡ ok entries)
        × ((k : ℕ) (hash path : Bytes)
            → get_elem? entries k ≡ some (hash, path)
            → IsListed s.client hash (add_subfile serde host (some params) s).1.subfiles)
        × ((j : Bytes)
            → contains j (map (λ (e : Bytes × Bytes). e.0) entries) ≡ false
            → get j (add_subfile serde host (some params) s).1.subfiles ≡ get j s.subfiles)
  add_subfile-lists params s response e accepted =
      let (texts, entries, parsed, valid, same) = add_subfile-accepted params s e accepted in
      let e' = sym (ap (λ (p : Step serde). p.0) same) ∙ e in
      (
        texts,
        entries,
        parsed,
        valid,
        λ k hash path found.
            subst (λ (p : Step serde). IsListed s.client hash p.1.subfiles) (sym same)
              (add_entries-IsListed entries s k hash path e' accepted found),
        λ j other.
            ap (λ (p : Step serde). get j p.1.subfiles) same
            ∙ add_entries-others entries s j e' accepted other,
      )
