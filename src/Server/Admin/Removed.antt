-- ===== src/Server/Admin/Removed.antt =====
-- What a request to remove subfiles has changed.
use mathlib.Core.Path.{subst}
use subfile_data_service.Prelude.{
  ℕ, zero, suc, Bytes, bytes_eq, codes, ◌++◌, List, [], ◌∷◌, ◌||◌, Option, none, some, Bool, true,
  false, if◌then◌else◌, ◌≡◌, refl, ap, ◌∙◌, All, get_elem?, Bool-cases, inl, inr,
}
use subfile_data_service.Rust.Result.{ok, done}
use subfile_data_service.Serde.{Serde}
use subfile_data_service.HashMap.{HashMap, get, remove}
use subfile_data_service.HashMap.Laws.{get-remove}
use subfile_data_service.Http.{StatusCode, respond}
use subfile_data_service.Ipfs.{is_valid_ipfs_hash}
use subfile_data_service.Subfile.Types.{Subfile}
use subfile_data_service.Client.Targets.{contains}
use subfile_data_service.Server.Admin.{
  State, Step, refuse, find_invalid, remove_all, remove_subfile,
}

module _ (serde : Serde) where
  remove_all-get :
      (hashes : List Bytes) (subfiles : HashMap Subfile) (j : Bytes)
      → get j (remove_all serde hashes subfiles)
        ≡ (if contains j hashes then none else get j subfiles)
  unfolding remove_all contains
  remove_all-get [] subfiles j = refl
  remove_all-get (hash ∷ hashes) subfiles j =
      remove_all-get hashes (remove hash subfiles) j
      ∙ both (bytes_eq hash j) (contains j hashes) (get-remove hash j subfiles)
    where
      both :
          (a b : Bool)
          → get j (remove hash subfiles) ≡ (if a then none else get j subfiles)
          → (if b then none else get j (remove hash subfiles))
            ≡ (if a || b then none else get j subfiles)
      both true true e = refl
      both true false e = e
      both false true e = refl
      both false false e = e

  abbrev verdict : List Bytes → State serde → Option Bytes → Step serde
  verdict hashes s invalid = elim invalid [
    | some ipfs_hash ↦ refuse serde (codes "Invalid IPFS hash: " ++ ipfs_hash) s
    | none ↦ (
      ok (respond StatusCode.ok (codes "Subfile(s) removed successfully")),
      record s { subfiles = remove_all serde hashes s.subfiles },
    )
  ]

  remove_subfile-eq :
      (params : serde.JsonValue) (hashes : List Bytes) (s : State serde)
      → serde.json_to_strings params ≡ done hashes
      → remove_subfile serde (some params) s ≡ verdict hashes s (find_invalid serde hashes)
  unfolding remove_subfile
  remove_subfile-eq params hashes s parsed = rw parsed refl

  -- For parameters that are a list of texts: when all of them are valid IPFS hashes,
  -- remove_subfile takes exactly those subfiles off the list and keeps the others; when one of
  -- them is not, the state stays as it is.
  pub remove_subfile-atomic :
      (params : serde.JsonValue) (hashes : List Bytes) (s : State serde)
      → serde.json_to_strings params ≡ done hashes
      → (All (λ h. is_valid_ipfs_hash h ≡ true) hashes
          → (j : Bytes)
          → get j (remove_subfile serde (some params) s).1.subfiles
            ≡ (if contains j hashes then none else get j s.subfiles))
        × ((k : ℕ) (hash : Bytes)
            → get_elem? hashes k ≡ some hash
            → is_valid_ipfs_hash hash ≡ false
            → (remove_subfile serde (some params) s).1 ≡ s)
  unfolding find_invalid
  remove_subfile-atomic params hashes s parsed = (
    λ valid j.
        ap (λ (p : Step serde). get j p.1.subfiles)
          (remove_subfile-eq params hashes s parsed
            ∙ ap (verdict hashes s) (all_valid hashes valid))
        ∙ remove_all-get hashes s.subfiles j,
    λ k hash found bad.
        let (h, first) = one_bad hashes k hash found bad in
        ap (λ (p : Step serde). p.1)
          (remove_subfile-eq params hashes s parsed ∙ ap (verdict hashes s) first),
  )
    where
      all_valid :
          (hs : List Bytes)
          → All (λ h. is_valid_ipfs_hash h ≡ true) hs
          → find_invalid serde hs ≡ none
      all_valid [] valid = refl
      all_valid (h ∷ hs) valid = rw (valid.0) (all_valid hs valid.1)

      one_bad :
          (hs : List Bytes) (k : ℕ) (hash : Bytes)
          → get_elem? hs k ≡ some hash
          → is_valid_ipfs_hash hash ≡ false
          → (h : Bytes) × (find_invalid serde hs ≡ some h)
      one_bad [] k hash found bad = absurd cc
      one_bad (h ∷ hs) zero hash found bad =
          let same : hash ≡ h = cc in
          (h, rw (subst (λ x. is_valid_ipfs_hash x ≡ false) same bad) refl)
      one_bad (h ∷ hs) (suc k) hash found bad = elim (Bool-cases (is_valid_ipfs_hash h)) [
        | inl e ↦ rw e (one_bad hs k hash found bad)
        | inr e ↦ (h, rw e refl)
      ]
