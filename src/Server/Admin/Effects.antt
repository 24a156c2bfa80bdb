-- ===== src/Server/Admin/Effects.antt =====
-- What the admin requests keep, whatever they answer.
use subfile_data_service.Prelude.{
  Bytes, codes, bytes_eq, List, [], ◌∷◌, Option, none, some, Bool, true, false, not, if◌then◌else◌,
  ◌≡◌, refl, All, Option-cases, inl, inr,
}
use subfile_data_service.Errors.{json_error}
use subfile_data_service.Rust.Result.{
  Result, ok, err, panic, out_of_fuel, Io, done, failed, Io-cases, map_err,
}
use subfile_data_service.Serde.{Serde}
use subfile_data_service.HashMap.{insert, remove}
use subfile_data_service.Http.{Request, authorization}
use subfile_data_service.Ipfs.Fetch.{read_subfile}
use subfile_data_service.Subfile.Types.{Subfile}
use subfile_data_service.Subfile.ChunkFiles.{validate_local_subfile}
use subfile_data_service.Subfile.Entries.{validate_subfile_entries}
use subfile_data_service.Subfile.Entries.Valid.{IsServableEntry, validate_subfile_entries-valid}
use subfile_data_service.Server.State.{Host}
use subfile_data_service.Server.Routes.{header_text, token_matches}
use subfile_data_service.Server.Admin.{
  State, Step, or_refuse, parse_admin_request, get_subfiles, add_entries, add_subfile, find_invalid,
  remove_all, remove_subfile, update_price_per_byte, dispatch, handle_admin_request,
}

module _ (serde : Serde) (host : Host) (Q : State serde → Type 0) where
  -- A step either refuses and keeps the state, or goes on with the result.
  or_refuse-keeps :
      {A : Type 0} (r : Result A) (s : State serde) (rest : A → Step serde)
      → Q s
      → ((a : A) → r ≡ ok a → Q (rest a).1)
      → Q (or_refuse serde r s rest).1
  or_refuse-keeps (ok a) s rest q k = k a refl
  or_refuse-keeps (err e) s rest q k = q
  or_refuse-keeps panic s rest q k = q
  or_refuse-keeps out_of_fuel s rest q k = q

  pub if_keeps : (b : Bool) (x y : Step serde) → Q x.1 → Q y.1 → Q (if b then x else y).1
  if_keeps true x y p q = p
  if_keeps false x y p q = q

  -- What a request may do to the state: add a subfile that was read for an accepted entry and passed
  -- the validation, remove one, and set the price.
  pub record Keeps : Type 0 where
    pub added :
        (s : State serde) (hash path : Bytes) (subfile : Subfile)
        → IsServableEntry host.fs (hash, path)
        → read_subfile serde s.client hash path ≡ ok subfile
        → validate_local_subfile host.build host.fs host.digest subfile ≡ ok tt
        → Q s
        → Q (record s { subfiles = insert subfile.ipfs_hash subfile s.subfiles })
    pub removed :
        (s : State serde) (hash : Bytes) → Q s → Q (record s { subfiles = remove hash s.subfiles })
    pub priced :
        (s : State serde) (price : serde.F32) → Q s → Q (record s { price_per_byte = price })

  module _ (keeps : Keeps) where
    add_entries-keeps :
        (entries : List (Bytes × Bytes)) (s : State serde)
        → All (IsServableEntry host.fs) entries
        → Q s
        → Q (add_entries serde host entries s).1
    unfolding add_entries
    add_entries-keeps [] s valid q = q
    add_entries-keeps ((hash, path) ∷ entries) s valid q =
        or_refuse-keeps (read_subfile serde s.client hash path) s _ q λ subfile read.
          or_refuse-keeps (validate_local_subfile host.build host.fs host.digest subfile) s _ q
            λ u passed.
              add_entries-keeps entries _ valid.1
                (keeps.added s hash path subfile valid.0 read passed q)

    add_subfile-keeps :
        (params : Option serde.JsonValue) (s : State serde)
        → Q s
        → Q (add_subfile serde host params s).1
    unfolding add_subfile
    add_subfile-keeps none s q = q
    add_subfile-keeps (some params) s q = decoded (serde.json_to_strings params)
      where
        decoded :
            (r : Io (List Bytes))
            → Q
                (elim r as (λ _. Step serde) [
                  | failed e ↦ (err (json_error e), s)
                  | done entries ↦
                      or_refuse serde
                        (validate_subfile_entries host.fs entries)
                        s
                        λ subfile_entries. add_entries serde host subfile_entries s
                ]).1
        decoded (failed e) = q
        decoded (done entries) =
            or_refuse-keeps (validate_subfile_entries host.fs entries) s _ q λ valid e.
              add_entries-keeps valid s (validate_subfile_entries-valid host.fs entries valid e) q

    remove_all-keeps :
        (hashes : List Bytes) (s : State serde)
        → Q s
        → Q (record s { subfiles = remove_all serde hashes s.subfiles })
    unfolding remove_all
    remove_all-keeps [] s q = q
    remove_all-keeps (hash ∷ hashes) s q =
        remove_all-keeps hashes (record s { subfiles = remove hash s.subfiles })
          (keeps.removed s hash q)

    remove_subfile-keeps :
        (params : Option serde.JsonValue) (s : State serde)
        → Q s
        → Q (remove_subfile serde params s).1
    unfolding remove_subfile
    remove_subfile-keeps none s q = q
    remove_subfile-keeps (some params) s q =
        or_refuse-keeps (map_err (serde.json_to_strings params) json_error) s _ q λ hashes e.
          elim (Option-cases (find_invalid serde hashes)) [
            | inl p ↦ rw p (remove_all-keeps hashes s q)
            | inr (h, p) ↦ rw p q
          ]

    update_price_per_byte-keeps :
        (params : Option serde.JsonValue) (s : State serde)
        → Q s
        → Q (update_price_per_byte serde params s).1
    unfolding update_price_per_byte
    update_price_per_byte-keeps none s q = q
    update_price_per_byte-keeps (some params) s q = elim (Io-cases (serde.json_to_f32 params)) [
      | inl (price, p) ↦ rw (p, update_price_per_byte) (keeps.priced s price q)
      | inr (e, p) ↦ rw (p, update_price_per_byte) q
    ]

    get_subfiles-keeps : (s : State serde) → Q s → Q (get_subfiles serde s).1
    unfolding get_subfiles
    get_subfiles-keeps s q =
        or_refuse-keeps (map_err (serde.json_of_subfiles s.subfiles) json_error) s _ q λ body e. q

    dispatch-keeps :
        (method : Bytes) (params : Option serde.JsonValue) (s : State serde)
        → Q s
        → Q (dispatch serde host method params s).1
    unfolding dispatch
    dispatch-keeps method params s q =
        if_keeps (bytes_eq method (codes "get_subfiles")) _ _ (get_subfiles-keeps s q) (
          if_keeps (bytes_eq method (codes "add_subfile")) _ _ (add_subfile-keeps params s q) (
            if_keeps (bytes_eq method (codes "remove_subfile")) _ _
              (remove_subfile-keeps params s q)
              (if_keeps (bytes_eq method (codes "update_price_per_byte")) _ _
                (update_price_per_byte-keeps params s q) q)))

    pub handle_admin_request-keeps :
        (req : Request) (s : State serde) → Q s → Q (handle_admin_request serde host req s).1
    unfolding handle_admin_request
    handle_admin_request-keeps req s q =
        if_keeps (not (token_matches s.admin_auth_token (header_text (req.header authorization)))) _
          _ q
          (or_refuse-keeps (parse_admin_request serde req) s _ q λ r e. dispatch-keeps r.0 r.1 s q)
