-- ===== src/Server/Admin/Guarded.antt =====
-- Who may change the state.
use subfile_data_service.Prelude.{
  Bytes, bytes_eq, bytes_eq_iff, bytes_eq_refl, ap, Option, none, some, true, false, ◌≡◌, ◌≢◌, refl,
  Bool-cases, inl, inr, codes,
}
use subfile_data_service.Rust.Result.{ok}
use subfile_data_service.Serde.{Serde}
use subfile_data_service.Http.{Request, respond, authorization, unauthorized}
use subfile_data_service.Server.State.{Host}
use subfile_data_service.Server.Routes.{header_text, token_matches}
use subfile_data_service.Server.Admin.{State, handle_admin_request}

-- The token test fails exactly when a token is set and the request carries another or none.
pub token_matches-eq-false :
    (token : Bytes) (auth : Option Bytes)
    → auth ≢ some token
    → token_matches (some token) auth ≡ false
unfolding token_matches
token_matches-eq-false token none h = refl
token_matches-eq-false token (some auth) h = elim (Bool-cases (bytes_eq auth token)) [
  | inl e ↦ absurd (h (ap some ((bytes_eq_iff auth token).0 e)))
  | inr e ↦ e
]

pub token_matches_self : (token : Bytes) → token_matches (some token) (some token) ≡ true
unfolding token_matches
token_matches_self token = bytes_eq_refl token

module _ (serde : Serde) (host : Host) (req : Request) (s : State serde) where
  -- With an admin token set, a request that does not carry it is answered as unauthorized, and the
  -- state stays as it is.
  pub handle_admin_request-unauthorized :
      (token : Bytes)
      → s.admin_auth_token ≡ some token
      → header_text (req.header authorization) ≢ some token
      → handle_admin_request serde host req s
        ≡ (ok (respond unauthorized (codes "Require admin authentication")), s)
  unfolding handle_admin_request
  handle_admin_request-unauthorized token e h =
      rw (e, token_matches-eq-false token (header_text (req.header authorization)) h)
