-- ===== src/Exchange/Network.antt =====
-- HTTP between a downloader and one server: it delivers the request and the answer unchanged.
use subfile_data_service.Prelude.{
  Bytes, bytes_eq, List, [], ◌∷◌, ◌++◌, Bool, true, false, Option, none, some, ◌≡◌, refl, ap, ◌∙◌,
  strip_prefix, strip_prefix-append, starts_with,
}
use subfile_data_service.Rust.Result.{Result, ok, err, panic, out_of_fuel, Io, done, failed}
use subfile_data_service.Serde.{Serde}
use subfile_data_service.Http.{
  HeaderName, StatusCode, Request, Response, partial_content, content_range, authorization,
  content_length, file_hash,
}
use subfile_data_service.Server.State.{Host, ServerState}
use subfile_data_service.Server.Routes.{subfiles_route, file_service}
use subfile_data_service.Server.Requests.{handle_request}
use subfile_data_service.Client.Request.{GetRequest, GetResponse}

-- The request as the server gets it: the path of the URL, and the client's headers.
abbrev pub arrives : Bytes → GetRequest → Request
arrives path r = record {
  path = path;
  header = elim [
    | authorization ↦ some (done r.authorization)
    | content_range ↦ some (done r.content_range)
    | content_length ↦ none
    | file_hash ↦ some (done r.file_hash)
  ];
  body = done [];
}

-- `StatusCode::is_success`
unfoldable pub is_success : StatusCode → Bool
is_success StatusCode.ok = true
is_success partial_content = true
is_success _ = false

-- `HeaderMap::contains_key(CONTENT_RANGE)`
unfoldable pub has_content_range : List (HeaderName × Bytes) → Bool
has_content_range [] = false
has_content_range ((content_range, text) ∷ headers) = true
has_content_range ((authorization, text) ∷ headers) = has_content_range headers
has_content_range ((content_length, text) ∷ headers) = has_content_range headers
has_content_range ((file_hash, text) ∷ headers) = has_content_range headers

-- A handler that fails sends no answer.
unfoldable pub received : (print_status : StatusCode → Bytes) → Result Response → Io GetResponse
unfolding is_success has_content_range
received print_status (ok response) = done (record {
  is_success = is_success response.status;
  status = print_status response.status;
  has_content_range = has_content_range response.headers;
  bytes = done response.body;
})
received print_status (err e) = failed []
received print_status panic = failed []
received print_status out_of_fuel = failed []

module _ (serde : Serde) (host : Host) (print_status : StatusCode → Bytes)
    (s : ServerState serde) where
  -- The path, if the URL is one of the server.
  hand_over : Option Bytes → GetRequest → Io GetResponse
  hand_over none r = failed []
  hand_over (some path) r = received print_status (handle_request serde host (arrives path r) s).0

  -- A request whose URL begins with the server's goes to the server.
  unfoldable pub through : (server_url : Bytes) → GetRequest → Io GetResponse
  unfolding hand_over
  through server_url r = hand_over (strip_prefix server_url r.url) r

  -- The path of a subfile is routed to `file_service`.
  routed :
      (hash : Bytes) (r : GetRequest)
      → (handle_request serde host (arrives (subfiles_route ++ hash) r) s).0
        ≡ file_service serde host (subfiles_route ++ hash) (arrives (subfiles_route ++ hash) r) s
  unfolding handle_request bytes_eq starts_with strip_prefix
  routed hash r = refl

  pub through-eq :
      (server_url hash : Bytes) (r : GetRequest)
      → r.url ≡ server_url ++ (subfiles_route ++ hash)
      → through server_url r
        ≡ received print_status (
            file_service serde host (subfiles_route ++ hash) (arrives (subfiles_route ++ hash) r) s)
  unfolding through hand_over
  through-eq server_url hash r e =
      ap (λ path. hand_over path r)
        (ap (strip_prefix server_url) e ∙ strip_prefix-append server_url (subfiles_route ++ hash))
      ∙ ap (received print_status) (routed hash r)
