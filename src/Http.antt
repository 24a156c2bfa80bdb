-- ===== src/Http.antt =====
-- The messages of the `http` and `hyper` crates, as far as the server looks at them.
use subfile_data_service.Prelude.{Bytes, List, [], Option}
use subfile_data_service.Rust.Result.{Io}

pub data StatusCode : Type 0 where
  ok : StatusCode
  partial_content : StatusCode
  bad_request : StatusCode
  unauthorized : StatusCode
  not_found : StatusCode
  method_not_allowed : StatusCode
  not_acceptable : StatusCode
  range_not_satisfiable : StatusCode
  internal_server_error : StatusCode

pub data HeaderName : Type 0 where
  authorization : HeaderName
  content_range : HeaderName
  content_length : HeaderName
  file_hash : HeaderName

-- The path of the URI, the headers and the body. A header's value is known by its `to_str`.
pub record Request : Type 0 where
  pub path : Bytes
  pub header : HeaderName → Option (Io Bytes)
  pub body : Io Bytes

pub record Response : Type 0 where
  pub status : StatusCode
  pub headers : List (HeaderName × Bytes)
  pub body : Bytes

-- `Response::builder().status(status).body(body)`
abbrev pub respond : StatusCode → Bytes → Response
respond status body = record { status = status; headers = []; body = body }
