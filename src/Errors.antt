-- ===== src/Errors.antt =====
-- subfile-exchange/src/errors.rs: the errors of both crates, their texts and their sources.
use subfile_data_service.Prelude.{Bytes, codes, Option, some, none, ◌++◌}

-- An error of a third-party crate (io, reqwest, serde_json, serde_yaml, object_store), known to the
-- program only by the text that it displays.
abbrev pub ExternalError : Type 0
ExternalError = Bytes

pub data ServerError : Type 0 where
  context_error : Bytes → ServerError
  request_body_error : Bytes → ServerError
  header_parse_error : Bytes → ServerError
  method_parse_error : Bytes → ServerError
  params_parse_error : Bytes → ServerError
  build_response_error : Bytes → ServerError

pub data Error : Type 0 where
  invalid_config : Bytes → Error
  file_io_error : ExternalError → Error
  invalid_range : Bytes → Error
  ipfs_error : ExternalError → Error
  subfile_error : Bytes → Error
  request : ExternalError → Error
  data_unavilable : Bytes → Error
  chunk_invalid : Bytes → Error
  server_error : ServerError → Error
  json_error : ExternalError → Error
  yaml_error : ExternalError → Error
  invalid_price_format : Bytes → Error
  contract_error : Bytes → Error
  object_store_error : ExternalError → Error

-- `Display for ServerError`
unfoldable pub display_server_error : ServerError → Bytes
display_server_error (context_error msg) = codes "Context error: " ++ msg
display_server_error (request_body_error msg) = codes "Request body error: " ++ msg
display_server_error (header_parse_error msg) = codes "Header parse error: " ++ msg
display_server_error (method_parse_error msg) = codes "Method parse error: " ++ msg
display_server_error (params_parse_error msg) = codes "Params parse error: " ++ msg
display_server_error (build_response_error msg) = codes "Build response error: " ++ msg

-- `Display for Error`, which `to_string` calls
unfoldable pub to_string : Error → Bytes
unfolding display_server_error
to_string (invalid_config msg) = codes "Invalid configuration: " ++ msg
to_string (file_io_error e) = codes "File IO error: " ++ e
to_string (invalid_range msg) = codes "Invalid range: " ++ msg
to_string (ipfs_error e) = codes "IPFS error: " ++ e
to_string (subfile_error msg) = codes "Subfile error: " ++ msg
to_string (request e) = codes "Client error: " ++ e
to_string (data_unavilable e) = codes "Client error: " ++ e
to_string (chunk_invalid e) = codes "Chunk invalid error: " ++ e
to_string (server_error e) = codes "Server error: " ++ display_server_error e
to_string (json_error e) = codes "JSON error: " ++ e
to_string (yaml_error e) = codes "YAML error: " ++ e
to_string (invalid_price_format msg) = codes "Price format error: " ++ msg
to_string (contract_error msg) = codes "Contract call error: " ++ msg
to_string (object_store_error e) = codes "Object store error: " ++ e

-- `StdError for ServerError` keeps the trait's default: no source.
unfoldable pub server_error_source : ServerError → Option ExternalError
server_error_source e = none

-- `StdError for Error`
unfoldable pub source : Error → Option ExternalError
unfolding server_error_source
source (file_io_error e) = some e
source (ipfs_error e) = some e
source (json_error e) = some e
source (yaml_error e) = some e
source (request e) = some e
source (server_error e) = server_error_source e
source _ = none
