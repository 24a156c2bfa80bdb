-- ===== src/Server/Util.antt =====
-- subfile-service/src/subfile_server/util.rs: the release's version, and certificates and keys. The
-- crates build_info and rustls_pemfile and the open of a file are parameters.
use subfile_data_service.Prelude.{Bytes, codes, List, [], ◌∷◌, ◌++◌}
use subfile_data_service.Errors.{Error, ExternalError, server_error, context_error}
use subfile_data_service.Rust.Result.{Result, ok, err, Io, ◌>>=◌, map_err}
use subfile_data_service.HashMap.{HashMap, insert}
use subfile_data_service.Server.State.{PackageVersion}

-- What a `BuildInfo` says of the crate: its version, and its dependencies by name and version, each
-- version as `to_string` prints it.
pub record BuildInfo : Type 0 where
  pub version : Bytes
  pub dependencies : List (Bytes × Bytes)

-- `HashMap::from_iter`: a later pair takes the place of an earlier one.
unfoldable from_iter : List (Bytes × Bytes) → HashMap Bytes → HashMap Bytes
from_iter [] m = m
from_iter ((name, version) ∷ pairs) m = from_iter pairs (insert name version m)

unfoldable from_build_info : BuildInfo → PackageVersion
unfolding from_iter
from_build_info value = record {
  version = value.version;
  dependencies = from_iter value.dependencies [];
}

-- The open of a file with its buffered reader, the two parsers of rustls_pemfile, and how errors print:
-- `{}` for a failed open, `{:#?}` for a failed parse.
pub record Pem : Type 1 where
  pub Reader : Type 0
  pub open_file : Bytes → Io Reader
  pub certs : Reader → Io (List Bytes)
  pub rsa_private_keys : Reader → Io (List Bytes)
  pub display : ExternalError → Bytes
  pub debug : ExternalError → Bytes

module _ (pem : Pem) where
  open pem use {Reader, open_file, certs, rsa_private_keys, display, debug}

  failed_with : Bytes → Error
  failed_with msg = server_error (context_error msg)

  open_pem : Bytes → Result Reader
  unfolding failed_with
  open_pem filename =
      map_err (open_file filename)
        λ e. failed_with (codes "failed to open " ++ filename ++ codes ": " ++ display e)

  unfoldable load_certs : Bytes → Result (List Bytes)
  unfolding failed_with open_pem
  load_certs filename = do
    reader ← open_pem filename
    map_err (certs reader) λ e. failed_with (codes "failed to load certificate: " ++ debug e)

  single_key : List Bytes → Result Bytes
  unfolding failed_with
  single_key (key ∷ []) = ok key
  single_key keys = err (failed_with (codes "Expected a single private key"))

  unfoldable load_private_key : Bytes → Result Bytes
  unfolding failed_with open_pem single_key
  load_private_key filename = do
    reader ← open_pem filename
    keys ←
        map_err (rsa_private_keys reader)
          λ e. failed_with (codes "failed to load private key: " ++ debug e)
    single_key keys
