-- ===== src/Serde.antt =====
-- The serialisation crates (serde_yaml, serde_json) and `String::from_utf8`, as parameters. The
-- generic `from_value` and `to_string` stand here at the types at which the source calls them.
use subfile_data_service.Prelude.{Bytes, Bool, List, Option}
use subfile_data_service.Rust.Result.{Io}
use subfile_data_service.Subfile.Types.{SubfileManifest, ChunkFile, Subfile}

pub record Serde : Type 1 where
  pub from_utf8 : Bytes → Io Bytes
  -- serde_yaml
  pub YamlValue : Type 0
  pub yaml_from_str : Bytes → Io YamlValue
  pub yaml_to_manifest : YamlValue → Io SubfileManifest
  pub yaml_to_chunk_file : YamlValue → Io ChunkFile
  pub manifest_to_yaml : SubfileManifest → Io Bytes
  pub chunk_file_to_yaml : ChunkFile → Io Bytes
  -- serde_json
  pub JsonValue : Type 0
  pub json_from_slice : Bytes → Io JsonValue
  pub json_get : Bytes → JsonValue → Option JsonValue
  pub json_as_str : JsonValue → Option Bytes
  pub json_to_strings : JsonValue → Io (List Bytes)
  pub json_of_strings : List Bytes → Io Bytes
  pub json_of_subfiles : List (Bytes × Subfile) → Io Bytes
  pub json_of_health : Bool → Io Bytes
  pub json_of_operator : Bytes → Io Bytes
  -- `json!({ "error": msg }).to_string()`
  pub json_of_error : Bytes → Bytes
  -- `f32`
  pub F32 : Type 0
  pub json_to_f32 : JsonValue → Io F32
  pub f32_to_string : F32 → Bytes
