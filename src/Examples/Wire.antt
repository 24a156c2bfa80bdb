-- ===== src/Examples/Wire.antt =====
-- A serialisation that is small enough to compute with, a state of the server, and requests to it.
use subfile_data_service.Prelude.{
  ℕ, Bytes, codes, bytes_eq, if◌then◌else◌, none, some, ◌∷◌, [], List, Option, refl, ◌≡◌, All, sym,
  ap,
}
use subfile_data_service.Rust.Result.{Io, done, failed}
use subfile_data_service.Serde.{Serde}
use subfile_data_service.Http.{Request, authorization, content_range, content_length, file_hash}
use subfile_data_service.Subfile.Types.{BlockRange, FileMetaInfo, SubfileManifest, ChunkFile}
use subfile_data_service.Publisher.ReadBack.{RoundTrips}
use subfile_data_service.Server.State.{PackageVersion, ServerState}
use subfile_data_service.Examples.World.{ipfs_example, five_meta, hash_example, subfile_of}

-- The printers know the manifests of one file with a name of one byte, and the chunk files with one
-- hash.
print_bounds : Option ℕ → Option ℕ → Bytes → Io Bytes
print_bounds none none text = done text
print_bounds none (some m) text = failed []
print_bounds (some n) m text = failed []

print_range : BlockRange → Bytes → Io Bytes
unfolding print_bounds
print_range r text = print_bounds r.start_block r.end_block text

print_empty : List Bytes → Io Bytes → Io Bytes
print_empty [] r = r
print_empty ([] ∷ texts) r = print_empty texts r
print_empty ((c ∷ s) ∷ texts) r = failed []

entry_text : (name hash : Bytes) → Io Bytes
entry_text [] hash = failed []
entry_text (c ∷ []) hash = done (c ∷ hash)
entry_text (c ∷ d ∷ s) hash = failed []

file_text : List FileMetaInfo → Io Bytes
unfolding entry_text
file_text [] = failed []
file_text (f ∷ g ∷ fs) = failed []
file_text (f ∷ []) = entry_text f.name f.hash

join_text : Io Bytes → List Bytes → BlockRange → Io Bytes
unfolding print_empty print_range
join_text (failed e) texts r = failed e
join_text (done text) texts r = print_empty texts (print_range r text)

manifest_text : SubfileManifest → Io Bytes
unfolding join_text file_text
manifest_text m =
    join_text (file_text m.files) (m.file_type ∷ m.spec_version ∷ m.description ∷ m.chain_id ∷ [])
      m.block_range

read_manifest : Bytes → Io SubfileManifest
read_manifest [] = failed []
read_manifest (c ∷ hash) = done (record {
  files = record { name = c ∷ []; hash = hash } ∷ [];
  file_type = [];
  spec_version = [];
  description = [];
  chain_id = [];
  block_range = record { start_block = none; end_block = none };
})

hashes_text : ℕ → ℕ → List Bytes → Io Bytes
hashes_text n size [] = failed []
hashes_text n size (h ∷ []) = done (n ∷ size ∷ h)
hashes_text n size (h ∷ i ∷ is) = failed []

chunk_file_text : ChunkFile → Io Bytes
unfolding hashes_text
chunk_file_text c = hashes_text c.total_bytes c.chunk_size c.chunk_hashes

read_chunk_file : Bytes → Io ChunkFile
read_chunk_file [] = failed []
read_chunk_file (n ∷ []) = failed []
read_chunk_file (n ∷ size ∷ h) =
    done (record { total_bytes = n; chunk_size = size; chunk_hashes = h ∷ [] })

json_value : Bytes → List Bytes → Option (List Bytes)
json_value key v =
    if bytes_eq key (codes "method") then some (codes "remove_subfile" ∷ []) else some v

json_text : List Bytes → Option Bytes
json_text [] = none
json_text (s ∷ ss) = some s

unfoldable pub serde_example : Serde
unfolding manifest_text chunk_file_text read_manifest read_chunk_file json_value json_text
serde_example = record {
  from_utf8 = λ s. done s;
  YamlValue = Bytes;
  yaml_from_str = λ s. done s;
  yaml_to_manifest = read_manifest;
  yaml_to_chunk_file = read_chunk_file;
  manifest_to_yaml = manifest_text;
  chunk_file_to_yaml = chunk_file_text;
  JsonValue = List Bytes;
  json_from_slice = λ s. done (s ∷ []);
  json_get = json_value;
  json_as_str = json_text;
  json_to_strings = λ v. done v;
  json_of_strings = λ ss. done [];
  json_of_subfiles = λ ss. done [];
  json_of_health = λ b. done [];
  json_of_operator = λ k. done k;
  json_of_error = λ msg. msg;
  F32 = ℕ;
  json_to_f32 = λ v. failed [];
  f32_to_string = λ n. n ∷ [];
}

abbrev pub release_example : PackageVersion
release_example = record { version = codes "0.0.1"; dependencies = [] }

-- the state of a server that lists one subfile
unfoldable pub state_example : ServerState serde_example
unfolding serde_example
state_example = record {
  client = ipfs_example;
  operator_public_key = codes "0x00";
  subfiles = (hash_example, subfile_of five_meta) ∷ [];
  release = release_example;
  free_query_auth_token = some (codes "Bearer free");
  admin_auth_token = some (codes "Bearer admin");
  price_per_byte = 1;
}

-- a request to take a subfile away, with a token
abbrev pub removal : Bytes → Request
removal token = record {
  path = codes "/admin";
  header = elim [
    | authorization ↦ some (done token)
    | content_range ↦ none
    | content_length ↦ none
    | file_hash ↦ none
  ];
  body = done hash_example;
}

nil_of :
    (texts : List Bytes) (r : Io Bytes) (text : Bytes)
    → print_empty texts r ≡ done text
    → (r ≡ done text) × All (λ s. s ≡ []) texts
unfolding print_empty
nil_of [] r text e = (e, tt)
nil_of ([] ∷ texts) r text e = let (p, q) = nil_of texts r text e in (p, (refl, q))
nil_of ((c ∷ s) ∷ texts) r text e = cc

entry_text-read :
    (name hash text : Bytes)
    → entry_text name hash ≡ done text
    → (c : ℕ) × (name ≡ c ∷ []) × (c ∷ hash ≡ text)
unfolding entry_text
entry_text-read [] hash text e = cc
entry_text-read (c ∷ []) hash text e = (c, refl, cc)
entry_text-read (c ∷ d ∷ s) hash text e = cc

file_text-read :
    (fs : List FileMetaInfo) (text : Bytes)
    → file_text fs ≡ done text
    → (c : ℕ) × (hash : Bytes) × (fs ≡ record { name = c ∷ []; hash = hash } ∷ [])
      × (c ∷ hash ≡ text)
unfolding file_text
file_text-read [] text e = cc
file_text-read (f ∷ g ∷ fs) text e = cc
file_text-read (f ∷ []) text e =
    let (c, named, spelled) = entry_text-read f.name f.hash text e in
    (
      c,
      f.hash,
      ap (λ (n : Bytes). let g : FileMetaInfo = record { name = n; hash = f.hash } in g ∷ []) named,
      spelled,
    )

bounds_none :
    (start end : Option ℕ) (text text' : Bytes)
    → print_bounds start end text ≡ done text'
    → (start ≡ none) × (end ≡ none) × (text ≡ text')
unfolding print_bounds
bounds_none none none text text' e = (refl, refl, cc)
bounds_none none (some m) text text' e = cc
bounds_none (some n) m text text' e = cc

join_text-read :
    (file : Io Bytes) (texts : List Bytes) (r : BlockRange) (text : Bytes)
    → join_text file texts r ≡ done text
    → (file ≡ done text) × All (λ s. s ≡ []) texts × (r.start_block ≡ none) × (r.end_block ≡ none)
unfolding join_text print_range
join_text-read (failed x) texts r text e = cc
join_text-read (done t) texts r text e =
    let (p, q) = nil_of texts (print_range r t) text e in
    let (a, b, same) = bounds_none r.start_block r.end_block t text p in (ap done same, q, a, b)

manifest_text-read :
    (m : SubfileManifest) (text : Bytes) → manifest_text m ≡ done text → read_manifest text ≡ done m
unfolding manifest_text read_manifest
manifest_text-read m text e =
    let (file, empty, start, end) =
      join_text-read (file_text m.files)
        (m.file_type ∷ m.spec_version ∷ m.description ∷ m.chain_id ∷ []) m.block_range text e in
    let (c, hash, files, spelled) = file_text-read m.files text file in
    rw (sym spelled)
      (ap done (record_eq m c hash files empty.0 empty.1.0 empty.1.1.0 empty.1.1.1.0 start end))
  where
    record_eq :
        (m : SubfileManifest) (c : ℕ) (hash : Bytes)
        → m.files ≡ record { name = c ∷ []; hash = hash } ∷ []
        → m.file_type ≡ []
        → m.spec_version ≡ []
        → m.description ≡ []
        → m.chain_id ≡ []
        → m.block_range.start_block ≡ none
        → m.block_range.end_block ≡ none
        → record {
          files = record { name = c ∷ []; hash = hash } ∷ [];
          file_type = [];
          spec_version = [];
          description = [];
          chain_id = [];
          block_range = record { start_block = none; end_block = none };
        }
          ≡ m
    record_eq m c hash a b d e f g h = cc

hashes_text-read :
    (n size : ℕ) (hashes : List Bytes) (text : Bytes)
    → hashes_text n size hashes ≡ done text
    → (h : Bytes) × (hashes ≡ h ∷ []) × (n ∷ size ∷ h ≡ text)
unfolding hashes_text
hashes_text-read n size [] text e = cc
hashes_text-read n size (h ∷ []) text e = (h, refl, cc)
hashes_text-read n size (h ∷ i ∷ is) text e = cc

chunk_file_text-read :
    (c : ChunkFile) (text : Bytes) → chunk_file_text c ≡ done text → read_chunk_file text ≡ done c
unfolding chunk_file_text read_chunk_file
chunk_file_text-read c text e =
    let (h, one, spelled) = hashes_text-read c.total_bytes c.chunk_size c.chunk_hashes text e in
    rw (sym spelled) cc

pub serde_example-RoundTrips : RoundTrips serde_example
unfolding serde_example
serde_example-RoundTrips = record {
  manifest = λ m text e. (text, refl, refl, manifest_text-read m text e);
  chunk_file = λ c text e. (text, refl, refl, chunk_file_text-read c text e);
}
