-- ===== src/Examples/Storing.antt =====
-- An object store of one object, and what is written to it, read from it and hashed.
use subfile_data_service.Prelude.{
  ℕ, suc, Bytes, codes, List, [], ◌∷◌, ◌++◌, ◌*◌, ◌%◌, ◌≤◌, ◌<◌, ◌≡◌, ◌≢◌, refl, map, true, none,
  some, arith, All, length, concat, bytes_eq_refl,
}
use subfile_data_service.Errors.{invalid_range}
use subfile_data_service.Rust.Result.{ok, err, panic, done}
use subfile_data_service.Rust.Words.{debug}
use subfile_data_service.Subfile.Reader.{format_path, out_of_bound}
use subfile_data_service.Subfile.ChunkFiles.{push, read_and_validate_file}
use subfile_data_service.Subfile.Types.{ChunkFileMeta}
use subfile_data_service.ObjectStore.Local.{LocalFileSystem, find_location, cut, Inside, Stores}
use subfile_data_service.ObjectStore.Store.{
  Store, step_of, part_rounds, part_ranges, multipart_read, chunk_object,
}
use subfile_data_service.ObjectStore.Ranges.{part_ranges-Inside}
use subfile_data_service.ObjectStore.Hashed.{of_parts, chunk_object-eq}
use subfile_data_service.ObjectStore.Parts.{multipart_read-concat, multipart_read-panic}
use subfile_data_service.ObjectStore.Verdict.{validate_chunk_object}
use subfile_data_service.Publisher.{SubfilePublisher, write_chunk_file}
use subfile_data_service.Publisher.Stored.{object_store_write_chunk_file}
use subfile_data_service.Publisher.Agree.{object_store_write_chunk_file-agrees}
use subfile_data_service.Examples.World.{
  plain, plain-CollisionFree, five, five-bounded, disk, disk-Holds, subfile_of,
}
use subfile_data_service.Examples.Wire.{serde_example}
use subfile_data_service.Examples.Publishing.{publisher}

-- The disk is the location of the object and its content, and so is an upload.
abbrev store_example : LocalFileSystem
store_example = record {
  Disk = Bytes × Bytes;
  Root = Unit {0};
  Upload = Bytes × Bytes;
  PutResult = Unit {0};
  path_from = λ location. location;
  path_exists = λ path d. true;
  is_dir = λ path d. true;
  create_dir_all = λ path d. (done tt, d);
  new_with_prefix = λ path d. done tt;
  list = λ root prefix d. done (record { location = d.0; size = length (d.1) }) ∷ [];
  get_range = λ root path r d. done (cut (d.1) r);
  get_ranges = λ root path rs d. done (map (cut (d.1)) rs);
  put_multipart = λ root path d. (done ([], (path, [])), d);
  write_all = λ u bytes d. (done (u.0, u.1 ++ bytes), d);
  flush = λ u d. (done u, d);
  shutdown = λ u d. (done tt, u);
  put = λ root path bytes d. (done tt, (path, bytes));
  delete = λ root path d. (done tt, ([], []));
}

abbrev self : Store store_example
self = record { local_file_system = tt; read_concurrency = 16; write_concurrency = 8 }

stores : (location content : Bytes) → Stores store_example tt location content (location, content)
unfolding find_location
stores location content = record {
  items = record { location = location; size = length content } ∷ [];
  meta = record { location = location; size = length content };
  listed = refl;
  found = rw (bytes_eq_refl location) refl;
  sized = refl;
  ranges = λ rs inside. refl;
}

five-stored : Stores store_example tt (codes "f") five (codes "f", five)
five-stored = stores (codes "f") five

part_ranges-Inside_example :
    (rounds : ℕ) × (ranges : List (ℕ × ℕ)) × (part_rounds debug 2 5 ≡ ok rounds)
    × (part_ranges debug 2 5 rounds 0 ≡ ok ranges)
    × All (Inside five) ranges
part_ranges-Inside_example =
    part_ranges-Inside debug 2 five (omega arith) (omega arith) five-bounded

multipart_read-concat_example :
    (step : ℕ) × (parts : List Bytes) × (step_of 16 5 (some 2) ≡ ok step)
    × (multipart_read store_example debug self (codes "f") (some 2) (codes "f", five) ≡ ok parts)
    × (concat parts ≡ five)
    × All (λ (p : Bytes). length p ≤ step) parts
multipart_read-concat_example =
    multipart_read-concat store_example debug self (codes "f") five (codes "f", five) five-stored
      (some 2) (omega arith) five-bounded (omega arith, omega arith)

multipart_read-panic_example :
    multipart_read store_example debug self (codes "f") none (codes "f", []) ≡ panic
multipart_read-panic_example =
    multipart_read-panic store_example debug self (codes "f") [] (codes "f", [])
      (stores (codes "f") []) none (omega arith) refl

-- the chunk file that the store makes of five bytes with chunks of five: a hash too many
abbrev stored_meta : ChunkFileMeta
stored_meta = record {
  meta_info = record { name = codes "five"; hash = codes "QmFive" };
  chunk_file = of_parts plain 5 five;
}

stored_made :
    chunk_object store_example debug plain self (codes "f") (some 5) (codes "f", five)
    ≡ ok (of_parts plain 5 five)
stored_made =
    chunk_object-eq store_example debug plain self (codes "f") five (codes "f", five) five-stored
      (omega arith) five-bounded 5 (omega arith) (omega arith)

validate_chunk_object_example :
    (5 % 5 ≢ 0
      → 5 ≤ 5
      → read_and_validate_file debug (disk five) plain (subfile_of stored_meta) stored_meta ≡ ok tt)
    × ((k : ℕ)
        → suc k * 5 ≡ 5
        → read_and_validate_file debug (disk five) plain (subfile_of stored_meta) stored_meta
          ≡ err (invalid_range (out_of_bound 5 4 5)))
    × (0 < 5
        → 5 < 5
        → read_and_validate_file debug (disk five) plain (subfile_of stored_meta) stored_meta
          ≡ panic)
validate_chunk_object_example =
    validate_chunk_object debug (disk five) plain plain-CollisionFree (subfile_of stored_meta)
      stored_meta five (disk-Holds (push (codes "/data") (codes "five")) five five-bounded) 5
      (omega arith) (omega arith) store_example self (codes "f") (codes "f", five) five-stored
      (omega arith) stored_made

abbrev twos : SubfilePublisher
twos = record publisher { config = record (publisher.config) { chunk_size = 2 } }

object_store_write_chunk_file-agrees_example :
    object_store_write_chunk_file store_example serde_example debug plain
      (λ s. s)
      twos
      (codes "f")
      (codes "f", five)
    ≡ (write_chunk_file serde_example debug (disk five) plain 4 twos (codes "f"), (codes "f", five))
object_store_write_chunk_file-agrees_example =
    object_store_write_chunk_file-agrees debug (disk five) plain serde_example twos (codes "f") five
      (disk-Holds (format_path (codes "/data") (codes "f")) five five-bounded)
      (record { filled = λ pos n. refl }) (omega arith) (omega arith) 4 (omega arith) store_example
      (λ s. s) tt (codes "f", five) refl refl refl five-stored (omega arith) (omega arith)
