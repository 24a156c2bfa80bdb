-- ===== src/ObjectStore/Local.antt =====
-- `object_store::local::LocalFileSystem` and the directory calls of `std`, as parameters, with what
-- their documentation promises of an object that holds given bytes.
use subfile_data_service.Prelude.{
  ℕ, Bytes, bytes_eq, List, [], ◌∷◌, ◌++◌, ◌-◌, ◌≤◌, ◌≡◌, map, Bool, Option, none, some,
  if◌then◌else◌, length, slice, All,
}
use subfile_data_service.Rust.Result.{Io, done}

-- The fields of `ObjectMeta` that the program reads; the location as its text.
pub record ObjectMeta : Type 0 where
  pub location : Bytes
  pub size : ℕ

-- A call that changes the disk returns it with its result.
pub record LocalFileSystem : Type 1 where
  pub Disk : Type 0
  -- the value that `new_with_prefix` returns, and the writer of `put_multipart`
  pub Root : Type 0
  pub Upload : Type 0
  pub PutResult : Type 0
  -- `Path::from`
  pub path_from : Bytes → Bytes
  pub path_exists : Bytes → Disk → Bool
  pub is_dir : Bytes → Disk → Bool
  pub create_dir_all : Bytes → Disk → Io (Unit {0}) × Disk
  pub new_with_prefix : Bytes → Disk → Io Root
  -- the items of the stream
  pub list : Root → Option Bytes → Disk → List (Io ObjectMeta)
  pub get_range : Root → Bytes → ℕ × ℕ → Disk → Io Bytes
  pub get_ranges : Root → Bytes → List (ℕ × ℕ) → Disk → Io (List Bytes)
  pub put_multipart : Root → Bytes → Disk → Io (Bytes × Upload) × Disk
  pub write_all : Upload → Bytes → Disk → Io Upload × Disk
  pub flush : Upload → Disk → Io Upload × Disk
  pub shutdown : Upload → Disk → Io (Unit {0}) × Disk
  pub put : Root → Bytes → Bytes → Disk → Io PutResult × Disk
  pub delete : Root → Bytes → Disk → Io (Unit {0}) × Disk

-- The first object with that location.
unfoldable pub find_location : Bytes → List ObjectMeta → Option ObjectMeta
find_location file_name [] = none
find_location file_name (obj ∷ listed) =
    if bytes_eq obj.location file_name then some obj else find_location file_name listed

-- A range of an object, from its first byte to the one behind its last.
abbrev pub Inside : Bytes → ℕ × ℕ → Type 0
Inside content r = (r.0 ≤ r.1) × (r.1 ≤ length content)

abbrev pub cut : Bytes → ℕ × ℕ → Bytes
cut content r = slice r.0 (r.1 - r.0) content

-- The object at `location` holds `content`: the listing names it with its size, and the ranges
-- inside it are read.
pub record Stores (fs : LocalFileSystem) (root : fs.Root) (location content : Bytes)
    (disk : fs.Disk) : Type 0 where
  pub items : List ObjectMeta
  pub meta : ObjectMeta
  pub listed : fs.list root none disk ≡ map (λ (m : ObjectMeta). done m) items
  pub found : find_location location items ≡ some meta
  pub sized : meta.size ≡ length content
  pub ranges :
      (rs : List (ℕ × ℕ))
      → All (Inside content) rs
      → fs.get_ranges root (fs.path_from location) rs disk ≡ done (map (cut content) rs)

-- An upload appends what is written, and its end makes the object. `IsOpen` says that an upload has
-- so far the bytes given.
pub record IsLawful (fs : LocalFileSystem) : Type 1 where
  pub IsOpen : fs.Root → Bytes → Bytes → fs.Upload → fs.Disk → Type 0
  pub opens :
      (root : fs.Root) (location id : Bytes) (u : fs.Upload) (disk disk' : fs.Disk)
      → fs.put_multipart root (fs.path_from location) disk ≡ (done (id, u), disk')
      → IsOpen root location [] u disk'
  pub appends :
      (root : fs.Root) (location written bytes : Bytes) (u u' : fs.Upload) (disk disk' : fs.Disk)
      → IsOpen root location written u disk
      → fs.write_all u bytes disk ≡ (done u', disk')
      → IsOpen root location (written ++ bytes) u' disk'
  pub flushes :
      (root : fs.Root) (location written : Bytes) (u u' : fs.Upload) (disk disk' : fs.Disk)
      → IsOpen root location written u disk
      → fs.flush u disk ≡ (done u', disk')
      → IsOpen root location written u' disk'
  pub closes :
      (root : fs.Root) (location written : Bytes) (u : fs.Upload) (disk disk' : fs.Disk)
      → IsOpen root location written u disk
      → fs.shutdown u disk ≡ (done tt, disk')
      → Stores fs root location written disk'

-- A disk with room: the calls of an upload succeed.
pub record Accepts (fs : LocalFileSystem) : Type 0 where
  pub opened :
      (root : fs.Root) (path : Bytes) (disk : fs.Disk)
      → (id : Bytes) × (u : fs.Upload) × (disk' : fs.Disk) × (fs.put_multipart root path disk
          ≡ (done (id, u), disk'))
  pub written :
      (u : fs.Upload) (bytes : Bytes) (disk : fs.Disk)
      → (u' : fs.Upload) × (disk' : fs.Disk) × (fs.write_all u bytes disk ≡ (done u', disk'))
  pub flushed :
      (u : fs.Upload) (disk : fs.Disk)
      → (u' : fs.Upload) × (disk' : fs.Disk) × (fs.flush u disk ≡ (done u', disk'))
  pub closed :
      (u : fs.Upload) (disk : fs.Disk) → (disk' : fs.Disk) × (fs.shutdown u disk ≡ (done tt, disk'))
