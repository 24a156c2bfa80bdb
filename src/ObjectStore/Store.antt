-- ===== src/ObjectStore/Store.antt =====
-- `Store` and its operations, each over the disk.
use subfile_data_service.Prelude.{
  ℕ, zero, suc, Bytes, codes, List, [], ◌∷◌, ◌++◌, ◌-◌, min, map, not, ◌||◌, Option, none, some,
  if◌then◌else◌, ltb, leb, length, slice,
}
use subfile_data_service.Errors.{invalid_config, data_unavilable, chunk_invalid, object_store_error}
use subfile_data_service.Rust.Result.{
  Result, ok, err, panic, out_of_fuel, Io, done, failed, ◌>>=◌, map_err, ok_or, expect,
}
use subfile_data_service.Rust.Words.{Build, add_u64, mul_u64, div_u64}
use subfile_data_service.Rust.Decimal.{decimal}
use subfile_data_service.Subfile.Hasher.{Digest, hash_chunk}
use subfile_data_service.Subfile.Types.{ChunkFile}
use subfile_data_service.ObjectStore.Local.{ObjectMeta, LocalFileSystem, find_location}

-- `chunk_size.unwrap_or({..})`: the default is computed in any case.
unfoldable pub step_of : (concurrency size : ℕ) → Option ℕ → Result ℕ
step_of concurrency size chunk_size = do
  s ← div_u64 size concurrency
  ok (elim chunk_size [ some step ↦ step | none ↦ if ltb 0 s then s else size ])

-- `size / step + 1`
unfoldable pub part_rounds : Build → (step size : ℕ) → Result ℕ
part_rounds build step size = do whole ← div_u64 size step; add_u64 build whole 1

-- `start: i * step, end: ((i + 1) * step).min(size)`
unfoldable pub part_range : Build → (step size i : ℕ) → Result (ℕ × ℕ)
part_range build step size i = do
  start ← mul_u64 build i step
  next ← add_u64 build i 1
  end ← mul_u64 build next step
  ok (start, min end size)

-- The ranges of the rounds that are left, from part `i` on.
unfoldable pub part_ranges : Build → (step size rounds i : ℕ) → Result (List (ℕ × ℕ))
part_ranges build step size zero i = ok []
part_ranges build step size (suc rounds) i = do
  range ← part_range build step size i
  ranges ← part_ranges build step size rounds (suc i)
  ok (range ∷ ranges)

-- `&bytes[start..end]` panics when the range is no range of the bytes.
unfoldable pub index_range : Bytes → ℕ × ℕ → Result Bytes
index_range bytes (start, end) =
    if leb start end
    then (if leb end (length bytes) then ok (slice start (end - start) bytes) else panic)
    else panic

-- `parts.iter().map(|b| b.len() as u64).sum()`, from `total` on
unfoldable pub sum_lengths : Build → ℕ → List Bytes → Result ℕ
sum_lengths build total [] = ok total
sum_lengths build total (part ∷ parts) = do
  total' ← add_u64 build total (length part)
  sum_lengths build total' parts

-- `{:#?}` of an `Option<usize>`
debug_option : Option ℕ → Bytes
debug_option none = codes "None"
debug_option (some n) =
    codes "Some(" ++ 10 ∷ codes "    " ++ decimal n ++ codes "," ++ 10 ∷ codes ")"

-- `parts.first()`
unfoldable pub first : List Bytes → Option Bytes
first [] = none
first (part ∷ parts) = some part

module _ (fs : LocalFileSystem) where
  open fs use {
    Disk, Root, Upload, PutResult, path_from, path_exists, is_dir, create_dir_all, new_with_prefix,
    get_range, get_ranges, put_multipart, write_all, flush, shutdown, put, delete,
  }

  pub record Store : Type 0 where
    pub local_file_system : Root
    pub read_concurrency : ℕ
    pub write_concurrency : ℕ

  -- An operation that changes the disk.
  abbrev pub Change : Type 0 → Type 0
  Change A = Disk → Result A × Disk

  -- The next call, on the disk that a call has left, if its result says so.
  abbrev pub after : {A B : Type 0} → Result A × Disk → (A → Change B) → Result B × Disk
  after (ok a, disk) rest = rest a disk
  after (err e, disk) rest = (err e, disk)
  after (panic, disk) rest = (panic, disk)
  after (out_of_fuel, disk) rest = (out_of_fuel, disk)

  abbrev pub call : {A : Type 0} → (Io A → Result A) → Io A × Disk → Result A × Disk
  call outcome (r, disk) = (outcome r, disk)

  -- The directory is made if there is none; `debug_str` is the print `{:?}` of a text.
  unfoldable pub make_directory : (debug_str : Bytes → Bytes) → Bytes → Change (Unit {0})
  make_directory debug_str path disk =
      if not (path_exists path disk) || not (is_dir path disk)
      then call
          (λ r. map_err r (λ e. invalid_config (
            codes "Unable to create local filesystem directory structure for object store: "
            ++ debug_str e)))
          (create_dir_all path disk)
      else (ok tt, disk)

  -- `Store::new`; `PathBuf::from_str` cannot fail.
  unfoldable pub new : (debug_str : Bytes → Bytes) → Bytes → Change Store
  unfolding make_directory
  new debug_str path disk = after (make_directory debug_str path disk) λ _ disk'. (
    map_err (new_with_prefix path disk') object_store_error >>= (λ root.
        ok (record { local_file_system = root; read_concurrency = 16; write_concurrency = 8 })),
    disk',
  )

  -- The items of the stream up to its end or its first error.
  unfoldable pub list_loop : List (Io ObjectMeta) → List ObjectMeta
  list_loop [] = []
  list_loop (done meta ∷ stream) = meta ∷ list_loop stream
  list_loop (failed e ∷ stream) = []

  unfoldable pub list : Store → Option Bytes → Disk → Result (List ObjectMeta)
  unfolding list_loop
  list self prefix disk = ok (list_loop (fs.list self.local_file_system prefix disk))

  -- `unwrap` on a result that is always there
  unfoldable pub find_object : Store → Bytes → Option Bytes → Disk → Option ObjectMeta
  find_object self file_name prefix disk = elim (list self prefix disk) [
    | ok listed ↦ find_location file_name listed
    | err e ↦ none
    | panic ↦ none
    | out_of_fuel ↦ none
  ]

  unfoldable pub range_read : Store → Bytes → ℕ × ℕ → Disk → Result Bytes
  range_read self file_name range disk =
      expect (get_range self.local_file_system (path_from file_name) range disk)

  unfoldable pub multipart_read : Build → Store → Bytes → Option ℕ → Disk → Result (List Bytes)
  multipart_read build self location chunk_size disk = do
    object_meta ←
        ok_or (find_object self location none disk)
          (data_unavilable (codes "Did not find file " ++ location))
    step ← step_of self.read_concurrency object_meta.size chunk_size
    rounds ← part_rounds build step object_meta.size
    ranges ← part_ranges build step object_meta.size rounds 0
    expect (get_ranges self.local_file_system (path_from location) ranges disk)

  -- The loop of `multipart_write`, with the rounds left.
  unfoldable pub write_parts : Build → Bytes → (step rounds i : ℕ) → Upload → Change Upload
  write_parts build bytes step zero i write disk = (ok write, disk)
  write_parts build bytes step (suc rounds) i write disk =
      after (part_range build step (length bytes) i >>= index_range bytes, disk)
        λ buf disk1.
          after (call expect (write_all write buf disk1))
            λ write' disk2. write_parts build bytes step rounds (suc i) write' disk2

  unfoldable pub multipart_write : Build → Store → Bytes → Bytes → Option ℕ → Change Bytes
  multipart_write build self location bytes chunk_size disk =
      after (call expect (put_multipart self.local_file_system (path_from location) disk))
        λ opened disk1.
          after (step_of self.write_concurrency (length bytes) chunk_size, disk1)
            λ step disk2.
              after (part_rounds build step (length bytes), disk2)
                λ rounds disk3.
                  after (write_parts build bytes step rounds 0 opened.1 disk3) λ write disk4.
                    after (call expect (flush write disk4)) λ write' disk5.
                      after (call expect (shutdown write' disk5)) λ _ disk6. (ok opened.0, disk6)

  -- `Store::write`
  unfoldable pub write_object : Store → Bytes → Bytes → Change PutResult
  write_object self location bytes disk =
      call (λ r. map_err r object_store_error)
        (put self.local_file_system (path_from location) bytes disk)

  -- `Store::delete`
  unfoldable pub delete_object : Store → Bytes → Change (Unit {0})
  delete_object self location disk =
      call (λ r. map_err r object_store_error)
        (delete self.local_file_system (path_from location) disk)

  -- `Store::chunk_file`
  unfoldable pub chunk_object : Build → Digest → Store → Bytes → Option ℕ → Disk → Result ChunkFile
  unfolding first debug_option
  chunk_object build d self location chunk_size disk = do
    parts ← multipart_read build self location chunk_size disk
    total_bytes ← sum_lengths build 0 parts
    part ← ok_or (first parts) (
        chunk_invalid (
          codes "No chunk produced from object store "
          ++ location
          ++ codes ", with chunk size config of "
          ++ debug_option chunk_size))
    ok (record {
      total_bytes = total_bytes;
      chunk_size = length part;
      chunk_hashes = map (hash_chunk d) parts;
    })
