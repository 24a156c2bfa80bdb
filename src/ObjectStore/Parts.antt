-- ===== src/ObjectStore/Parts.antt =====
-- What `multipart_read` makes of an object that the store holds.
use subfile_data_service.Prelude.{
  ℕ, Bytes, List, [], ◌∷◌, ◌+◌, ◌*◌, ◌/◌, ◌≤◌, ◌<◌, ◌≡◌, refl, ap, ◌∙◌, map, arith, length, concat,
  take-eq_self, All, Option, none, some,
}
use subfile_data_service.Rust.Result.{ok, panic, done}
use subfile_data_service.Rust.Words.{Build, isize_max}
use subfile_data_service.Subfile.Reader.Chunks.{pieces}
use subfile_data_service.ObjectStore.Local.{ObjectMeta, LocalFileSystem, Stores}
use subfile_data_service.ObjectStore.Store.{
  Store, list, list_loop, find_object, multipart_read, step_of,
}
use subfile_data_service.ObjectStore.Ranges.{
  ranges_of, part_rounds-eq, part_ranges_all, ranges_of-Inside, cut-ranges_of, concat-pieces,
  pieces-le, IsUsable, IsUnusable, step_of-eq, step_of_zero, part_rounds_zero,
}

covers : (step n : ℕ) → 0 < step → n ≤ (n / step + 1) * step
covers step n pos = grind arith

tight : (step n : ℕ) → 0 < step → (0 + (n / step + 1)) * step ≤ n + step
tight step n pos = grind arith

module _ (fs : LocalFileSystem) (build : Build) (self : Store fs) (location content : Bytes)
    (disk : fs.Disk) (h : Stores fs self.local_file_system location content disk) where
  list_loop-all :
      (items : List ObjectMeta) → list_loop fs (map (λ (m : ObjectMeta). done m) items) ≡ items
  unfolding list_loop
  list_loop-all [] = refl
  list_loop-all (m ∷ items) = ap (λ l. m ∷ l) (list_loop-all items)

  pub find_object-eq : find_object fs self location none disk ≡ some h.meta
  unfolding find_object list
  find_object-eq = rw (h.listed, list_loop-all h.items) h.found

  -- One part for each step that begins in the object or at its end.
  pub multipart_read-pieces :
      (chunk_size : Option ℕ) (step : ℕ)
      → step_of self.read_concurrency (length content) chunk_size ≡ ok step
      → 0 < step
      → step ≤ isize_max
      → length content ≤ isize_max
      → multipart_read fs build self location chunk_size disk
        ≡ ok (pieces step content (length content / step + 1) 0)
  unfolding multipart_read
  multipart_read-pieces chunk_size step chosen pos fits bounded =
      let start : 0 * step ≡ 0 = omega arith in
      rw (
        find_object-eq,
        h.sized,
        chosen,
        part_rounds-eq build step (length content) pos fits bounded,
        part_ranges_all build step (length content) pos fits bounded,
        h.ranges (ranges_of step (length content) (length content / step + 1) 0) (
            ranges_of-Inside step content (length content / step + 1) 0
              (tight step (length content) pos)),
        cut-ranges_of step content (length content / step + 1) 0,
        start,
      )

  -- For an object within isize, read with a concurrency above zero and with a chunk size
  -- between 1 and isize or with none and at least one byte: multipart_read succeeds with parts
  -- that spell the object, none longer than the step that was chosen.
  pub multipart_read-concat :
      (chunk_size : Option ℕ)
      → 0 < self.read_concurrency
      → length content ≤ isize_max
      → IsUsable (length content) chunk_size
      → (step : ℕ) × (parts : List Bytes) × (step_of self.read_concurrency
            (length content)
            chunk_size
          ≡ ok step)
        × (multipart_read fs build self location chunk_size disk ≡ ok parts)
        × (concat parts ≡ content)
        × All (λ (p : Bytes). length p ≤ step) parts
  multipart_read-concat chunk_size many bounded usable =
      let (step, chosen, pos, fits) =
        step_of-eq self.read_concurrency (length content) chunk_size many bounded usable in
      let rounds : ℕ = length content / step + 1 in
      (
        step,
        pieces step content rounds 0,
        chosen,
        multipart_read-pieces chunk_size step chosen pos fits bounded,
        concat-pieces step content rounds 0
            ∙ take-eq_self (rounds * step) content (covers step (length content) pos),
        pieces-le step content rounds 0,
      )

  -- With a concurrency above zero, multipart_read of an object panics when the chunk size is 0,
  -- or when there is none and the object is empty.
  pub multipart_read-panic :
      (chunk_size : Option ℕ)
      → 0 < self.read_concurrency
      → IsUnusable (length content) chunk_size
      → multipart_read fs build self location chunk_size disk ≡ panic
  unfolding multipart_read
  multipart_read-panic chunk_size many unusable = rw (
    find_object-eq,
    h.sized,
    step_of_zero self.read_concurrency (length content) chunk_size many unusable,
    part_rounds_zero build (length content),
  )
