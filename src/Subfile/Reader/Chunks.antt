-- ===== src/Subfile/Reader/Chunks.antt =====
-- What `chunk_file` cuts a file into.
use subfile_data_service.Prelude.{
  ℕ, zero, suc, Bytes, List, [], ◌∷◌, ◌++◌, ◌+◌, ◌-◌, ◌*◌, ◌/◌, ◌≤◌, ◌<◌, ◌≡◌, refl, sym, ap, ◌∙◌,
  min, arith, ◌==◌, length, slice, drop, concat, length-take, length-drop, append_assoc, append-nil,
  dec_lt, drop-eq-nil, drop-drop, take-append-drop-length, Bool-cases, ==_iff, All, inl, inr,
}
use subfile_data_service.Rust.Result.{ok, done}
use subfile_data_service.Rust.Words.{Build, u64_mod, isize_max, add_u64-eq-ok, vec_zeroed-eq-ok}
use subfile_data_service.System.{FileHandle, FileSystem, Holds, Reads, Fills}
use subfile_data_service.Subfile.Reader.{chunk_loop, chunk_file}

-- The number of chunks, the last one perhaps shorter: `n / size`, rounded up.
abbrev pub num_chunks : ℕ → ℕ → ℕ
num_chunks size n = (n + size - 1) / size

-- `rounds` chunks of `content` from `start` on.
abbrev pub pieces : ℕ → Bytes → (rounds start : ℕ) → List Bytes
pieces size content zero start = []
pieces size content (suc rounds) start =
    slice start size content ∷ pieces size content rounds (start + size)

-- The content in chunks of `size` bytes.
abbrev pub chunks_of : ℕ → Bytes → List Bytes
chunks_of size content = pieces size content (num_chunks size (length content)) 0

length-slice :
    (start n : ℕ) (content : Bytes)
    → length (slice start n content) ≡ min n (length content - start)
length-slice start n content =
    length-take n (drop start content) ∙ ap (min n) (length-drop start content)

-- One round of the loop, when the read has returned `buffer`.
module _ (build : Build) (reader : FileHandle) (size fuel pos total : ℕ) (chunks : List Bytes)
    (buffer : Bytes) (returned : reader.read pos size ≡ done buffer) (fits : size ≤ isize_max) where
  loop_end :
      length buffer ≡ 0
      → chunk_loop build reader size (suc fuel) pos total chunks ≡ ok (total, chunks)
  unfolding chunk_loop
  loop_end e = ground (arith, vec_zeroed-eq-ok size)

  loop_next :
      0 < length buffer
      → total + length buffer < u64_mod
      → chunk_loop build reader size (suc fuel) pos total chunks
        ≡ chunk_loop build reader size fuel
            (pos + length buffer)
            (total + length buffer)
            (chunks ++ buffer ∷ [])
  unfolding chunk_loop
  loop_next more room =
      ground (arith, vec_zeroed-eq-ok size, add_u64-eq-ok build total (length buffer))

-- The chunks that a loop adds spell the rest of the content, each with a byte and at most `size`.
abbrev pub IsCut : ℕ → Bytes → List Bytes → Type 0
IsCut size rest chunks =
    (concat chunks ≡ rest) × All (λ c. (0 < length c) × (length c ≤ size)) chunks

module _ (build : Build) (reader : FileHandle) (content : Bytes) (size : ℕ) (count : ℕ → ℕ → ℕ)
    (reads : Reads reader content count) (pos_size : 0 < size) (fits : size ≤ isize_max) where
  length-buffer :
      (pos : ℕ)
      → length (slice pos (count pos size) content) ≡ min (count pos size) (length content - pos)
  length-buffer pos = length-slice pos (count pos size) content

  empty_read : (pos : ℕ) → length (slice pos (count pos size) content) ≡ 0 → length content ≤ pos
  empty_read pos e = elim (dec_lt pos (length content)) [
    | yes p ↦ absurd (omega (arith, length-buffer pos, reads.progress pos size pos_size p))
    | no p ↦ omega arith
  ]

  -- Whatever the reads return, the loop ends within one round more than the bytes that are left.
  pub chunk_loop_reads :
      (fuel pos total : ℕ) (chunks : List Bytes)
      → pos ≤ length content
      → length content - pos < fuel
      → total + (length content - pos) < u64_mod
      → (added : List Bytes) × (chunk_loop build reader size fuel pos total chunks
          ≡ ok (total + (length content - pos), chunks ++ added))
        × IsCut size (drop pos content) added
  chunk_loop_reads zero pos total chunks le enough room = absurd (omega arith)
  chunk_loop_reads (suc fuel) pos total chunks le enough room = elim (Bool-cases (n == 0)) [
    | inl e ↦
        let n0 : n ≡ 0 = (==_iff n 0).0 e in
        let at_end : length content ≤ pos = empty_read pos n0 in
        (
          [],
          loop_end build reader size fuel pos total chunks buffer (reads.some_of pos size) fits n0
              ∙ ground (arith, append-nil chunks),
          (sym (drop-eq-nil pos content (omega arith)), tt),
        )
    | inr e ↦
        let some_bytes : 0 < n = ground arith in
        let bound : n ≤ length content - pos = omega (arith, length-buffer pos) in
        let (rest, eq, cut) =
          chunk_loop_reads fuel (pos + n) (total + n) (chunks ++ buffer ∷ []) (omega arith)
            (omega arith) (omega arith) in
        (
          buffer ∷ rest,
          loop_next build reader size fuel pos total chunks buffer (reads.some_of pos size) fits
                some_bytes (omega arith)
              ∙ eq
              ∙ ground (arith, append_assoc chunks (buffer ∷ []) rest),
          (
            ap (λ t. buffer ++ t) (cut.0 ∙ sym (drop-drop n pos content))
                ∙ take-append-drop-length (count pos size) (drop pos content),
            ((some_bytes, omega (arith, length-buffer pos, reads.at_most pos size)), cut.1),
          ),
        )
  ]
    where
      buffer : Bytes
      buffer = slice pos (count pos size) content

      n : ℕ
      n = length buffer

module _ (build : Build) (reader : FileHandle) (content : Bytes) (size : ℕ)
    (fills : Fills reader content) (pos_size : 0 < size) (fits : size ≤ isize_max) where
  chunk_loop_end :
      (fuel pos total : ℕ) (chunks : List Bytes)
      → length content ≤ pos
      → chunk_loop build reader size (suc fuel) pos total chunks ≡ ok (total, chunks)
  chunk_loop_end fuel pos total chunks le =
      loop_end build reader size fuel pos total chunks _ (fills.filled pos size) fits
        (omega (arith, length-slice pos size content))

  pieces_pos :
      (rounds p q : ℕ)
      → (0 < rounds → p ≡ q)
      → pieces size content rounds p ≡ pieces size content rounds q
  pieces_pos zero p q e = refl
  pieces_pos (suc rounds) p q e = rw (e (omega arith))

  -- Only the last chunk may be short.
  next_pos :
      (rounds pos : ℕ)
      → length content ≤ pos + suc rounds * size
      → pos + suc rounds * size < length content + size
      → 0 < rounds
      → pos + length (slice pos size content) ≡ pos + size
  next_pos zero pos covers tight h = absurd (omega arith)
  next_pos (suc rounds) pos covers tight h = omega (arith, length-slice pos size content)

  chunk_loop_fills :
      (fuel rounds pos total : ℕ) (chunks : List Bytes)
      → rounds < fuel
      → length content ≤ pos + rounds * size
      → pos + rounds * size < length content + size
      → total + (length content - pos) < u64_mod
      → chunk_loop build reader size fuel pos total chunks
        ≡ ok (total + (length content - pos), chunks ++ pieces size content rounds pos)
  chunk_loop_fills zero rounds pos total chunks enough covers tight room = absurd (omega arith)
  chunk_loop_fills (suc fuel) zero pos total chunks enough covers tight room =
      chunk_loop_end fuel pos total chunks (omega arith) ∙ ground (arith, append-nil chunks)
  chunk_loop_fills (suc fuel) (suc rounds) pos total chunks enough covers tight room =
      let len = length-slice pos size content in
      loop_next build reader size fuel pos total chunks buffer (fills.filled pos size) fits
        (omega (arith, len)) (omega (arith, len))
      ∙ chunk_loop_fills fuel rounds (pos + length buffer) (total + length buffer)
          (chunks ++ buffer ∷ []) (omega arith)
          (omega (arith, len, next_pos rounds pos covers tight))
          (omega (arith, len, next_pos rounds pos covers tight)) (omega (arith, len))
      ∙ ground (
        arith,
        len,
        append_assoc chunks (buffer ∷ []) (pieces size content rounds (pos + size)),
        pieces_pos rounds (pos + length buffer) (pos + size) (next_pos rounds pos covers tight),
      )
    where
      buffer : Bytes
      buffer = slice pos size content

pub num_chunks_covers : (size n : ℕ) → 0 < size → n ≤ num_chunks size n * size
num_chunks_covers size n h = grind arith

pub num_chunks_tight : (size n : ℕ) → 0 < size → num_chunks size n * size < n + size
num_chunks_tight size n h = grind arith

module _ (build : Build) (fs : FileSystem) (path content : Bytes) (h : Holds fs path content)
    (size : ℕ) (pos_size : 0 < size) (fits : size ≤ isize_max) where
  -- However the system cuts its reads short, chunk_file with a chunk size above zero (within
  -- isize) returns all bytes of the file: with more fuel than the file has bytes it succeeds
  -- with the file's length and with chunks that spell the content in order, none empty and none
  -- longer than the chunk size.
  pub chunk_file-Reads :
      (count : ℕ → ℕ → ℕ) (fuel : ℕ)
      → Reads h.handle content count
      → length content < fuel
      → (chunks : List Bytes) × (chunk_file build fs fuel path size ≡ ok (length content, chunks))
        × IsCut size content chunks
  unfolding chunk_file
  chunk_file-Reads count fuel reads enough =
      let (chunks, eq, cut) =
        chunk_loop_reads build h.handle content size count reads pos_size fits fuel 0 0 []
          (omega arith) (omega arith) (omega (arith, h.bounded)) in
      (chunks, rw (h.opened) (eq ∙ ap (λ n. ok (n, chunks)) (omega arith)), cut)

  -- When the reads fill the buffer, the chunks are those of the chunk size, the last one shorter.
  pub chunk_file-Fills :
      (fuel : ℕ)
      → Fills h.handle content
      → num_chunks size (length content) < fuel
      → chunk_file build fs fuel path size ≡ ok (length content, chunks_of size content)
  unfolding chunk_file
  chunk_file-Fills fuel fills enough = rw (h.opened) (
      chunk_loop_fills build h.handle content size fills pos_size fits fuel
        (num_chunks size (length content)) 0 0 [] enough
        (omega (arith, num_chunks_covers size (length content) pos_size))
        (omega (arith, num_chunks_tight size (length content) pos_size)) (omega (arith, h.bounded))
      ∙ ap (λ n. ok (n, chunks_of size content)) (omega arith))
