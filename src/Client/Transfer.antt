-- ===== src/Client/Transfer.antt =====
-- `download_chunk_and_write_to_file` and `extract_base_url`.
pub mod Writes
pub mod Attempts
use subfile_data_service.Prelude.{
  ℕ, zero, suc, Bytes, codes, List, [], ◌∷◌, ◌++◌, ◌+◌, ◌-◌, Bool, true, false, Option, none, some,
  if◌then◌else◌, leb, take, drop, length, strip_prefix,
}
use subfile_data_service.Errors.{
  Error, ExternalError, data_unavilable, chunk_invalid, file_io_error,
}
use subfile_data_service.Rust.Result.{Result, ok, err, panic, out_of_fuel, Io}
use subfile_data_service.Subfile.Hasher.{Digest, verify_chunk}
use subfile_data_service.Client.Request.{
  DownloadRangeRequest, GetRequest, GetResponse, request_chunk,
}

abbrev pub zeros : ℕ → Bytes
zeros zero = []
zeros (suc n) = 0 ∷ zeros n

-- A file after `data` was written at `start`: what is before and behind stays, a gap is zeros.
unfoldable pub write_at : ℕ → Bytes → Bytes → Bytes
write_at start bytes file =
    take start file ++ (zeros (start - length file) ++ (bytes ++ drop (start + length bytes) file))

-- What `seek` and `write_all` do to the file: a write may fail behind some of the bytes.
pub data WriteOutcome : Type 0 where
  written : WriteOutcome
  seek_failed : ExternalError → WriteOutcome
  write_failed : ExternalError → ℕ → WriteOutcome

-- The write under the file's lock; the result comes with the file's new content.
unfoldable pub write_chunk : WriteOutcome → ℕ → Bytes → Bytes → Result (Unit {0}) × Bytes
unfolding write_at
write_chunk written start chunk file = (ok tt, write_at start chunk file)
write_chunk (seek_failed e) start chunk file = (err (file_io_error e), file)
write_chunk (write_failed e n) start chunk file =
    (err (file_io_error e), write_at start (take n chunk) file)

-- A chunk that was received: it is written if it verifies.
unfoldable pub accept_chunk :
    Digest → WriteOutcome → DownloadRangeRequest → Bytes → Bytes → Result (Unit {0}) × Bytes
unfolding write_chunk
accept_chunk d outcome req chunk file =
    if verify_chunk d chunk req.chunk_hash then write_chunk outcome req.start chunk file else (
      err (chunk_invalid (codes "Failed to validate received chunk: " ++ req.query_endpoint)),
      file,
    )

-- The loop; `send n` is the network at attempt `n`, and `attempts` of them have failed.
unfoldable pub transfer_loop :
    Digest
    → (send : ℕ → GetRequest → Io GetResponse) → WriteOutcome
    → DownloadRangeRequest
    → (fuel attempts : ℕ) → Bytes
    → Result (Unit {0}) × Bytes
transfer_loop d send outcome req zero attempts file = (out_of_fuel, file)
transfer_loop d send outcome req (suc fuel) attempts file =
    elim (request_chunk (send attempts) req.query_endpoint req.auth_token req.file_hash req.start
      req.end) [
        | ok chunk ↦ accept_chunk d outcome req chunk file
        | err e ↦ elim (leb req.max_retry (attempts + 1)) [
          | true ↦
              (err (data_unavilable (codes "Max retry attempts reached for chunk download")), file)
          | false ↦ transfer_loop d send outcome req fuel (attempts + 1) file
        ]
        | panic ↦ (panic, file)
        | out_of_fuel ↦ (out_of_fuel, file)
      ]

unfoldable pub download_chunk_and_write_to_file :
    Digest
    → (send : ℕ → GetRequest → Io GetResponse) → WriteOutcome
    → DownloadRangeRequest
    → Bytes
    → Result (Unit {0}) × Bytes
download_chunk_and_write_to_file d send outcome req file =
    transfer_loop d send outcome req (req.max_retry + 1) 0 file

-- `find` and the slice before it
before : Bytes → Bytes → Option Bytes
before pattern_text [] = elim (strip_prefix pattern_text []) [ none ↦ none | some _ ↦ some [] ]
before pattern_text (c ∷ s) =
    let later = before pattern_text s in
    elim (strip_prefix pattern_text (c ∷ s)) [
      | some _ ↦ some []
      | none ↦ elim later [ none ↦ none | some front ↦ some (c ∷ front) ]
    ]

unfoldable pub extract_base_url : Bytes → Option Bytes
unfolding before strip_prefix
extract_base_url query_endpoint = before (codes "/subfiles/id/") query_endpoint
