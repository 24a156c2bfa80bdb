-- ===== src/Client/Transfer/Attempts.antt =====
-- How a transfer ends, whatever the network answers.
use subfile_data_service.Prelude.{
  ℕ, zero, suc, Bytes, ◌+◌, ◌≤◌, ◌<◌, ◌≡◌, ◌≢◌, arith, true, Option, none, some, take, Bool-cases,
  dec_lt, ◌∙◌, refl, inl, inr, codes,
}
use subfile_data_service.Errors.{Error, data_unavilable, file_io_error}
use subfile_data_service.Rust.Result.{Result, ok, err, panic, out_of_fuel, Io, Result-cases}
use subfile_data_service.Subfile.Hasher.{Digest, verify_chunk}
use subfile_data_service.Client.Request.{
  DownloadRangeRequest, GetRequest, GetResponse, check_response, request_chunk,
}
use subfile_data_service.Client.Transfer.{
  WriteOutcome, written, seek_failed, write_failed, write_at, write_chunk, accept_chunk,
  transfer_loop, download_chunk_and_write_to_file,
}

-- The ways in which a transfer ends: the whole chunk is in the file, a part of it, or nothing of it;
-- what was written belongs to a chunk that verifies. A panic is there only for a request that carries
-- no token.
pub data Outcome (d : Digest) (req : DownloadRangeRequest) (file : Bytes)
    : Result (Unit {0}) × Bytes → Type 0 where
  stored :
      (chunk : Bytes)
      → verify_chunk d chunk req.chunk_hash ≡ true
      → Outcome d req file (ok tt, write_at req.start chunk file)
  torn :
      (e : Error) (n : ℕ) (chunk : Bytes)
      → verify_chunk d chunk req.chunk_hash ≡ true
      → Outcome d req file (err e, write_at req.start (take n chunk) file)
  unchanged : (e : Error) → Outcome d req file (err e, file)
  aborted : req.auth_token ≡ none → Outcome d req file (panic, file)

check_response-ne-out_of_fuel : (r : GetResponse) → check_response r ≢ out_of_fuel
unfolding check_response
check_response-ne-out_of_fuel r = ground arith

request_chunk-ne-out_of_fuel :
    (send : GetRequest → Io GetResponse) (endpoint : Bytes) (auth : Option Bytes) (hash : Bytes)
    (start end : ℕ)
    → request_chunk send endpoint auth hash start end ≢ out_of_fuel
unfolding request_chunk check_response
request_chunk-ne-out_of_fuel send endpoint none hash start end = ground arith
request_chunk-ne-out_of_fuel send endpoint (some token) hash start end = ground arith

check_response-ne-panic : (r : GetResponse) → check_response r ≢ panic
unfolding check_response
check_response-ne-panic r = ground arith

request_chunk-panic :
    (send : GetRequest → Io GetResponse) (endpoint : Bytes) (auth : Option Bytes) (hash : Bytes)
    (start end : ℕ)
    → request_chunk send endpoint auth hash start end ≡ panic
    → auth ≡ none
unfolding request_chunk check_response
request_chunk-panic send endpoint none hash start end e = refl
request_chunk-panic send endpoint (some token) hash start end e = ground arith

module _ (d : Digest) (outcome : WriteOutcome) (req : DownloadRangeRequest) (file : Bytes) where
  write_chunk-Outcome :
      (w : WriteOutcome) (chunk : Bytes)
      → verify_chunk d chunk req.chunk_hash ≡ true
      → Outcome d req file (write_chunk w req.start chunk file)
  unfolding write_chunk
  write_chunk-Outcome written chunk v = stored chunk v
  write_chunk-Outcome (seek_failed e) chunk v = unchanged (file_io_error e)
  write_chunk-Outcome (write_failed e n) chunk v = torn (file_io_error e) n chunk v

  accept_chunk-Outcome :
      (chunk : Bytes) → Outcome d req file (accept_chunk d outcome req chunk file)
  unfolding accept_chunk
  accept_chunk-Outcome chunk = elim (Bool-cases (verify_chunk d chunk req.chunk_hash)) [
    | inl v ↦ rw v (write_chunk-Outcome outcome chunk v)
    | inr v ↦ rw v (unchanged _)
  ]

  module _ (send : ℕ → GetRequest → Io GetResponse) where
    abbrev pub reply : ℕ → Result Bytes
    reply n =
        request_chunk (send n) req.query_endpoint req.auth_token req.file_hash req.start req.end

    -- The loop at a reply that is known.
    loop_ok :
        (fuel n : ℕ) (chunk : Bytes)
        → reply n ≡ ok chunk
        → transfer_loop d send outcome req (suc fuel) n file ≡ accept_chunk d outcome req chunk file
    unfolding transfer_loop
    loop_ok fuel n chunk e = rw (e, transfer_loop)

    loop_last :
        (fuel n : ℕ) (x : Error)
        → reply n ≡ err x
        → req.max_retry ≤ n + 1
        → transfer_loop d send outcome req (suc fuel) n file
          ≡ (err (data_unavilable (codes "Max retry attempts reached for chunk download")), file)
    unfolding transfer_loop
    loop_last fuel n x e h = ground arith

    loop_again :
        (fuel n : ℕ) (x : Error)
        → reply n ≡ err x
        → n + 1 < req.max_retry
        → transfer_loop d send outcome req (suc fuel) n file
          ≡ transfer_loop d send outcome req fuel (n + 1) file
    unfolding transfer_loop
    loop_again fuel n x e h = ground arith

    loop_panic :
        (fuel n : ℕ)
        → reply n ≡ panic
        → transfer_loop d send outcome req (suc fuel) n file ≡ (panic, file)
    unfolding transfer_loop
    loop_panic fuel n e = rw (e, transfer_loop)

    transfer_loop-Outcome :
        (fuel n : ℕ)
        → req.max_retry < n + fuel
        → n ≤ req.max_retry
        → Outcome d req file (transfer_loop d send outcome req fuel n file)
    transfer_loop-Outcome zero n enough le = absurd (omega arith)
    transfer_loop-Outcome (suc fuel) n enough le = elim (Result-cases (reply n)) [
      | inl (chunk, e) ↦ rw (loop_ok fuel n chunk e) (accept_chunk-Outcome chunk)
      | inr (inl (x, e)) ↦ elim (dec_lt (n + 1) req.max_retry) [
        | yes more ↦
            rw (loop_again fuel n x e more)
              (transfer_loop-Outcome fuel (n + 1) (omega arith) (omega arith))
        | no last ↦ rw (loop_last fuel n x e (omega arith)) (unchanged _)
      ]
      | inr (inr (inl e)) ↦ rw (loop_panic fuel n e) (
          aborted (
            request_chunk-panic (send n) req.query_endpoint req.auth_token req.file_hash req.start
              req.end e))
      | inr (inr (inr e)) ↦ absurd (
          request_chunk-ne-out_of_fuel (send n) req.query_endpoint req.auth_token req.file_hash
            req.start req.end e)
    ]

    -- Whatever the network answers, a transfer ends: it has stored a chunk that verifies, or
    -- fails with the file as it was or with the front part of a chunk that verifies, or panics
    -- with the file as it was, which happens only for a request that carries no token.
    pub download_chunk-Outcome :
        Outcome d req file (download_chunk_and_write_to_file d send outcome req file)
    unfolding download_chunk_and_write_to_file
    download_chunk-Outcome = transfer_loop-Outcome (req.max_retry + 1) 0 (omega arith) (omega arith)

    transfer_loop_first_ok :
        (k fuel n : ℕ) (chunk : Bytes)
        → ((m : ℕ) → n ≤ m → m < n + k → (x : Error) × (reply m ≡ err x))
        → reply (n + k) ≡ ok chunk
        → k < fuel
        → (0 < k → n + k < req.max_retry)
        → transfer_loop d send outcome req fuel n file ≡ accept_chunk d outcome req chunk file
    transfer_loop_first_ok k zero n chunk errs good enough within = absurd (omega arith)
    transfer_loop_first_ok zero (suc fuel) n chunk errs good enough within =
        let e : n + 0 ≡ n = omega arith in loop_ok fuel n chunk (rw e at good)
    transfer_loop_first_ok (suc k) (suc fuel) n chunk errs good enough within =
        let (x, e) = errs n (omega arith) (omega arith) in
        let shift : n + suc k ≡ n + 1 + k = omega arith in
        let small : n + suc k < req.max_retry = within (omega arith) in
        loop_again fuel n x e (omega arith)
        ∙ transfer_loop_first_ok k fuel (n + 1) chunk
            (λ m le lt. errs m (omega arith) (omega arith)) (rw shift at good) (omega arith)
            (λ h. omega arith)

    -- The first reply that is no error decides the transfer, if it comes within max_retry
    -- attempts (the first attempt is always made).
    pub download_chunk_first_ok :
        (k : ℕ) (chunk : Bytes)
        → ((m : ℕ) → m < k → (x : Error) × (reply m ≡ err x))
        → reply k ≡ ok chunk
        → (0 < k → k < req.max_retry)
        → download_chunk_and_write_to_file d send outcome req file
          ≡ accept_chunk d outcome req chunk file
    unfolding download_chunk_and_write_to_file
    download_chunk_first_ok k chunk errs good within =
        let shift : 0 + k ≡ k = omega arith in
        transfer_loop_first_ok k (req.max_retry + 1) 0 chunk (λ m le lt. errs m (omega arith))
          (rw shift good) (first k within) (λ h. omega (arith, within h))
      where
        first : (j : ℕ) → (0 < j → j < req.max_retry) → j < req.max_retry + 1
        first zero w = omega arith
        first (suc j) w = omega (arith, w (omega arith))
