-- ===== src/Job/Bodies.antt =====
-- A body that is kept in memory, whatever the pieces in which it arrives.
use sm_rest.Prelude.{
  ℕ, zero, suc, ◌+◌, ◌-◌, ◌≤◌, ◌<◌, ◌≡◌, refl, sym, ap, ◌∙◌, min, Bool, true, false, List, [], ◌∷◌,
  ◌++◌, arith, Bytes, length, take, join, ◌==◌, if◌then◌else◌, append_assoc, append-nil,
  length-append, take-min-length, take-append-take, take_whole,
}
use native.Mathlib.Decide.{dec_le}
use sm_rest.Job.State.{RestJob}
use sm_rest.Job.Receive.{write_memory, body_cap, is_primary}

-- curl hands over one piece after the other, until a call takes less than the piece.
unfoldable pub receive : RestJob → List Bytes → RestJob × Bool
unfolding write_memory
receive job [] = (job, true)
receive job (chunk ∷ chunks) =
    let (job', taken) = write_memory job chunk in
    let rest = receive job' chunks in if taken == length chunk then rest else (job', false)

-- A job that has kept `body` and counted `count` bytes.
abbrev pub kept : RestJob → Bytes → ℕ → RestJob
kept job body count = record job { response_body = body; body_length = count }

write_memory_error :
    (job : RestJob) (chunk : Bytes)
    → is_primary job ≡ false
    → write_memory job chunk ≡ (
      kept job
          (job.response_body ++ take (body_cap job - length job.response_body) chunk)
          (job.body_length + length chunk),
      length chunk,
    )
unfolding write_memory
write_memory_error job chunk p =
    ground (arith, take-min-length (body_cap job - length job.response_body) chunk)

write_memory_fits :
    (job : RestJob) (chunk : Bytes)
    → is_primary job ≡ true
    → length job.response_body + length chunk ≤ body_cap job
    → write_memory job chunk
      ≡ (kept job (job.response_body ++ chunk) (job.body_length + length chunk), length chunk)
unfolding write_memory
write_memory_fits job chunk p h =
    ground (arith, take_whole (min (length chunk) (body_cap job - length job.response_body)) chunk)

write_memory_exceeds :
    (job : RestJob) (chunk : Bytes)
    → is_primary job ≡ true
    → length job.response_body ≤ body_cap job
    → body_cap job < length job.response_body + length chunk
    → write_memory job chunk ≡ (record job { too_large = true }, 0)
unfolding write_memory
write_memory_exceeds job chunk p k h = ground arith

receive_step :
    (job job' : RestJob) (chunk : Bytes) (chunks : List Bytes)
    → write_memory job chunk ≡ (job', length chunk)
    → receive job (chunk ∷ chunks) ≡ receive job' chunks
unfolding receive
receive_step job job' chunk chunks h = rw h (ground arith)

take-nil : (n : ℕ) → take {A = ℕ} n [] ≡ []
take-nil zero = refl
take-nil (suc n) = refl

kept_congr :
    (job : RestJob) {b c : Bytes} {m n : ℕ}
    → b ≡ c
    → m ≡ n
    → ◌≡◌ {A = RestJob × Bool} (kept job b m, true) (kept job c n, true)
kept_congr job e f = λ i. (kept job (e i) (f i), true)

-- Two pieces, the second joined to the rest, count as much as the whole.
count_assoc :
    (n : ℕ) (chunk : Bytes) (chunks : List Bytes)
    → n + length chunk + length (join chunks) ≡ n + length (chunk ++ join chunks)
count_assoc n chunk chunks = omega (arith, length-append chunk (join chunks))

append_piece :
    (cap : ℕ) (body got chunk : Bytes)
    → body ≡ take cap got
    → body ++ take (cap - length body) chunk ≡ take cap (got ++ chunk)
append_piece cap body got chunk e = rw e (take-append-take cap got chunk)

receive_error_from :
    (job : RestJob) (got : Bytes) (chunks : List Bytes)
    → is_primary job ≡ false
    → job.response_body ≡ take (body_cap job) got
    → receive job chunks ≡ (
      kept job (take (body_cap job) (got ++ join chunks)) (job.body_length + length (join chunks)),
      true,
    )
unfolding receive body_cap
receive_error_from job got [] p e =
    kept_congr job (e ∙ ap (take (body_cap job)) (sym (append-nil got))) (omega arith)
receive_error_from job got (chunk ∷ chunks) p e =
    let more = job.response_body ++ take (body_cap job - length job.response_body) chunk in
    let job' = kept job more (job.body_length + length chunk) in
    receive_step job job' chunk chunks (write_memory_error job chunk p)
    ∙ receive_error_from job' (got ++ chunk) chunks p
        (append_piece (body_cap job) job.response_body got chunk e)
    ∙ kept_congr job (ap (take (body_cap job)) (append_assoc got chunk (join chunks)))
        (count_assoc job.body_length chunk chunks)

-- Where the request streams or writes to a file, so that only an error comes into memory: the text of
-- the error, in whatever pieces it comes, is taken whole, and its first 64 KiB are kept.
pub receive_error :
    (job : RestJob) (chunks : List Bytes)
    → is_primary job ≡ false
    → job.response_body ≡ []
    → (body_cap job ≡ 65536)
      × (receive job chunks ≡ (
        kept job (take (body_cap job) (join chunks)) (job.body_length + length (join chunks)),
        true,
      ))
unfolding body_cap
receive_error job chunks p e =
    (rw p, receive_error_from job [] chunks p (e ∙ sym (take-nil (body_cap job))))

-- A body within `maxBodySize`, in whatever pieces it comes, is kept whole.
pub receive_fits :
    (job : RestJob) (chunks : List Bytes)
    → is_primary job ≡ true
    → length job.response_body + length (join chunks) ≤ body_cap job
    → receive job chunks
      ≡ (kept job (job.response_body ++ join chunks) (job.body_length + length (join chunks)), true)
unfolding receive body_cap
receive_fits job [] p h = ground (arith, append-nil job.response_body)
receive_fits job (chunk ∷ chunks) p h =
    let job' = kept job (job.response_body ++ chunk) (job.body_length + length chunk) in
    receive_step job job' chunk chunks
      (write_memory_fits job chunk p (omega (arith, length-append chunk (join chunks))))
    ∙ receive_fits job' chunks p
        (omega (arith, length-append chunk (join chunks), length-append job.response_body chunk))
    ∙ kept_congr job (append_assoc job.response_body chunk (join chunks))
        (count_assoc job.body_length chunk chunks)

receive_stop :
    (job : RestJob) (chunk : Bytes) (chunks : List Bytes)
    → is_primary job ≡ true
    → length job.response_body ≤ body_cap job
    → body_cap job < length job.response_body + length chunk
    → let (job', whole) = receive job (chunk ∷ chunks) in
      (whole ≡ false) × (job'.too_large ≡ true) × (length job'.response_body ≤ body_cap job)
unfolding receive
receive_stop job chunk chunks p k h = rw (write_memory_exceeds job chunk p k h) (ground arith)

-- A body above `maxBodySize`, in whatever pieces it comes, stops the transfer, marks the job and
-- leaves no more in memory than is allowed.
pub receive_exceeds :
    (job : RestJob) (chunks : List Bytes)
    → is_primary job ≡ true
    → length job.response_body ≤ body_cap job
    → body_cap job < length job.response_body + length (join chunks)
    → let (job', whole) = receive job chunks in
      (whole ≡ false) × (job'.too_large ≡ true) × (length job'.response_body ≤ body_cap job)
unfolding receive body_cap
receive_exceeds job [] p k h = absurd (omega arith)
receive_exceeds job (chunk ∷ chunks) p k h =
    elim (dec_le (length job.response_body + length chunk) (body_cap job)) [
      | yes fits ↦
          let job' = kept job (job.response_body ++ chunk) (job.body_length + length chunk) in
          rw (receive_step job job' chunk chunks (write_memory_fits job chunk p fits)) (
            receive_exceeds job' chunks p (omega (arith, length-append job.response_body chunk)) (
              omega
                (arith, length-append chunk (join chunks), length-append job.response_body chunk)))
      | no exceeds ↦ receive_stop job chunk chunks p k (omega arith)
    ]
