-- ===== src/Job/Retry.antt =====
-- When a failed attempt is made again, and after what delay (src/job.cpp).
use sm_rest.Prelude.{
  ℕ, ◌-◌, ◌*◌, ◌^◌, min, Bool, true, false, not, ◌&&◌, ◌||◌, Option, none, some, bytes, is_empty,
  if◌then◌else◌, ltb, ◌==◌,
}
use sm_rest.Prelude.Int.{ℤ, pos, negsuc, ◌+ℤ◌, ltb_ℤ, leb_ℤ}
use sm_rest.Text.{HeaderList, find_header}
use sm_rest.Numbers.{strtol}
use sm_rest.Job.State.{RestJob}

abbrev pub backoff_base_ms : ℕ
backoff_base_ms = 1000

abbrev pub backoff_cap_ms : ℕ
backoff_cap_ms = 30000

abbrev pub retry_after_cap_ms : ℕ
retry_after_cap_ms = 60000

-- `std::min(kRetryAfterCapMs, seconds * 1000)`, the product in a `long`, which has 32 bits. Where the
-- product does not fit into it, C++ leaves the behaviour undefined: there is no value.
unfoldable pub retry_after_ms : ℕ → Option ℤ
retry_after_ms seconds =
    if ltb (seconds * 1000) (2 ^ 31)
    then some (pos (min retry_after_cap_ms (seconds * 1000)))
    else none

unfoldable pub converted : Option ℤ → Option ℤ
converted none = some (negsuc 0)
converted (some (negsuc n)) = some (negsuc 0)
converted (some (pos seconds)) = retry_after_ms seconds

unfoldable pub parse_retry_after_ms : HeaderList → Option ℤ
unfolding converted retry_after_ms
parse_retry_after_ms headers = elim (find_header headers (bytes "retry-after")) [
  | none ↦ some (negsuc 0)
  | some value ↦ if is_empty value then some (negsuc 0) else converted (strtol value)
]

-- `m_attempt` is at least 1 once an attempt has begun.
unfoldable pub backoff_of : ℕ → ℕ
backoff_of attempt = min backoff_cap_ms (backoff_base_ms * 2 ^ min (attempt - 1) 10)

-- The clock, what the generator draws from [-base / 4, base / 4], and the delay that the compiled
-- code takes where the product above overflows, which can be any.
pub record RetryAnswers : Type 0 where
  pub now : ℕ
  pub jitter : ℤ
  pub undefined : ℤ

unfoldable pub retry_delay : RetryAnswers → RestJob → ℤ
unfolding backoff_of ◌+ℤ◌
retry_delay answers job =
    let backoff = pos (backoff_of job.attempt) +ℤ answers.jitter in
    elim (parse_retry_after_ms job.response_headers) [
      | none ↦ answers.undefined
      | some retry_after ↦ if leb_ℤ (pos 0) retry_after then retry_after else backoff
    ]

unfoldable pub schedule_retry : RetryAnswers → RestJob → RestJob
schedule_retry answers job = record job {
  retry_at = pos answers.now +ℤ retry_delay answers job;
  waiting_for_retry = true;
}

unfoldable pub is_retry_due : RestJob → ℕ → Bool
is_retry_due job now = job.waiting_for_retry && leb_ℤ job.retry_at (pos now)

unfoldable pub can_retry : RestJob → Bool
can_retry job =
    if ltb_ℤ job.spec.config.max_retries (pos job.attempt)
    then false
    else not (job.spec.stream_data && ltb 0 job.body_length)

unfoldable pub should_retry_status : ℕ → Bool
should_retry_status http_status =
    http_status == 429 || http_status == 502 || http_status == 503 || http_status == 504
