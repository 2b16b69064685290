-- ===== src/Job/Delay.antt =====
-- The delay before a retry: exponential with a cap, or what the server asks for.
use sm_rest.Prelude.{
  ℕ, zero, suc, ◌-◌, ◌*◌, ◌/◌, ◌^◌, ◌≤◌, ◌<◌, ◌≡◌, refl, min, true, false, Option, none, some,
  if_cases, option_cases, Bytes, Bool, not, ◌&&◌, ◌∙◌, if◌then◌else◌, arith, bytes, is_empty,
}
use sm_rest.Prelude.Int.{ℤ, pos, negsuc, ◌+ℤ◌, ◌≤ℤ◌, pos_part, neg_part, leb_ℤ}
use native.Mathlib.Nat.{pow-suc}
use sm_rest.Text.{HeaderList, find_header}
use sm_rest.Numbers.{to_string, strtol}
use sm_rest.Numbers.Decimal.{IsNumeral, strtol-to_string, to_string-IsNumeral}
use sm_rest.Job.State.{RestJob}
use sm_rest.Job.Retry.{
  RetryAnswers, backoff_of, retry_after_ms, converted, parse_retry_after_ms, retry_delay,
}

pow-pos : (k : ℕ) → 1 ≤ 2 ^ k
pow-pos zero = omega arith
pow-pos (suc k) = omega (arith, pow-suc 2 k, pow-pos k)

-- The backoff starts at one second, never falls below it, and never exceeds half a minute.
backoff_bounds : (attempt : ℕ) → (1000 ≤ backoff_of attempt) × (backoff_of attempt ≤ 30000)
unfolding backoff_of
backoff_bounds attempt = omega (arith, pow-pos (min (attempt - 1) 10))

-- Retry-After in seconds is honoured up to the cap, as long as the product fits into a 32-bit `long`.
pub retry_after_ms-min :
    (seconds : ℕ)
    → seconds ≤ 2147483
    → retry_after_ms seconds ≡ some (pos (min 60000 (seconds * 1000)))
unfolding retry_after_ms
retry_after_ms-min seconds h = ground arith

-- What the header says, as the server's number of seconds.
numeral-not_empty : (text : Bytes) → IsNumeral text → is_empty text ≡ false
unfolding IsNumeral
numeral-not_empty text (c, cs, e, d) = rw e

asks :
    (headers : HeaderList) (seconds : ℕ)
    → find_header headers (bytes "retry-after") ≡ some (to_string seconds)
    → seconds < 2 ^ 31
    → parse_retry_after_ms headers ≡ retry_after_ms seconds
unfolding parse_retry_after_ms
asks headers seconds e h = ground (
  arith,
  numeral-not_empty (to_string seconds) (to_string-IsNumeral seconds),
  strtol-to_string seconds,
)

-- The text is a number from 0, as far as `strtol` reads it.
unfoldable pub is_count : Option ℤ → Bool
is_count (some (pos seconds)) = true
is_count (some (negsuc n)) = false
is_count none = false

converted-not_count : (n : Option ℤ) → is_count n ≡ false → converted n ≡ some (negsuc 0)
unfolding is_count converted
converted-not_count none h = refl
converted-not_count (some (negsuc n)) h = refl
converted-not_count (some (pos n)) h = cc h

-- The response has a Retry-After header that holds a number from 0.
unfoldable pub is_usable : HeaderList → Bool
is_usable headers = elim (find_header headers (bytes "retry-after")) [
  | none ↦ false
  | some value ↦ not (is_empty value) && is_count (strtol value)
]

unusable-absent :
    (headers : HeaderList)
    → is_usable headers ≡ false
    → parse_retry_after_ms headers ≡ some (negsuc 0)
unfolding is_usable parse_retry_after_ms
unusable-absent headers h =
    option_cases (λ z. z ≡ some (negsuc 0)) (find_header headers (bytes "retry-after"))
      (some (negsuc 0))
      (λ value. if is_empty value then some (negsuc 0) else converted (strtol value)) (λ e. refl)
      (λ value e.
        if_cases (λ z. z ≡ some (negsuc 0)) (is_empty value) _ _ (λ n. refl)
          (λ n. converted-not_count (strtol value) (ground arith)))

-- The jitter is drawn from a quarter of the backoff, either way.
abbrev pub Drawn : RestJob → ℤ → Type 0
Drawn job jitter =
    (pos_part jitter ≤ backoff_of job.attempt / 4) × (neg_part jitter ≤ backoff_of job.attempt / 4)

-- What becomes of the value that the header has.
known_delay :
    (job : RestJob) (answers : RetryAnswers) (after : ℤ)
    → parse_retry_after_ms job.response_headers ≡ some after
    → retry_delay answers job
      ≡ (if leb_ℤ (pos 0) after then after else pos (backoff_of job.attempt) +ℤ answers.jitter)
unfolding retry_delay
known_delay job answers after e = ground arith

jittered_bounds :
    (job : RestJob) (jitter : ℤ)
    → Drawn job jitter
    → (pos 750 ≤ℤ pos (backoff_of job.attempt) +ℤ jitter)
      × (pos (backoff_of job.attempt) +ℤ jitter ≤ℤ pos 37500)
unfolding ◌+ℤ◌
jittered_bounds job jitter d = ground (arith, backoff_bounds job.attempt)

-- When the response has no Retry-After header, or one that is empty or not a number from 0, the delay
-- is the backoff of the attempt and the jitter, which is at least 750 ms and at most 37.5 s.
pub retry_delay_bounds :
    (job : RestJob) (answers : RetryAnswers)
    → Drawn job answers.jitter
    → is_usable job.response_headers ≡ false
    → (retry_delay answers job ≡ pos (backoff_of job.attempt) +ℤ answers.jitter)
      × (pos 750 ≤ℤ retry_delay answers job)
      × (retry_delay answers job ≤ℤ pos 37500)
retry_delay_bounds job answers d u =
    let e = known_delay job answers (negsuc 0) (unusable-absent job.response_headers u) in
    (
      e,
      rw e (jittered_bounds job answers.jitter d).0,
      rw e (jittered_bounds job answers.jitter d).1,
    )

-- A job that the server asks to come back after some seconds, at most 2147483, does so after that
-- time, or after a minute if it is longer.
pub retry_delay_honoured :
    (job : RestJob) (answers : RetryAnswers) (seconds : ℕ)
    → find_header job.response_headers (bytes "retry-after") ≡ some (to_string seconds)
    → seconds ≤ 2147483
    → retry_delay answers job ≡ pos (min 60000 (seconds * 1000))
retry_delay_honoured job answers seconds e h = ground (
  arith,
  known_delay job answers (pos (min 60000 (seconds * 1000)))
      (asks job.response_headers seconds e (omega arith) ∙ retry_after_ms-min seconds h),
)
