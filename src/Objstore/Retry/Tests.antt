-- ===== src/Objstore/Retry/Tests.antt =====
-- pkg/objstore/client.go at concrete errors and attempts.
use io_stress.Common.{
  ℕ, zero, suc, ◌/◌, ◌≤◌, ◌≡◌, refl, String, Option, none, some, true, false, arith, inr, leb,
  le→leb, if◌then◌else◌,
}
use io_stress.Common.Int.{pos}
use io_stress.Objstore.Stats.{Stats, new_stats}
use io_stress.Objstore.Stats.Whole.{whole}
use io_stress.Objstore.Retry.{
  Err, Attempt, Ending, returned, panicked, api_code, one_of, retryable, is_capacity,
  is_unsupported, is_copy_limit, backoff, halved, capped, with_retry, retry_from, next_of, round,
  after_failure, slept,
}
use io_stress.Objstore.Retry.Backoff.{slept_at_most, backoff-bounds}
use io_stress.Objstore.Retry.Errors.{answered-retryable}
use io_stress.Objstore.Retry.Loop.{
  Run, with_retry-Run, with_retry-returns, Outage, with_retry-panics,
}

-- An answer of the server with a code and a status.
abbrev answer : String → ℕ → Err
answer code status = record {
  text = "";
  mismatch = false;
  canceled = false;
  deadline = false;
  ended = false;
  net_timeout = false;
  net_op = false;
  code = code;
  status = status;
  request_id = "r1";
}

-- Enough of `%d` for the tests.
abbrev show : ℕ → String
show n = "503"

classes :
    (retryable show (answer "" 503) ≡ true)
    × (retryable show (answer "NoSuchKey" 503) ≡ false)
    × (is_capacity show (answer "QuotaExceeded" 507) ≡ true)
    × (is_unsupported show (answer "" 501) ≡ true)
    × (is_copy_limit show (answer "InvalidRequest" 400) ≡ true)
unfolding retryable one_of api_code is_capacity is_unsupported is_copy_limit
classes = (refl, refl, refl, refl, refl)

answered-retryable_run : retryable show (answer "NotImplemented" 501) ≡ false
answered-retryable_run =
    answered-retryable show (answer "NotImplemented" 501) refl
      (inr (unfold is_unsupported one_of api_code in refl, unfold one_of api_code in refl))

abbrev lowest : ℕ → ℕ
lowest n = 0

backoff-bounds_example :
    (d : ℕ) × (backoff lowest 3 ≡ some d)
    × (slept_at_most 3 / 2 ≤ d)
    × (d ≤ slept_at_most 3)
    × (100000000 ≤ d)
    × (d ≤ 30000000000)
backoff-bounds_example = backoff-bounds lowest 3 (λ n h. h) (omega arith)

abbrev failing : Err → Attempt
failing e = record {
  ended_before = none;
  took = pos 5000000;
  result = some e;
  random = lowest;
  ended_waiting = none;
}

-- Two slow downs, then success.
abbrev script : ℕ → Attempt
script zero = failing (answer "SlowDown" 503)
script (suc zero) = failing (answer "" 503)
script (suc (suc n)) = record (failing (answer "" 500)) { result = none }

abbrev stuck : ℕ → Attempt
stuck n = failing (answer "SlowDown" 503)

third_time :
    (u : Stats whole) × (with_retry whole show (pos 5) "PutObject" script (new_stats whole)
      ≡ some (returned none, u))
unfolding with_retry retry_from next_of round after_failure slept backoff halved capped retryable
    one_of api_code
third_time = (_, refl)

with_retry-Run_example :
    (x : Ending) × (u : Stats whole) × (with_retry whole show
        (pos 5)
        "PutObject"
        script
        (new_stats whole)
      ≡ some (x, u))
    × Run whole show "PutObject" 5 script 0 (new_stats whole) x u
with_retry-Run_example = with_retry-Run whole show "PutObject" 5 script (new_stats whole)

with_retry-returns_run :
    (r : Option Err) × (u : Stats whole) × (with_retry whole show
        (pos 5)
        "PutObject"
        stuck
        (new_stats whole)
      ≡ some (returned r, u))
with_retry-returns_run =
    with_retry-returns whole show "PutObject" 5 stuck (new_stats whole) (omega arith)

-- The server is back after 37 calls.
abbrev outage : ℕ → Attempt
outage n = if leb n 36 then stuck n else record (stuck n) { result = none }

outage-Outage : Outage whole show "PutObject" outage
unfolding retryable one_of api_code
outage-Outage = record {
  err = λ n. answer "SlowDown" 503;
  failing = λ n h. rw (le→leb n 36 h) (record { before = refl; failure = refl; worth = refl });
  patient = λ n h. ground arith;
}

with_retry-panics_example :
    (u : Stats whole) × (with_retry whole show (pos 40) "PutObject" outage (new_stats whole)
      ≡ some (panicked, u))
with_retry-panics_example =
    with_retry-panics whole show "PutObject" 40 outage (new_stats whole) (omega arith) outage-Outage
