-- ===== src/Objstore/Retry.antt =====
-- pkg/objstore/client.go: what an error is taken for, the backoff, and the retry loop around every
-- S3 call.
use Prim.Native.String.{◌++◌}
use io_stress.Common.{
  ℕ, zero, suc, ◌+◌, ◌-◌, ◌*◌, ◌/◌, ◌%◌, ◌^◌, Bool, true, false, not, ◌&&◌, ◌||◌, String, Option,
  none, some, str_eq, ltb, leb, ◌==◌, if◌then◌else◌, u64, i64_mod, u64_mod, List, [], ◌∷◌,
}
use io_stress.Common.Int.{ℤ, pos, negsuc}
use io_stress.Objstore.Stats.{Floats, Stats, observe, note_retry, note_error}
mod Loop
mod Backoff
mod Errors
mod Tests

-- An error, by what errors.Is and errors.As find in its chain.
pub record Err : Type 0 where
  pub text : String
  pub mismatch : Bool  -- ErrMismatch
  pub canceled : Bool  -- context.Canceled
  pub deadline : Bool  -- context.DeadlineExceeded
  pub ended : Bool  -- io.EOF or io.ErrUnexpectedEOF
  pub net_timeout : Bool  -- a net.Error that is a timeout
  pub net_op : Bool  -- a *net.OpError
  pub code : String  -- of the first smithy.APIError, or empty
  pub status : ℕ  -- of the first one with a HTTP status, or 0
  pub request_id : String

-- httpStatus
abbrev http_status : Err → ℕ
http_status e = e.status

module _ (show : ℕ → String) where
  -- apiCode; `show` is `%d`.
  unfoldable pub api_code : Err → String
  api_code e =
      if not (str_eq e.code "")
      then e.code
      else if not (e.status == 0)
      then "HTTP" ++ show e.status
      else "Unknown"

-- The codes that the switch of retryable lists as transient.
abbrev pub transient_codes : List String
transient_codes =
    "SlowDown" ∷ "ServiceUnavailable" ∷ "InternalError" ∷ "RequestTimeout" ∷ "RequestTimeTooSkewed"
    ∷ "Throttling" ∷ "ThrottlingException" ∷ "ProvisionedThroughputExceededException" ∷ []

-- The codes it lists as final.
abbrev pub final_codes : List String
final_codes =
    "NotImplemented" ∷ "MethodNotAllowed" ∷ "NoSuchKey" ∷ "NoSuchBucket" ∷ "AccessDenied"
    ∷ "InvalidArgument" ∷ "BucketAlreadyExists" ∷ "BucketAlreadyOwnedByYou" ∷ "NoSpace"
    ∷ "QuotaExceeded" ∷ []

abbrev pub capacity_codes : List String
capacity_codes = "NoSpace" ∷ "QuotaExceeded" ∷ []

abbrev pub unsupported_codes : List String
unsupported_codes = "NotImplemented" ∷ "MethodNotAllowed" ∷ "AccessDenied" ∷ []

-- switch c { case codes... }
unfoldable pub one_of : String → List String → Bool
one_of c [] = false
one_of c (x ∷ codes) = str_eq c x || one_of c codes

module _ (show : ℕ → String) where
  -- retryable, of an error that is not nil
  pub retryable : Err → Bool
  retryable e =
      if e.mismatch || e.canceled
      then false
      else if e.deadline
      then true
      else if e.ended
      then true
      else if e.net_timeout
      then true
      else if e.net_op
      then true
      else if one_of (api_code show e) transient_codes
      then true
      else if one_of (api_code show e) final_codes
      then false
      else (e.status == 500 || e.status == 502 || e.status == 503 || e.status == 504)

  -- IsCapacity
  unfoldable pub is_capacity : Err → Bool
  is_capacity e = one_of (api_code show e) capacity_codes

  -- IsUnsupported
  unfoldable pub is_unsupported : Err → Bool
  is_unsupported e =
      if one_of (api_code show e) unsupported_codes
      then true
      else (e.status == 501 || e.status == 405 || e.status == 403)

  -- IsCopyLimit
  pub is_copy_limit : Err → Bool
  is_copy_limit e = one_of (api_code show e) ("EntityTooLarge" ∷ "InvalidRequest" ∷ [])

-- A time.Duration from its 64 bits.
abbrev signed : ℕ → ℤ
signed n = if ltb n i64_mod then pos n else negsuc (u64_mod - 1 - n)

-- 200 * time.Millisecond * time.Duration(1<<attempt), both wrapping
abbrev pub grown : ℕ → ℤ
grown attempt = signed (u64 (200000000 * u64 (2 ^ attempt)))

-- 30 * time.Second
abbrev pub longest : ℕ
longest = 30000000000

-- d/2 plus the jitter, or none where rand.Int64N panics on a bound that is not positive. A negative
-- d is halved towards zero.
pub halved : (ℕ → ℕ) → ℤ → Option ℕ
halved random (pos d) = some (d / 2 + random (d / 2 + 1))
halved random (negsuc n) = if (n + 1) / 2 == 0 then some (random 1) else none

-- d, but 30 seconds where it is more.
pub capped : ℤ → ℤ
capped (negsuc n) = negsuc n
capped (pos d) = pos (if ltb longest d then longest else d)

-- backoff, with rand.Int64N as a parameter
pub backoff : (ℕ → ℕ) → ℕ → Option ℕ
unfolding halved capped
backoff random attempt = halved random (capped (grown attempt))

-- What one round of the loop meets: the context before the call, how long the call took and what
-- it returned, the random numbers, and the context if it is done before the timer.
pub record Attempt : Type 0 where
  pub ended_before : Option Err
  pub took : ℤ
  pub result : Option Err
  pub random : ℕ → ℕ
  pub ended_waiting : Option Err

-- How the loop ends: with the error it returns, which may be nil, or in the panic of backoff.
pub data Ending : Type 0 where
  returned : Option Err → Ending
  panicked : Ending

-- The select on the context and the timer; without a backoff the loop has panicked before it.
pub slept : Option ℕ → Option Err → Option Ending
slept none ended = some panicked
slept (some d) none = none
slept (some d) (some x) = some (returned (some x))

module _ (fl : Floats) (show : ℕ → String) where
  -- The rest of a round, after a call that failed with e: returned or `none` to go on.
  pub after_failure : ℕ → ℕ → Attempt → Err → Stats fl → Option Ending × Stats fl
  after_failure max attempt a e stats =
      let noted = note_retry fl (api_code show e) e.request_id stats in
      if not (retryable show e) || leb max attempt
      then (some (returned (some e)), note_error fl (api_code show e) e.request_id stats)
      else (slept (backoff a.random attempt) a.ended_waiting, noted)

  -- One round of withRetry.
  pub round : String → ℕ → ℕ → Attempt → Stats fl → Option Ending × Stats fl
  unfolding after_failure
  round op max attempt a stats = elim a.ended_before [
    | some x ↦ (some (returned (some x)), stats)
    | none ↦ elim a.result [
      | none ↦ (some (returned none), observe fl op a.took stats)
      | some e ↦ after_failure max attempt a e (observe fl op a.took stats)
    ]
  ]

  -- Whether the loop goes on to the rest.
  pub next_of : Option Ending × Stats fl → Option (Ending × Stats fl) → Option (Ending × Stats fl)
  next_of (some ending, stats) rest = some (ending, stats)
  next_of (none, stats) rest = rest

  -- The loop from an attempt on; `none` only where the fuel runs out.
  pub retry_from : ℕ → String → ℕ → (ℕ → Attempt) → ℕ → Stats fl → Option (Ending × Stats fl)
  unfolding round next_of
  retry_from zero op max env attempt stats = none
  retry_from (suc fuel) op max env attempt stats =
      let met = round op max attempt (env attempt) stats in
      next_of met (retry_from fuel op max env (suc attempt) met.1)

  -- withRetry: at most one call more than the retries allowed, so that many rounds of fuel.
  pub with_retry : ℤ → String → (ℕ → Attempt) → Stats fl → Option (Ending × Stats fl)
  unfolding retry_from
  with_retry (pos max) op env stats = retry_from (suc max) op max env 0 stats
  with_retry (negsuc n) op env stats = retry_from 1 op 0 env 0 stats
