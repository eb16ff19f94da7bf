-- ===== src/Cluster/Retry.antt =====
-- pkg/k8s/retry.go: RetryContext. The context and the function are functions of the world's state;
-- waiting for a timer is one as well, and tells whether the context ended first.
use Prim.Native.String.{◌++◌}
use io_stress.Common.{
  ℕ, ◌*◌, Bool, true, false, String, List, [], ◌∷◌, Option, none, some, if◌then◌else◌,
}
use io_stress.Workload.Finalize.{RunError}
pub mod Attempts

-- What RetryContext is called with.
pub record Task : Type 1 where
  pub World : Type 0
  pub ended : World → Option RunError  -- ctx.Err()
  pub call : World → Option RunError × World  -- fn
  pub wait : ℕ → World → Bool × World  -- a timer of so many nanoseconds

-- The delays, in nanoseconds
abbrev pub delays : List ℕ
delays = 5 * 1000000000 ∷ 10 * 1000000000 ∷ 20 * 1000000000 ∷ []

-- The last error so far, or the context's
abbrev pub last_or : Option RunError → RunError → RunError
last_or none e = e
last_or (some last) e = last

-- What `%w` makes of the last error after four attempts
abbrev pub gave_up : RunError → RunError
gave_up e = record e { text = "failed after 4 attempts: " ++ e.text }

module _ (t : Task) where
  open t use {World, ended, call, wait}

  -- An error or nil, and the world with the number of calls and the time waited
  abbrev pub Ended : Type 0
  Ended = Option RunError × World

  -- An attempt, unless the context has ended
  unfoldable pub unless_ended : Option RunError → Option RunError → World → Ended → Ended
  unless_ended (some e) last w tried = (some (last_or last e), w)
  unless_ended none last w tried = tried

  -- The last attempt
  unfoldable pub last_try : Option RunError × World → Ended
  last_try (none, w) = (none, w)
  last_try (some e, w) = (some (gave_up e), w)

  -- Behind a timer: the error, if the context ended, or the next attempts.
  unfoldable pub waited : RunError → Bool × World → (World → Ended) → Ended
  waited e (true, w) again = (some e, w)
  waited e (false, w) again = again w

  -- An attempt with a delay behind it
  unfoldable pub one_try : ℕ → Option RunError × World → (RunError → World → Ended) → Ended
  unfolding waited
  one_try d (none, w) again = (none, w)
  one_try d (some e, w) again = waited e (wait d w) (again e)

  -- The attempts that are left: one more than the delays.
  unfoldable pub attempts : List ℕ → Option RunError → World → Ended
  unfolding unless_ended last_try one_try
  attempts [] last w = unless_ended (ended w) last w (last_try (call w))
  attempts (d ∷ ds) last w =
      unless_ended (ended w) last w (one_try d (call w) (λ e w'. attempts ds (some e) w'))

  -- RetryContext
  unfoldable pub retry_context : World → Ended
  unfolding attempts
  retry_context w = attempts delays none w
