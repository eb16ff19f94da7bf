-- ===== src/Cluster/Retry/Attempts.antt =====
-- pkg/k8s/retry.go: how often the function is called, and for how long is waited.
use io_stress.Common.{
  ℕ, suc, ◌+◌, ◌≤◌, ◌≡◌, Bool, true, false, List, [], ◌∷◌, Option, none, some, arith, length,
}
use io_stress.Workload.Finalize.{RunError}
use io_stress.Cluster.Retry.{
  Task, delays, unless_ended, last_try, waited, one_try, attempts, retry_context, Ended,
}

-- The same task, with the number of calls and the time that was set for the timers
abbrev pub counted : Task → Task
counted t = record {
  World = t.World × ℕ × ℕ;
  ended = λ x. t.ended x.0;
  call = λ x. let (got, w) = t.call x.0 in (got, (w, x.1 + 1, x.2));
  wait = λ d x. let (done, w) = t.wait d x.0 in (done, (w, x.1, x.2 + d));
}

abbrev sum : List ℕ → ℕ
sum [] = 0
sum (d ∷ ds) = d + sum ds

module _ (t : Task) where
  -- A result within so many calls and so long, of which nil needs a call.
  record Within (calls waited from : ℕ) (r : Ended (counted t)) : Type 0 where
    few : r.1.1 ≤ calls
    short : r.1.2 ≤ waited
    tried : r.0 ≡ none → suc from ≤ r.1.1

  unless_ended-Within :
      (n m calls waited : ℕ) (ended last : Option RunError) (w : t.World) (r : Ended (counted t))
      → calls ≤ n
      → waited ≤ m
      → Within n m calls r
      → Within n m calls (unless_ended (counted t) ended last (w, calls, waited) r)
  unfolding unless_ended
  unless_ended-Within n m calls waited (some e) last w r few short h = record {
    few = few;
    short = short;
    tried = λ z. absurd (cc);
  }
  unless_ended-Within n m calls waited none last w r few short h = h

  last_try-Within :
      (calls waited : ℕ) (got : Option RunError) (w : t.World)
      → Within (calls + 1) waited calls (last_try (counted t) (got, (w, calls + 1, waited)))
  unfolding last_try
  last_try-Within calls waited none w = record {
    few = omega arith;
    short = omega arith;
    tried = λ z. omega arith;
  }
  last_try-Within calls waited (some e) w = record {
    few = omega arith;
    short = omega arith;
    tried = λ z. absurd (cc);
  }

  waited-Within :
      (n m calls waited_for : ℕ) (e : RunError) (done : Bool) (w : t.World)
      (again : t.World × ℕ × ℕ → Ended (counted t))
      → calls + 1 ≤ n
      → waited_for ≤ m
      → Within n m (calls + 1) (again (w, calls + 1, waited_for))
      → Within n m calls (waited (counted t) e (done, (w, calls + 1, waited_for)) again)
  unfolding waited
  waited-Within n m calls waited_for e true w again few short h = record {
    few = few;
    short = short;
    tried = λ z. absurd (cc);
  }
  waited-Within n m calls waited_for e false w again few short h = record {
    few = h.few;
    short = h.short;
    tried = λ z. omega (arith, h.tried z);
  }

  one_try-Within :
      (n m calls waited_for d : ℕ) (got : Option RunError) (w : t.World)
      (again : RunError → t.World × ℕ × ℕ → Ended (counted t))
      → calls + 1 ≤ n
      → waited_for + d ≤ m
      → ((e : RunError) (w' : t.World)
          → Within n m (calls + 1) (again e (w', calls + 1, waited_for + d)))
      → Within n m calls (one_try (counted t) d (got, (w, calls + 1, waited_for)) again)
  unfolding one_try
  one_try-Within n m calls waited_for d none w again few short h = record {
    few = few;
    short = omega arith;
    tried = λ z. omega arith;
  }
  one_try-Within n m calls waited_for d (some e) w again few short h =
      waited-Within n m calls (waited_for + d) e _ _ (again e) few short (h e _)

  attempts-Within :
      (n m : ℕ) (ds : List ℕ) (last : Option RunError) (w : t.World) (calls waited : ℕ)
      → calls + length ds + 1 ≤ n
      → waited + sum ds ≤ m
      → Within n m calls (attempts (counted t) ds last (w, calls, waited))
  unfolding attempts
  attempts-Within n m [] last w calls waited few short =
      let tried = last_try-Within calls waited (t.call w).0 (t.call w).1 in
      unless_ended-Within n m calls waited (t.ended w) last w _ (omega arith) (omega arith)
        (record {
          few = omega (arith, tried.few);
          short = omega (arith, tried.short);
          tried = tried.tried;
        })
  attempts-Within n m (d ∷ ds) last w calls waited few short =
      unless_ended-Within n m calls waited (t.ended w) last w _ (omega arith) (omega arith) (
        one_try-Within n m calls waited d _ _ _ (omega arith) (omega arith) (λ e w'.
          attempts-Within n m ds (some e) w' (calls + 1) (waited + d) (omega arith) (omega arith)))

  -- RetryContext calls its function four times at most, sets timers of 35 seconds at most, and
  -- returns nil only after a call.
  pub retry_context-Within :
      (w : t.World)
      → let (err, (w', calls, waited)) = retry_context (counted t) (w, 0, 0) in
        (calls ≤ 4) × (waited ≤ 35000000000) × (err ≡ none → 1 ≤ calls)
  unfolding retry_context
  retry_context-Within w =
      let all = attempts-Within 4 35000000000 delays none w 0 0 (omega arith) (omega arith) in
      (all.few, all.short, all.tried)
