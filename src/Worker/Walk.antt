-- ===== src/Worker/Walk.antt =====
-- pkg/worker/phases.go, acc.walk: the goroutines over a shard, as a step relation. The loop, the
-- goroutines and whoever cancels the context move in any order.
use io_stress.Common.{
  ℕ, ◌+◌, ◌<◌, ◌≡◌, ◌≢◌, Bool, true, false, List, [], ◌∷◌, ◌++◌, Option, none, some, ltb,
  if◌then◌else◌, length,
}
pub mod Counts
pub mod Covered
pub mod Ends
pub mod Tests

-- walk's limit of goroutines
abbrev pub slots : ℕ → ℕ
slots conc = if ltb conc 1 then 1 else conc

-- `E` is the errors that a body returns, and `kind` their concrete types.
module _ {E : Type 0} (kind : E → ℕ) where
  -- The next index of the loop; the indices of the goroutines in their body, and of those that have
  -- returned an error and have found none stored; those that are done; the error that is stored;
  -- whether the context is done, the loop was left early and a goroutine has panicked.
  pub record Walk : Type 0 where
    pub next : ℕ
    pub running : List ℕ
    pub storing : List (ℕ × E)
    pub finished : List ℕ
    pub first : Option E
    pub canceled : Bool
    pub broken : Bool
    pub panicked : Bool

  abbrev pub begin : ℕ → Walk
  begin start = record {
    next = start;
    running = [];
    storing = [];
    finished = [];
    first = none;
    canceled = false;
    broken = false;
    panicked = false;
  }

  -- What atomic.Value.Store asks of a second value: the concrete type of the first.
  abbrev pub Fits : Option E → E → Type 0
  Fits none e = Unit
  Fits (some old) e = kind old ≡ kind e

  -- A step of the walk up to `end` with at most `conc` goroutines.
  pub data Step (end conc : ℕ) (w v : Walk) : Type 0 where
    cancel : v ≡ record w { canceled = true } → Step end conc w v
    leave :
        w.canceled ≡ true
        → w.broken ≡ false
        → w.next < end
        → v ≡ record w { broken = true }
        → Step end conc w v
    launch :
        w.broken ≡ false
        → w.next < end
        → length w.running + length w.storing < conc
        → v ≡ record w { next = w.next + 1; running = w.next ∷ w.running }
        → Step end conc w v
    succeed :
        (i : ℕ) (before after : List ℕ)
        → w.running ≡ before ++ i ∷ after
        → v ≡ record w { running = before ++ after; finished = i ∷ w.finished }
        → Step end conc w v
    fail_late :
        (i : ℕ) (before after : List ℕ) (old : E)
        → w.running ≡ before ++ i ∷ after
        → w.first ≡ some old
        → v ≡ record w { running = before ++ after; finished = i ∷ w.finished }
        → Step end conc w v
    fail_first :
        (i : ℕ) (before after : List ℕ) (e : E)
        → w.running ≡ before ++ i ∷ after
        → w.first ≡ none
        → v ≡ record w { running = before ++ after; storing = (i, e) ∷ w.storing }
        → Step end conc w v
    store :
        (i : ℕ) (e : E) (before after : List (ℕ × E))
        → w.storing ≡ before ++ (i, e) ∷ after
        → Fits w.first e
        → v ≡ record w { storing = before ++ after; first = some e; finished = i ∷ w.finished }
        → Step end conc w v
    crash :
        (i : ℕ) (e old : E) (before after : List (ℕ × E))
        → w.storing ≡ before ++ (i, e) ∷ after
        → w.first ≡ some old
        → kind old ≢ kind e
        → v ≡ record w { storing = before ++ after; panicked = true }
        → Step end conc w v

  pub data Reach (start end conc : ℕ) : Walk → Type 0 where
    here : Reach start end conc (begin start)
    next_step :
        {w v : Walk}
        → Reach start end conc w
        → w.panicked ≡ false
        → Step end conc w v
        → Reach start end conc v

  -- wg.Wait() has returned: the loop is over and no goroutine is left.
  pub record Waited (end : ℕ) (w : Walk) : Type 0 where
    pub quiet : w.running ≡ []
    pub stored : w.storing ≡ []
    pub looped : (w.next < end) → w.broken ≡ true
