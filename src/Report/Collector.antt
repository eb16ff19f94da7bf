-- ===== src/Report/Collector.antt =====
-- pkg/report/collector.go: the results of a run and how they are counted.
use io_stress.Common.{
  ℕ, suc, ◌+◌, Bool, true, false, ◌||◌, String, List, [], ◌∷◌, ◌++◌, str_eq, starts_with,
  if◌then◌else◌,
}
use io_stress.Common.Int.{ℤ}
pub mod Counts
mod Counted
mod Totals
mod Tests

-- JobResult. FIOOutput and ObjectOutput are not read here.
pub record JobResult : Type 0 where
  pub pod : String
  pub job : String
  pub category : String
  pub storage : String
  pub volume_mode : String
  pub status : String
  pub exit_code : ℤ
  pub duration : ℤ
  pub error : String

-- The seven counters that PhaseSummary and Summary both have.
pub record Counters : Type 0 where
  pub total : ℕ
  pub passed : ℕ
  pub failed : ℕ
  pub skipped : ℕ
  pub slow : ℕ
  pub infra : ℕ
  pub cleanup : ℕ

pub record PhaseSummary : Type 0 where
  pub counters : Counters
  pub omit : Bool

pub record Summary : Type 0 where
  pub counters : Counters
  pub phase1 : PhaseSummary
  pub lifecycle : PhaseSummary
  pub object : PhaseSummary

-- PhaseSummary.IsZero
abbrev is_zero : PhaseSummary → Bool
is_zero p = p.omit

-- Summary.OmitVolumePhases
abbrev pub omit_volume_phases : Summary → Summary
omit_volume_phases s = record s {
  phase1 = record s.phase1 { omit = true };
  lifecycle = record s.lifecycle { omit = true };
}

-- Which of the summary's phases summaryPhase points to.
pub data Slot : Type 0 where
  phase1 lifecycle object : Slot

unfoldable pub summary_phase : String → Slot
summary_phase category =
    if str_eq category "lifecycle"
    then Slot.lifecycle
    else if starts_with category "object-"
    then Slot.object
    else Slot.phase1

-- The cases of ComputeSummary's switch; `other` is none of them.
pub data Status : Type 0 where
  pass fail skip slow infra cleanup other : Status

unfoldable pub status_of : String → Status
status_of status =
    if str_eq status "pass"
    then Status.pass
    else if str_eq status "fail"
    then Status.fail
    else if str_eq status "skip"
    then Status.skip
    else if str_eq status "slow" || str_eq status "retryable"
    then Status.slow
    else if str_eq status "infra-fail"
    then Status.infra
    else if str_eq status "cleanup-fail"
    then Status.cleanup
    else Status.other

-- The counters after one result; `total` counts the other ones too.
pub bump : Status → Counters → Counters
bump Status.pass c = record c { total = c.total + 1; passed = c.passed + 1 }
bump Status.fail c = record c { total = c.total + 1; failed = c.failed + 1 }
bump Status.skip c = record c { total = c.total + 1; skipped = c.skipped + 1 }
bump Status.slow c = record c { total = c.total + 1; slow = c.slow + 1 }
bump Status.infra c = record c { total = c.total + 1; infra = c.infra + 1 }
bump Status.cleanup c = record c { total = c.total + 1; cleanup = c.cleanup + 1 }
bump Status.other c = record c { total = c.total + 1 }

bump_phase : Status → PhaseSummary → PhaseSummary
bump_phase status p = record p { counters = bump status p.counters }

-- The counters that summaryPhase's pointer leads to.
route : Slot → Status → Summary → Summary
unfolding bump_phase
route Slot.phase1 status s = record s { phase1 = bump_phase status s.phase1 }
route Slot.lifecycle status s = record s { lifecycle = bump_phase status s.lifecycle }
route Slot.object status s = record s { object = bump_phase status s.object }

-- The body of ComputeSummary's loop.
pub count_result : JobResult → Summary → Summary
unfolding route
count_result r s =
    route (summary_phase r.category) (status_of r.status)
      (record s { counters = bump (status_of r.status) s.counters })

abbrev no_counts : Counters
no_counts = record {
  total = 0;
  passed = 0;
  failed = 0;
  skipped = 0;
  slow = 0;
  infra = 0;
  cleanup = 0;
}

abbrev empty_phase : PhaseSummary
empty_phase = record { counters = no_counts; omit = false }

abbrev pub empty_summary : Summary
empty_summary = record {
  counters = no_counts;
  phase1 = empty_phase;
  lifecycle = empty_phase;
  object = empty_phase;
}

pub count_results : List JobResult → Summary → Summary
count_results [] s = s
count_results (r ∷ rs) s = count_results rs (count_result r s)

-- ComputeSummary
unfoldable pub compute_summary : List JobResult → Summary
compute_summary rs = count_results rs empty_summary

-- Collector.Add, on the results that the collector holds
abbrev pub add : JobResult → List JobResult → List JobResult
add r results = results ++ r ∷ []
