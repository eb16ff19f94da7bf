-- ===== src/Report/Collector/Counts.antt =====
-- pkg/report/collector.go, ComputeSummary: the counters are counts of the results.
use native.Mathlib.Nat.{zero-add, add-zero}
use io_stress.Common.{
  ℕ, suc, ◌+◌, ◌≡◌, refl, sym, ap, ◌∙◌, Bool, true, false, ◌&&◌, List, [], ◌∷◌, if◌then◌else◌,
  arith,
}
use io_stress.Report.Collector.{
  JobResult, Counters, PhaseSummary, Summary, Slot, Status, status_of, summary_phase, bump,
  bump_phase, route, count_result, count_results, compute_summary, empty_summary,
}

-- How many results pass a test.
abbrev pub how_many : (JobResult → Bool) → List JobResult → ℕ
how_many p [] = 0
how_many p (r ∷ rs) = if p r then suc (how_many p rs) else how_many p rs

abbrev pub is_slot : Slot → Slot → Bool
is_slot Slot.phase1 Slot.phase1 = true
is_slot Slot.lifecycle Slot.lifecycle = true
is_slot Slot.object Slot.object = true
is_slot s t = false

abbrev pub is_status : Status → Status → Bool
is_status Status.pass Status.pass = true
is_status Status.fail Status.fail = true
is_status Status.skip Status.skip = true
is_status Status.slow Status.slow = true
is_status Status.infra Status.infra = true
is_status Status.cleanup Status.cleanup = true
is_status s t = false

abbrev pub with_status : Status → JobResult → Bool
with_status status r = is_status status (status_of r.status)

-- The counters of the results that pass a test, each counted on its own.
abbrev pub counters_of : (JobResult → Bool) → List JobResult → Counters
counters_of p rs = record {
  total = how_many p rs;
  passed = how_many (λ r. p r && with_status Status.pass r) rs;
  failed = how_many (λ r. p r && with_status Status.fail r) rs;
  skipped = how_many (λ r. p r && with_status Status.skip r) rs;
  slow = how_many (λ r. p r && with_status Status.slow r) rs;
  infra = how_many (λ r. p r && with_status Status.infra r) rs;
  cleanup = how_many (λ r. p r && with_status Status.cleanup r) rs;
}

abbrev pub everyone : JobResult → Bool
everyone r = true

abbrev pub in_slot : Slot → JobResult → Bool
in_slot slot r = is_slot slot (summary_phase r.category)

-- The sum of two sets of counters.
abbrev pub plus : Counters → Counters → Counters
plus a b = record {
  total = a.total + b.total;
  passed = a.passed + b.passed;
  failed = a.failed + b.failed;
  skipped = a.skipped + b.skipped;
  slow = a.slow + b.slow;
  infra = a.infra + b.infra;
  cleanup = a.cleanup + b.cleanup;
}

add_suc : (a b : ℕ) → a + 1 + b ≡ a + suc b
add_suc a b = omega arith

-- The counters of one result more.
abbrev pub one_more : Status → Counters → Counters
one_more s c = record {
  total = suc c.total;
  passed = if is_status Status.pass s then suc c.passed else c.passed;
  failed = if is_status Status.fail s then suc c.failed else c.failed;
  skipped = if is_status Status.skip s then suc c.skipped else c.skipped;
  slow = if is_status Status.slow s then suc c.slow else c.slow;
  infra = if is_status Status.infra s then suc c.infra else c.infra;
  cleanup = if is_status Status.cleanup s then suc c.cleanup else c.cleanup;
}

bump-plus : (s : Status) (c k : Counters) → plus (bump s c) k ≡ plus c (one_more s k)
unfolding bump
bump-plus Status.pass c k = cc (add_suc c.total k.total, add_suc c.passed k.passed)
bump-plus Status.fail c k = cc (add_suc c.total k.total, add_suc c.failed k.failed)
bump-plus Status.skip c k = cc (add_suc c.total k.total, add_suc c.skipped k.skipped)
bump-plus Status.slow c k = cc (add_suc c.total k.total, add_suc c.slow k.slow)
bump-plus Status.infra c k = cc (add_suc c.total k.total, add_suc c.infra k.infra)
bump-plus Status.cleanup c k = cc (add_suc c.total k.total, add_suc c.cleanup k.cleanup)
bump-plus Status.other c k = cc (add_suc c.total k.total)

counters_of-cons :
    (p : JobResult → Bool) (r : JobResult) (rs : List JobResult)
    → p r ≡ true
    → counters_of p (r ∷ rs) ≡ one_more (status_of r.status) (counters_of p rs)
counters_of-cons p r rs h = rw h refl

counters_of-skip :
    (p : JobResult → Bool) (r : JobResult) (rs : List JobResult)
    → p r ≡ false
    → counters_of p (r ∷ rs) ≡ counters_of p rs
counters_of-skip p r rs h = rw h refl

-- Counting a result in, then the rest.
counted_in :
    (p : JobResult → Bool) (r : JobResult) (rs : List JobResult) (c : Counters)
    → p r ≡ true
    → plus (bump (status_of r.status) c) (counters_of p rs) ≡ plus c (counters_of p (r ∷ rs))
counted_in p r rs c h =
    bump-plus (status_of r.status) c (counters_of p rs)
    ∙ ap (λ k. plus c k) (sym (counters_of-cons p r rs h))

left_out :
    (p : JobResult → Bool) (r : JobResult) (rs : List JobResult) (c : Counters)
    → p r ≡ false
    → plus c (counters_of p rs) ≡ plus c (counters_of p (r ∷ rs))
left_out p r rs c h = ap (λ k. plus c k) (sym (counters_of-skip p r rs h))

abbrev phase_plus : PhaseSummary → Counters → PhaseSummary
phase_plus ph k = record ph { counters = plus ph.counters k }

-- The summary that the results add up to, on top of s.
abbrev pub summed : Summary → List JobResult → Summary
summed s rs = record {
  counters = plus s.counters (counters_of everyone rs);
  phase1 = phase_plus s.phase1 (counters_of (in_slot Slot.phase1) rs);
  lifecycle = phase_plus s.lifecycle (counters_of (in_slot Slot.lifecycle) rs);
  object = phase_plus s.object (counters_of (in_slot Slot.object) rs);
}

route-summed :
    (r : JobResult) (rs : List JobResult) (s : Summary) (slot : Slot)
    → summary_phase r.category ≡ slot
    → summed
        (route slot
          (status_of r.status)
          (record s { counters = bump (status_of r.status) s.counters }))
        rs
      ≡ summed s (r ∷ rs)
unfolding route bump_phase
route-summed r rs s Slot.phase1 e = cc (
  counted_in everyone r rs s.counters refl,
  counted_in (in_slot Slot.phase1) r rs s.phase1.counters (rw e refl),
  left_out (in_slot Slot.lifecycle) r rs s.lifecycle.counters (rw e refl),
  left_out (in_slot Slot.object) r rs s.object.counters (rw e refl),
)
route-summed r rs s Slot.lifecycle e = cc (
  counted_in everyone r rs s.counters refl,
  left_out (in_slot Slot.phase1) r rs s.phase1.counters (rw e refl),
  counted_in (in_slot Slot.lifecycle) r rs s.lifecycle.counters (rw e refl),
  left_out (in_slot Slot.object) r rs s.object.counters (rw e refl),
)
route-summed r rs s Slot.object e = cc (
  counted_in everyone r rs s.counters refl,
  left_out (in_slot Slot.phase1) r rs s.phase1.counters (rw e refl),
  left_out (in_slot Slot.lifecycle) r rs s.lifecycle.counters (rw e refl),
  counted_in (in_slot Slot.object) r rs s.object.counters (rw e refl),
)

pub count_results-summed : (rs : List JobResult) (s : Summary) → count_results rs s ≡ summed s rs
unfolding count_results count_result
count_results-summed [] s = simp add-zero
count_results-summed (r ∷ rs) s =
    count_results-summed rs (count_result r s) ∙ route-summed r rs s (summary_phase r.category) refl

-- The same of ComputeSummary, by the phase and the status that the code sorts a result into.
pub compute_summary-slots :
    (rs : List JobResult)
    → let s = compute_summary rs in
      (s.counters ≡ counters_of everyone rs)
      × (s.phase1.counters ≡ counters_of (in_slot Slot.phase1) rs)
      × (s.lifecycle.counters ≡ counters_of (in_slot Slot.lifecycle) rs)
      × (s.object.counters ≡ counters_of (in_slot Slot.object) rs)
unfolding compute_summary
compute_summary-slots rs =
    rw (count_results-summed rs empty_summary) (simp zero-add (refl, refl, refl, refl))
