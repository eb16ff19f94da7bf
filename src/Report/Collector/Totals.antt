-- ===== src/Report/Collector/Totals.antt =====
-- pkg/report/collector.go, ComputeSummary: the phases add up, and the order of results is forgotten.
use native.Mathlib.Nat.{ℕ_set}
use mathlib.Core.Logic.{∥∥₁_elim}
use mathlib.Core.List.{Perm, Permᴰ}
use io_stress.Common.{
  ℕ, suc, ◌+◌, ◌≤◌, ◌≡◌, refl, sym, ap, ◌∙◌, Bool, true, false, ◌&&◌, List, [], ◌∷◌, if◌then◌else◌,
  arith, length,
}
use io_stress.Report.Collector.{
  JobResult, Counters, Summary, Slot, Status, status_of, summary_phase, compute_summary,
  empty_summary,
}
use io_stress.Report.Collector.Counts.{
  how_many, is_slot, everyone, in_slot, with_status, counters_of, one_more, summed, plus,
  compute_summary-slots, count_results-summed,
}

in_one_slot :
    (s : Slot) (b : Bool) (n x y z : ℕ)
    → n ≡ x + y + z
    → (if b then suc n else n)
      ≡ (if is_slot Slot.phase1 s && b then suc x else x)
        + (if is_slot Slot.lifecycle s && b then suc y else y)
        + (if is_slot Slot.object s && b then suc z else z)
in_one_slot Slot.phase1 false n x y z e = e
in_one_slot Slot.lifecycle false n x y z e = e
in_one_slot Slot.object false n x y z e = e
in_one_slot Slot.phase1 true n x y z e = omega arith
in_one_slot Slot.lifecycle true n x y z e = omega arith
in_one_slot Slot.object true n x y z e = omega arith

how_many-slots :
    (q : JobResult → Bool) (rs : List JobResult)
    → how_many q rs
      ≡ how_many (λ r. in_slot Slot.phase1 r && q r) rs
        + how_many (λ r. in_slot Slot.lifecycle r && q r) rs
        + how_many (λ r. in_slot Slot.object r && q r) rs
how_many-slots q [] = omega arith
how_many-slots q (r ∷ rs) =
    in_one_slot (summary_phase r.category) (q r) _ _ _ _ (how_many-slots q rs)

how_many-everyone : (rs : List JobResult) → how_many everyone rs ≡ length rs
how_many-everyone [] = refl
how_many-everyone (r ∷ rs) = ap suc (how_many-everyone rs)

-- The sum of the six kinds.
abbrev pub kinds : Counters → ℕ
kinds c = c.passed + c.failed + c.skipped + c.slow + c.infra + c.cleanup

kinds-one_more :
    (s : Status) (k : Counters) → kinds k ≤ k.total → kinds (one_more s k) ≤ suc k.total
kinds-one_more Status.pass k h = omega arith
kinds-one_more Status.fail k h = omega arith
kinds-one_more Status.skip k h = omega arith
kinds-one_more Status.slow k h = omega arith
kinds-one_more Status.infra k h = omega arith
kinds-one_more Status.cleanup k h = omega arith
kinds-one_more Status.other k h = omega arith

kinds-counters_of : (rs : List JobResult) → kinds (counters_of everyone rs) ≤ how_many everyone rs
kinds-counters_of [] = omega arith
kinds-counters_of (r ∷ rs) =
    kinds-one_more (status_of r.status) (counters_of everyone rs) (kinds-counters_of rs)

how_many_and_true :
    (p : JobResult → Bool) (rs : List JobResult) → how_many (λ r. p r && true) rs ≡ how_many p rs
how_many_and_true p [] = refl
how_many_and_true p (r ∷ rs) = ground (arith, how_many_and_true p rs)

-- The counters of ComputeSummary are the sums of those of the three phases. The total is the number
-- of results, and at least the sum of the six kinds.
pub compute_summary-sums :
    (rs : List JobResult)
    → let s = compute_summary rs in
      (s.counters ≡ plus (plus s.phase1.counters s.lifecycle.counters) s.object.counters)
      × (s.counters.total ≡ length rs)
      × (kinds s.counters ≤ s.counters.total)
compute_summary-sums rs =
    let (all, one, life, obj) = compute_summary-slots rs in
    rw (all, one, life, obj)
      (
        cc (
          how_many-slots everyone rs,
          how_many_and_true (in_slot Slot.phase1) rs,
          how_many_and_true (in_slot Slot.lifecycle) rs,
          how_many_and_true (in_slot Slot.object) rs,
          how_many-slots (with_status Status.pass) rs,
          how_many-slots (with_status Status.fail) rs,
          how_many-slots (with_status Status.skip) rs,
          how_many-slots (with_status Status.slow) rs,
          how_many-slots (with_status Status.infra) rs,
          how_many-slots (with_status Status.cleanup) rs,
        ),
        how_many-everyone rs,
        kinds-counters_of rs,
      )

how_many-Permᴰ :
    (p : JobResult → Bool) {rs ts : List JobResult} → Permᴰ rs ts → how_many p rs ≡ how_many p ts
how_many-Permᴰ p Permᴰ.nil = refl
how_many-Permᴰ p (Permᴰ.cons e d) = rw (e, how_many-Permᴰ p d) refl
how_many-Permᴰ p (Permᴰ.swap e f) = rw (e, f) (ground arith)
how_many-Permᴰ p (Permᴰ.trans d f) = how_many-Permᴰ p d ∙ how_many-Permᴰ p f

counters_of-Permᴰ :
    (p : JobResult → Bool) {rs ts : List JobResult}
    → Permᴰ rs ts
    → counters_of p rs ≡ counters_of p ts
counters_of-Permᴰ p d = cc (
  how_many-Permᴰ p d,
  how_many-Permᴰ (λ r. p r && with_status Status.pass r) d,
  how_many-Permᴰ (λ r. p r && with_status Status.fail r) d,
  how_many-Permᴰ (λ r. p r && with_status Status.skip r) d,
  how_many-Permᴰ (λ r. p r && with_status Status.slow r) d,
  how_many-Permᴰ (λ r. p r && with_status Status.infra r) d,
  how_many-Permᴰ (λ r. p r && with_status Status.cleanup r) d,
)

summed-Permᴰ :
    {rs ts : List JobResult} → Permᴰ rs ts → summed empty_summary rs ≡ summed empty_summary ts
summed-Permᴰ d = cc (
  counters_of-Permᴰ everyone d,
  counters_of-Permᴰ (in_slot Slot.phase1) d,
  counters_of-Permᴰ (in_slot Slot.lifecycle) d,
  counters_of-Permᴰ (in_slot Slot.object) d,
)

summary_set : IsSet Summary
summary_set = hlevel ℕ_set

-- The order in which the results came in does not matter.
pub compute_summary-Perm :
    {rs ts : List JobResult} → Perm rs ts → compute_summary rs ≡ compute_summary ts
unfolding compute_summary
compute_summary-Perm {rs} {ts} p =
    ∥∥₁_elim p (summary_set (compute_summary rs) (compute_summary ts)) (λ d.
      count_results-summed rs empty_summary
      ∙ summed-Permᴰ d
      ∙ sym (count_results-summed ts empty_summary))
