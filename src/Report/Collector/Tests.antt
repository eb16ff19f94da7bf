-- ===== src/Report/Collector/Tests.antt =====
-- pkg/report/collector.go at concrete results.
use mathlib.Core.List.Perm
use io_stress.Common.{◌≤◌, ◌≡◌, refl, String, List, [], ◌∷◌}
use io_stress.Common.Int.{pos}
use io_stress.Report.Collector.{
  JobResult, status_of, summary_phase, compute_summary, count_results, count_result, route, bump,
  bump_phase,
}
use io_stress.Report.Collector.Counts.{plus}
use io_stress.Report.Collector.Counted.{
  counts, any, volume_result, lifecycle_result, object_result, compute_summary-counters,
}
use io_stress.Report.Collector.Totals.{kinds, compute_summary-sums, compute_summary-Perm}

abbrev result : String → String → JobResult
result category status = record {
  pod = "p";
  job = "j";
  category = category;
  storage = "rbd";
  volume_mode = "Block";
  status = status;
  exit_code = pos 0;
  duration = pos 0;
  error = "";
}

abbrev three : List JobResult
three = result "object-write" "pass" ∷ result "lifecycle" "fail" ∷ result "io" "retryable" ∷ []

one_of_each :
    let s = compute_summary three in
    (s.object.counters.passed ≡ 1)
    × (s.lifecycle.counters.failed ≡ 1)
    × (s.phase1.counters.slow ≡ 1)
    × (s.counters.total ≡ 3)
unfolding compute_summary count_results count_result route bump bump_phase status_of summary_phase
one_of_each = (refl, refl, refl, refl)

compute_summary-counters_example :
    let s = compute_summary three in
    (s.counters ≡ counts any three)
    × (s.phase1.counters ≡ counts volume_result three)
    × (s.lifecycle.counters ≡ counts lifecycle_result three)
    × (s.object.counters ≡ counts object_result three)
compute_summary-counters_example = compute_summary-counters three

compute_summary-sums_run :
    let s = compute_summary three in
    (s.counters ≡ plus (plus s.phase1.counters s.lifecycle.counters) s.object.counters)
    × (s.counters.total ≡ 3)
    × (kinds s.counters ≤ s.counters.total)
compute_summary-sums_run = compute_summary-sums three

compute_summary-Perm_run :
    compute_summary (result "a" "fail" ∷ result "b" "pass" ∷ [])
    ≡ compute_summary (result "b" "pass" ∷ result "a" "fail" ∷ [])
compute_summary-Perm_run =
    compute_summary-Perm (Perm.swap (result "b" "pass") (result "a" "fail") [])
