-- ===== src/Workload/Finalize/Tests.antt =====
-- pkg/workload/finalize.go at concrete runs.
use io_stress.Common.{ℕ, ◌≡◌, refl, String, none, true, false, List, [], ◌∷◌, length, str_eq}
use io_stress.Common.Int.{ℤ, pos}
use io_stress.Report.Collector.{JobResult, compute_summary}
use io_stress.Report.Agent.{Platform, build_agent_summary, classify_failure}
use io_stress.Report.Agent.Failures.{faults, build_agent_summary-faults}
use io_stress.Workload.Finalize.{FinalizeOpts, finalize}
use io_stress.Workload.Finalize.Codes.{Means, Told, finalize-Told}

-- Strings without folding, and seconds in milliseconds.
abbrev pub go : Platform
go = record {
  F = ℤ;
  round_seconds = λ d. d;
  to_lower = λ s. s;
  equal_fold = str_eq;
  trim_space = λ s. s;
  join = λ d f. f;
}

abbrev pub show : ℕ → String
show n = "1"

abbrev result : String → String → JobResult
result category status = record {
  pod = "p";
  job = "j";
  category = category;
  storage = "rbd";
  volume_mode = "Block";
  status = status;
  exit_code = pos 1;
  duration = pos 0;
  error = "crc32c: verify failed";
}

abbrev results : List JobResult
results =
    result "object-write" "pass" ∷ result "lifecycle" "cleanup-fail" ∷ result "io" "retryable" ∷ []

abbrev pub opts : FinalizeOpts
opts = record { write_report = true; has_options = false; object_only = false }

finalize-Told_example :
    let (x, doc) = finalize go show "out" results none opts true in
    Means go show (compute_summary results).counters none doc.exit_code × Told go show x doc
finalize-Told_example = finalize-Told go show "out" results none opts true

build_agent_summary-faults_example :
    let s = build_agent_summary go 2 "out" results none true in
    length s.failures ≡ faults s.summary.counters
build_agent_summary-faults_example = build_agent_summary-faults go 2 "out" results none true

harness : classify_failure go "Block" "crc32c: verify failed" ≡ "harness"
unfolding classify_failure
harness = refl
