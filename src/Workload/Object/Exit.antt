-- ===== src/Workload/Object/Exit.antt =====
-- pkg/workload/object.go and finalize.go: what a worker's result comes to in the exit code.
use io_stress.Common.{ℕ, ◌<◌, ◌≡◌, refl, ap, Bool, false, String, List, ◌++◌, Option, arith}
use io_stress.Report.Collector.{JobResult, Counters, compute_summary}
use io_stress.Report.Collector.Counts.{compute_summary-slots}
use io_stress.Report.Agent.{Platform}
use io_stress.Workload.Finalize.{RunError, FinalizeOpts, finalize}
use io_stress.Workload.Finalize.Codes.{Means, finalize-Told}
use io_stress.Workload.Object.{WaveJob, Run}
use io_stress.Workload.Object.Pod.{Cluster, run_wave}
use io_stress.Workload.Object.Fails.{fails, fails-append, failures, jobs_of, run_wave-Fair}

module _ (go : Platform) (show : ℕ → String) where
  told_failed :
      (counts : Counters) (run_err : Option RunError) (code : ℕ)
      → 0 < counts.failed
      → Means go show counts run_err code
      → code ≡ 1
  told_failed counts run_err code h (Means.jobs f) = refl
  told_failed counts run_err code h (Means.infra z i) = absurd (omega arith)
  told_failed counts run_err code h (Means.usage z u) = absurd (omega arith)
  told_failed counts run_err code h (Means.leftovers z u l) = absurd (omega arith)
  told_failed counts run_err code h (Means.cluster e z u l s) = absurd (omega arith)
  told_failed counts run_err code h (Means.passed z s) = absurd (omega arith)

  exits_failed :
      (rs : List JobResult) (run_err : Option RunError) (code : ℕ)
      → 0 < fails rs
      → Means go show (compute_summary rs).counters run_err code
      → code ≡ 1
  exits_failed rs run_err code h m =
      let same : (compute_summary rs).counters.failed ≡ fails rs =
        ap (λ c. c.failed) (compute_summary-slots rs).0 in
      told_failed (compute_summary rs).counters run_err code (omega arith) m

  -- If a wave of pods whose failures are not taken for leftovers (that is, of all roles but
  -- delete-bucket) gives back a worker's result that is a failure (a failed object or a mismatch), the
  -- run exits with code 1, whatever the wave returns, whatever else is reported after it, and
  -- whatever error the run ends with.
  pub run_wave-exits :
      (k : Cluster) (storage seed phase role : String) (jobs : List WaveJob) (run : Run k.World)
      (later : List JobResult) (dir : String) (run_err : Option RunError) (opts : FinalizeOpts)
      (ok : Bool)
      → let (outs, err, run') = run_wave k storage seed phase role false jobs run in
        0 < failures outs
        → (finalize go show dir (jobs_of run'.entries ++ later) run_err opts ok).1.exit_code ≡ 1
  run_wave-exits k storage seed phase role jobs run later dir run_err opts ok h =
      let run' : Run k.World = (run_wave k storage seed phase role false jobs run).2 in
      let more = (run_wave-Fair k storage seed phase role jobs run).kept in
      let both = fails-append (jobs_of run'.entries) later in
      exits_failed (jobs_of run'.entries ++ later) run_err _ (omega arith)
        (finalize-Told go show dir (jobs_of run'.entries ++ later) run_err opts ok).0
