-- ===== src/Workload/Object/Fails.antt =====
-- pkg/workload/object.go: every failed result of a worker becomes a failed job of the report.
use io_stress.Common.{
  ℕ, suc, ◌+◌, ◌≤◌, ◌≡◌, refl, inl, inr, Bool, true, false, String, List, [], ◌∷◌, ◌++◌, Option,
  none, some, if◌then◌else◌, if_both, Bool-cases, Option-cases, arith,
}
use io_stress.Common.Int.{ℤ}
use io_stress.Report.Collector.{JobResult, Status, status_of}
use io_stress.Report.Collector.Counts.{how_many, with_status}
use io_stress.Worker.Run.{is_failure}
use io_stress.Workload.Finalize.{RunError}
use io_stress.Workload.Object.{
  WaveJob, Output, Entry, Run, note_usage, object_job_status, add_entry, entry,
}
use io_stress.Workload.Object.Pod.{
  Failure, Cluster, Ran, tidy, canceling, swallowed, Parsed, parsed, unparsed, settled, since,
  status_for, record_all, judge, no_result, watch, after_pod, after_map, run_pod, wave_from,
  wave_end, run_wave,
}

abbrev failed : JobResult → Bool
failed = with_status Status.fail

-- How many results count as failed jobs.
abbrev pub fails : List JobResult → ℕ
fails rs = how_many failed rs

pub fails-append : (xs ys : List JobResult) → fails (xs ++ ys) ≡ fails xs + fails ys
fails-append [] ys = omega arith
fails-append (x ∷ xs) ys = ground (arith, fails-append xs ys)

-- What the collector holds, as the report counts it.
abbrev pub jobs_of : List Entry → List JobResult
jobs_of [] = []
jobs_of (e ∷ es) = e.job ∷ jobs_of es

fails_after :
    (es : List Entry) (e : Entry)
    → fails (jobs_of (es ++ e ∷ [])) ≡ fails (jobs_of es) + fails (e.job ∷ [])
fails_after [] e = omega arith
fails_after (x ∷ es) e = ground (arith, fails_after es e)

-- How many of a worker's results are failures.
abbrev pub failures : List Output → ℕ
failures [] = 0
failures (out ∷ outs) = if is_failure out.res then suc (failures outs) else failures outs

failures-append : (xs ys : List Output) → failures (xs ++ ys) ≡ failures xs + failures ys
failures-append [] ys = omega arith
failures-append (x ∷ xs) ys = ground (arith, failures-append xs ys)

failure-status : (out : Output) → is_failure out.res ≡ true → status_for false out ≡ "fail"
unfolding is_failure object_job_status status_for
failure-status out h = ground (arith, h)

counted :
    (out : Output) (storage seed pod phase : String) (dur : ℤ)
    → failures (out ∷ [])
      ≤ fails ((entry storage seed pod phase out (status_for false out) dur "").job ∷ [])
unfolding entry status_of
counted out storage seed pod phase dur = elim (Bool-cases (is_failure out.res)) [
  | inl f ↦ rw (f, failure-status out f) (omega arith)
  | inr p ↦ rw p (omega arith)
]

abbrev no_run_error : Option RunError
no_run_error = none

abbrev no_error : Option Failure
no_error = none

module _ {World : Type 0} where
  -- All failures among the results that a step returns are failed jobs that it added.
  pub record Fair {E : Type 0} (es : List Entry) (r : List Output × E × Run World) : Type 0 where
    pub kept : fails (jobs_of es) + failures r.0 ≤ fails (jobs_of r.2.entries)

  Fair-none : {E : Type 0} (run : Run World) (e : E) → Fair run.entries ([], e, run)
  Fair-none run e = record { kept = omega arith }

  Fair-added :
      {E : Type 0} (run : Run World) (x : Entry) (e : E) → Fair run.entries ([], e, add_entry x run)
  Fair-added run x e = record { kept = ground (arith, fails_after run.entries x) }

  Fair-usage :
      (run : Run World) (f : Option Failure) (e : RunError)
      → Fair run.entries ([], f, note_usage e run)
  unfolding note_usage
  Fair-usage run f e = record { kept = omega arith }

module _ (k : Cluster) (storage seed : String) where
  open k use {World, Spec, Pod}

  record_all-fails :
      (start : ℕ) (pod phase : String) (outs : List Output) (run : Run World)
      → fails (jobs_of run.entries) + failures outs
        ≤ fails (jobs_of (record_all k storage seed false start pod phase outs run).entries)
  unfolding record_all
  record_all-fails start pod phase [] run = omega arith
  record_all-fails start pod phase (out ∷ outs) run =
      let status = status_for false out in
      let e = entry storage seed pod phase out status (since k storage seed start run) "" in
      let rest = record_all-fails start pod phase outs (add_entry e run) in
      let here = counted out storage seed pod phase (since k storage seed start run) in
      let added = fails_after run.entries e in ground (arith, rest, here, added)

  no_result-Fair :
      (start : ℕ) (pod phase : String) (job : WaveJob) (wait_err log_err : Option Failure)
      (e : String) (run : Run World)
      → Fair run.entries (no_result k storage seed start pod phase job wait_err log_err e run)
  unfolding no_result
  no_result-Fair start pod phase job wait_err log_err e run =
      elim (Option-cases (k.ended run.world)) [
        | inl n ↦ rw (n, no_result) (Fair-added run _ no_error)
        | inr (f, n) ↦ rw (n, no_result) (Fair-none run (some f))
      ]

  settled-Fair :
      (run run' : Run World) (outs : List Output) (wait_err : Option Failure)
      → fails (jobs_of run.entries) + failures outs ≤ fails (jobs_of run'.entries)
      → Fair run.entries (settled k storage seed outs wait_err run')
  settled-Fair run run' outs wait_err h = elim (Option-cases (k.ended run'.world)) [
    | inl n ↦ rw (n, settled) (record { kept = h })
    | inr (f, n) ↦ rw (n, settled) (record { kept = h })
  ]

  logs-Fair :
      (start : ℕ) (pod phase : String) (job : WaveJob) (wait_err log_err : Option Failure)
      (run : Run World) (p : Parsed)
      → Fair {World = World} {E = Option Failure} run.entries (elim p [
        | unparsed e ↦ no_result k storage seed start pod phase job wait_err log_err e run
        | parsed outs ↦
            settled k storage seed outs wait_err
              (record_all k storage seed false start pod phase outs run)
      ])
  logs-Fair start pod phase job wait_err log_err run (unparsed e) =
      no_result-Fair start pod phase job wait_err log_err e run
  logs-Fair start pod phase job wait_err log_err run (parsed outs) =
      settled-Fair run _ outs wait_err (record_all-fails start pod phase outs run)

  judge-Fair :
      (start : ℕ) (pod phase : String) (job : WaveJob) (p : Pod) (wait_err : Option Failure)
      (logs : String) (log_err : Option Failure) (run : Run World)
      → Fair run.entries
          (judge k storage seed false start pod phase job p wait_err logs log_err run)
  unfolding judge
  judge-Fair start pod phase job p wait_err logs log_err run =
      if_both (Fair {World = World} {E = Option Failure} run.entries) _ (Fair-usage run _ _) (
        if_both (Fair {World = World} {E = Option Failure} run.entries) _
          (Fair-added run _ no_error)
          (logs-Fair start pod phase job wait_err log_err run (k.parse_results logs)))

  tidy-Fair :
      (run : Run World) (pod : String) (log_err : Option Failure) (r : Ran k storage seed)
      → Fair run.entries r
      → Fair run.entries (tidy k storage seed pod log_err r)
  tidy-Fair run pod none r h = record { kept = h.kept }
  tidy-Fair run pod (some f) r h = h

  watch-Fair :
      (start : ℕ) (pod phase : String) (job : WaveJob) (run : Run World)
      → Fair run.entries (watch k storage seed false start pod phase job run)
  unfolding watch
  watch-Fair start pod phase job run =
      let (p, wait_err, w1) = k.wait_pod_finished pod run.world in
      let (logs, log_err, w2) = k.pod_logs pod w1 in
      tidy-Fair run pod log_err _
        (judge-Fair start pod phase job p wait_err logs log_err (record run { world = w2 }))

  after_pod-Fair :
      (start : ℕ) (pod phase : String) (job : WaveJob) (run : Run World)
      (got : Option Failure × World)
      → Fair run.entries (after_pod k storage seed false start pod phase job run got)
  unfolding after_pod
  after_pod-Fair start pod phase job run (some f, w) = Fair-none (record run { world = w }) (some f)
  after_pod-Fair start pod phase job run (none, w) =
      watch-Fair start pod phase job (record run { world = w })

  after_map-Fair :
      (pod phase : String) (spec : Spec) (job : WaveJob) (run : Run World)
      (got : Option Failure × World)
      → Fair run.entries (after_map k storage seed false pod phase spec job run got)
  unfolding after_map
  after_map-Fair pod phase spec job run (some f, w) = Fair-none (record run { world = w }) (some f)
  after_map-Fair pod phase spec job run (none, w) = after_pod-Fair _ pod phase job run _

  run_pod-Fair :
      (phase role : String) (job : WaveJob) (run : Run World)
      → Fair run.entries (run_pod k storage seed phase role false job run)
  unfolding run_pod
  run_pod-Fair phase role job run =
      elim (k.job_spec phase role job)
        as (λ x. Fair {World = World} {E = Option Failure} run.entries (elim x [
          | inr f ↦ ([], some f, run)
          | inl spec ↦
              after_map k storage seed false (k.pod_name role job.ordinal job.worker) phase spec job
                run (k.upsert_config_map (k.pod_name role job.ordinal job.worker) spec run.world)
        ])) [ inr f ↦ Fair-none run (some f) | inl spec ↦ after_map-Fair _ phase spec job run _ ]

  canceling-entries :
      (f : Option Failure) (run : Run World)
      → (canceling k storage seed f run).entries ≡ run.entries
  canceling-entries none run = refl
  canceling-entries (some f) run = refl

  wave_from-Fair :
      (phase role : String) (jobs : List WaveJob) (run : Run World)
      → Fair run.entries (wave_from k storage seed phase role false jobs run)
  unfolding wave_from
  wave_from-Fair phase role [] run = Fair-none run (no_error)
  wave_from-Fair phase role (job ∷ jobs) run =
      let (outs, got, run1) = run_pod k storage seed phase role false job run in
      let pod = run_pod-Fair phase role job run in
      let err = swallowed k storage seed got run1 in
      let next = canceling k storage seed err run1 in
      let (more, later, run2) = wave_from k storage seed phase role false jobs next in
      let rest = wave_from-Fair phase role jobs next in
      let same = canceling-entries err run1 in
      let both = failures-append outs more in
      record { kept = ground (arith, pod.kept, rest.kept, same, both) }

  wave_end-Fair :
      (es : List Entry) (r : Ran k storage seed) → Fair es r → Fair es (wave_end k storage seed r)
  unfolding wave_end
  wave_end-Fair es (outs, err, run) h = elim (Option-cases run.usage_err) [
    | inl n ↦ rw n (record { kept = h.kept })
    | inr (u, n) ↦ rw n (record { kept = h.kept })
  ]

  pub run_wave-Fair :
      (phase role : String) (jobs : List WaveJob) (run : Run World)
      → Fair run.entries (run_wave k storage seed phase role false jobs run)
  unfolding run_wave wave_end
  run_wave-Fair phase role [] run = Fair-none run no_run_error
  run_wave-Fair phase role (job ∷ jobs) run =
      wave_end-Fair run.entries _ (wave_from-Fair phase role (k.order run.world (job ∷ jobs)) run)
