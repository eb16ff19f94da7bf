-- ===== src/Workload/Object/Pod.antt =====
-- pkg/workload/object.go, runPod and runWave: one worker pod, and the pods of a phase together. The
-- worker's specification is an argument (`Spec`), and so is the cluster, as functions of its state.
use Prim.Native.String.{◌++◌, find, len}
use mathlib.Core.List.{◌++◌ as append}
use io_stress.Common.{
  ℕ, Bool, false, not, ◌&&◌, String, List, [], ◌∷◌, Option, none, some, str_eq, leb, ◌⊎◌, inl, inr,
  if◌then◌else◌,
}
use io_stress.Common.Int.{ℤ, sub_ℕ}
use io_stress.Workload.Finalize.{RunError}
use io_stress.Workload.Object.{
  WaveJob, Output, Run, object_job_status, entry, made, add_entry, as_usage, note_usage, saw_usage,
}

-- An error, and whether errors.Is finds context.Canceled in it
pub record Failure : Type 0 where
  pub err : RunError
  pub canceled : Bool

-- What worker.ParseResults returns.
pub data Parsed : Type 0 where
  parsed : List Output → Parsed
  unparsed : String → Parsed

-- The cluster, the clock and the logs of the pods. `Spec` is the job's specification with its mounts.
pub record Cluster : Type 1 where
  pub World : Type 0
  pub Spec : Type 0
  pub Pod : Type 0
  pub now : World → ℕ
  pub ended : World → Option Failure  -- ctx.Err()
  pub cancel : World → World  -- an errgroup's cancel function
  pub job_spec : String → String → WaveJob → Spec ⊎ Failure
  pub pod_name : String → ℤ → ℤ → String  -- role, ordinal, worker
  pub upsert_config_map : String → Spec → World → Option Failure × World
  pub create_worker_pod : String → String → Spec → World → Option Failure × World
  pub wait_pod_finished : String → World → Pod × Option Failure × World
  pub pod_logs : String → World → String × Option Failure × World
  pub pod_infra_reason : Pod → String
  pub parse_results : String → Parsed
  pub delete_pod : String → World → World  -- with its config map
  -- The order in which the goroutines of a wave finish
  pub order : World → List WaveJob → List WaveJob

-- strings.Contains
abbrev pub contains : String → String → Bool
contains s t = leb (find s t) (len s)

-- The status of a result in the report
unfoldable pub status_for : Bool → Output → String
status_for cleanup_fail out =
    if cleanup_fail && str_eq (object_job_status out.res) "fail"
    then "cleanup-fail"
    else object_job_status out.res

abbrev text_before : Option Failure → String → String
text_before none msg = msg
text_before (some f) msg = f.err.text ++ (": " ++ msg)

module _ (k : Cluster) (storage seed : String) where
  open k use {
    World, Spec, Pod, now, ended, cancel, job_spec, pod_name, upsert_config_map, create_worker_pod,
    wait_pod_finished, pod_logs, pod_infra_reason, parse_results, delete_pod, order,
  }

  abbrev pub Ran : Type 0
  Ran = List Output × Option Failure × Run World

  -- time.Since
  abbrev pub since : ℕ → Run World → ℤ
  since start run = sub_ℕ (now run.world) start

  -- A pod without a final result
  abbrev lost : ℕ → String → String → WaveJob → Output → String → Run World → Run World
  lost start pod phase job out text run =
      add_entry (entry storage seed pod phase out "infra-fail" (since start run) text) run

  -- The loop of runPod over the results
  unfoldable pub record_all : Bool → ℕ → String → String → List Output → Run World → Run World
  unfolding status_for entry
  record_all cleanup_fail start pod phase [] run = run
  record_all cleanup_fail start pod phase (out ∷ outs) run =
      record_all cleanup_fail start pod phase outs (
        add_entry
          (entry storage seed pod phase out (status_for cleanup_fail out) (since start run) "") run)

  -- What runPod returns behind the loop
  abbrev pub settled : List Output → Option Failure → Run World → Ran
  settled outs wait_err run = elim (ended run.world) [
    | some e ↦ (outs, some e, run)
    | none ↦ (outs, wait_err, run)
  ]

  -- runPod where parseErr is not nil
  unfoldable pub no_result :
      ℕ → String → String → WaveJob → Option Failure → Option Failure → String → Run World → Ran
  no_result start pod phase job wait_err log_err parse_err run =
      let msg : String = elim log_err [ none ↦ parse_err | some f ↦ f.err.text ] in
      elim (ended run.world) [
        | some e ↦ ([], some e, run)
        | none ↦ (
          [],
          none,
          lost start pod phase job (made "" phase seed job.worker)
              ("worker exited without a final result: " ++ text_before wait_err msg) run,
        )
      ]

  -- runPod from the test of the logs on
  unfoldable pub judge :
      Bool
      → ℕ
      → String
      → String
      → WaveJob
      → Pod
      → Option Failure
      → String
      → Option Failure
      → Run World
      → Ran
  unfolding record_all no_result note_usage
  judge cleanup_fail start pod phase job p wait_err logs log_err run =
      let mismatch : RunError = record {
        text =
            "worker specVersion mismatch on "
            ++ (pod ++ ": the worker image does not match this control plane");
        usage = false;
        cleanup = false;
      } in
      let infra = pod_infra_reason p in
      let blank = made "" phase seed job.worker in
      let infra_out : Output = record blank { res = record blank.res { error = infra } } in
      let of_logs : Ran = elim (parse_results logs) [
        | unparsed e ↦ no_result start pod phase job wait_err log_err e run
        | parsed outs ↦ settled outs wait_err (record_all cleanup_fail start pod phase outs run)
      ] in
      if contains logs "specVersion mismatch"
      then (
        [],
        some (record { err = as_usage mismatch; canceled = false }),
        note_usage mismatch run,
      )
      else if not (str_eq infra "")
      then ([], none, lost start pod phase job infra_out infra run)
      else of_logs

  -- The deferred function: a pod whose logs could not be read stays.
  abbrev pub tidy : String → Option Failure → Ran → Ran
  tidy pod log_err (outs, err, run) = elim log_err [
    | some f ↦ (outs, err, run)
    | none ↦ (outs, err, record run { world = delete_pod pod run.world })
  ]

  -- runPod behind CreateWorkerPod
  unfoldable pub watch : Bool → ℕ → String → String → WaveJob → Run World → Ran
  unfolding judge
  watch cleanup_fail start pod phase job run =
      let (p, wait_err, w1) = wait_pod_finished pod run.world in
      let (logs, log_err, w2) = pod_logs pod w1 in
      tidy pod log_err
        (judge cleanup_fail start pod phase job p wait_err logs log_err (record run { world = w2 }))

  unfoldable pub after_pod :
      Bool → ℕ → String → String → WaveJob → Run World → Option Failure × World → Ran
  unfolding watch
  after_pod cleanup_fail start pod phase job run (some f, w) =
      ([], some f, record run { world = w })
  after_pod cleanup_fail start pod phase job run (none, w) =
      watch cleanup_fail start pod phase job (record run { world = w })

  unfoldable pub after_map :
      Bool → String → String → Spec → WaveJob → Run World → Option Failure × World → Ran
  unfolding after_pod
  after_map cleanup_fail pod phase spec job run (some f, w) = ([], some f, record run { world = w })
  after_map cleanup_fail pod phase spec job run (none, w) =
      after_pod cleanup_fail (now w) pod phase job run (create_worker_pod pod phase spec w)

  -- runPod; json.Marshal does not fail on a specification.
  unfoldable pub run_pod : String → String → Bool → WaveJob → Run World → Ran
  unfolding after_map
  run_pod phase role cleanup_fail job run = elim (job_spec phase role job) [
    | inr f ↦ ([], some f, run)
    | inl spec ↦
        let pod = pod_name role job.ordinal job.worker in
        after_map cleanup_fail pod phase spec job run (upsert_config_map pod spec run.world)
  ]

  -- What a goroutine of runWave returns, where runPod returns err
  unfoldable pub swallowed : Option Failure → Run World → Option Failure
  unfolding saw_usage
  swallowed none run = none
  swallowed (some f) run = if f.canceled && saw_usage run then none else some f

  -- The context of an errgroup is canceled by the first error.
  abbrev pub canceling : Option Failure → Run World → Run World
  canceling none run = run
  canceling (some f) run = record run { world = cancel run.world }

  abbrev pub or_first : Option Failure → Option Failure → Option Failure
  or_first none later = later
  or_first (some f) later = some f

  -- The goroutines, each taken as a whole, in the order in which they finish
  unfoldable pub wave_from : String → String → Bool → List WaveJob → Run World → Ran
  unfolding run_pod swallowed
  wave_from phase role cleanup_fail [] run = ([], none, run)
  wave_from phase role cleanup_fail (job ∷ jobs) run =
      let (outs, got, run1) = run_pod phase role cleanup_fail job run in
      let err = swallowed got run1 in
      let (more, later, run2) = wave_from phase role cleanup_fail jobs (canceling err run1) in
      (append outs more, or_first err later, run2)

  -- What runWave returns behind g.Wait
  unfoldable pub wave_end : Ran → List Output × Option RunError × Run World
  wave_end (outs, err, run) = elim run.usage_err [
    | some u ↦ (outs, some (as_usage u), run)
    | none ↦ (outs, elim err [ none ↦ none | some f ↦ some f.err ], run)
  ]

  -- runWave
  unfoldable pub run_wave :
      String → String → Bool → List WaveJob → Run World → List Output × Option RunError × Run World
  unfolding wave_from wave_end
  run_wave phase role cleanup_fail [] run = ([], none, run)
  run_wave phase role cleanup_fail (job ∷ jobs) run =
      wave_end (wave_from phase role cleanup_fail (order run.world (job ∷ jobs)) run)
