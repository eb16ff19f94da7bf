-- ===== src/Workload/Object/Kept.antt =====
-- pkg/workload/object.go, runPod: a pod that went well has an entry of its own in the report.
use io_stress.Common.{
  ℕ, suc, ◌+◌, ◌≤◌, ◌≡◌, ◌≢◌, refl, sym, ◌∙◌, str_eq, str_eq_self, ◌&&◌, ◌++◌, if◌then◌else◌, inl,
  inr, Bool, String, List, [], ◌∷◌, Option, none, some, if_both, Option-cases, arith,
}
use io_stress.Common.Int.{ℤ}
use io_stress.Workload.Finalize.{RunError}
use io_stress.Workload.Object.{WaveJob, Output, Entry, Run, note_usage, add_entry, entry, made}
use io_stress.Workload.Object.Pod.{
  Failure, Cluster, Ran, tidy, Parsed, parsed, unparsed, settled, since, status_for, record_all,
  judge, no_result, watch, after_pod, after_map, run_pod,
}

-- How many entries a phase has from a pod.
abbrev pub filed : String → String → List Entry → ℕ
filed phase pod [] = 0
filed phase pod (e ∷ es) =
    if str_eq e.job.pod pod && str_eq e.job.job phase
    then suc (filed phase pod es)
    else filed phase pod es

filed-append :
    (phase pod : String) (xs ys : List Entry)
    → filed phase pod (xs ++ ys) ≡ filed phase pod xs + filed phase pod ys
filed-append phase pod [] ys = omega arith
filed-append phase pod (x ∷ xs) ys = ground (arith, filed-append phase pod xs ys)

-- One, if a pod is the one that is asked for.
abbrev pub one : String → String → ℕ
one pod asked = if str_eq pod asked then 1 else 0

module _ {World : Type 0} (asked phase pod : String) where
  -- A step for a pod keeps the entries of every pod, adds one of its pod if it returns no error, and
  -- does not lose a usage error. `asked` is the pod whose entries are counted.
  pub record Kept (es : List Entry) (usage : Option RunError)
      (r : List Output × Option Failure × Run World) : Type 0 where
    pub all : filed phase asked es ≤ filed phase asked r.2.entries
    pub more : r.1 ≡ none → filed phase asked es + one pod asked ≤ filed phase asked r.2.entries
    pub clear : r.2.usage_err ≡ none → usage ≡ none

  Kept-none : (run : Run World) (f : Failure) → Kept run.entries run.usage_err ([], some f, run)
  Kept-none run f = record { all = omega arith; more = λ z. absurd (cc); clear = λ z. z }

  add_entry-files :
      (run : Run World) (storage seed : String) (out : Output) (status : String) (dur : ℤ)
      (text : String)
      → filed phase asked (add_entry (entry storage seed pod phase out status dur text) run).entries
        ≡ filed phase asked run.entries + one pod asked
  unfolding entry
  add_entry-files run storage seed out status dur text =
      let e = entry storage seed pod phase out status dur text in
      let added = filed-append phase asked run.entries (e ∷ []) in
      let same = str_eq_self phase in ground (arith, added, same)

  Kept-added :
      (run : Run World) (storage seed : String) (out : Output) (status : String) (dur : ℤ)
      (text : String)
      → Kept run.entries run.usage_err
          ([], none, add_entry (entry storage seed pod phase out status dur text) run)
  Kept-added run storage seed out status dur text =
      let files = add_entry-files run storage seed out status dur text in
      record { all = omega (arith, files); more = λ z. omega (arith, files); clear = λ z. z }

  Kept-usage :
      (run : Run World) (f : Failure) (e : RunError)
      → Kept run.entries run.usage_err ([], some f, note_usage e run)
  unfolding note_usage
  Kept-usage run f e = record {
    all = omega arith;
    more = λ z. absurd (cc);
    clear = λ z. elim (Option-cases run.usage_err) [
      | inl n ↦ n
      | inr (u, s) ↦ absurd (
          let held : note_usage e run ≡ record run { usage_err = some u } =
            rw (note_usage, s) refl in
          cc)
    ];
  }

-- ParseResults returns an error where there is no result.
abbrev pub SomeResult : Cluster → Type 0
SomeResult k = (logs : String) → k.parse_results logs ≢ parsed []

module _ (k : Cluster) (storage seed : String) (cleanup_fail : Bool) (some_logs : SomeResult k)
    (asked phase pod : String) where
  open k use {World, Spec, Pod}

  no_result-Kept :
      (start : ℕ) (job : WaveJob) (wait_err log_err : Option Failure) (e : String) (run : Run World)
      → Kept asked phase pod run.entries run.usage_err
          (no_result k storage seed start pod phase job wait_err log_err e run)
  unfolding no_result
  no_result-Kept start job wait_err log_err e run = elim (Option-cases (k.ended run.world)) [
    | inl n ↦ rw (n, no_result) (Kept-added asked phase pod run storage seed _ _ _ _)
    | inr (f, n) ↦ rw (n, no_result) (Kept-none asked phase pod run f)
  ]

  abbrev recorded : ℕ → Output → Run World → Run World
  recorded start out run =
      add_entry
        (entry storage seed pod phase out (status_for cleanup_fail out)
          (since k storage seed start run) "")
        run

  recorded-files :
      (start : ℕ) (out : Output) (run : Run World)
      → filed phase asked (recorded start out run).entries
        ≡ filed phase asked run.entries + one pod asked
  recorded-files start out run =
      add_entry-files asked phase pod run storage seed out (status_for cleanup_fail out)
        (since k storage seed start run) ""

  record_all-keeps :
      (start : ℕ) (outs : List Output) (run : Run World)
      → filed phase asked run.entries
        ≤ filed phase asked
            (record_all k storage seed cleanup_fail start pod phase outs run).entries
  unfolding record_all
  record_all-keeps start [] run = omega arith
  record_all-keeps start (out ∷ outs) run =
      let rest = record_all-keeps start outs (recorded start out run) in
      omega (arith, rest, recorded-files start out run)

  record_all-usage :
      (start : ℕ) (outs : List Output) (run : Run World)
      → (record_all k storage seed cleanup_fail start pod phase outs run).usage_err ≡ run.usage_err
  unfolding record_all
  record_all-usage start [] run = refl
  record_all-usage start (out ∷ outs) run = record_all-usage start outs (add_entry _ run)

  settled-Kept :
      (run run' : Run World) (outs : List Output) (wait_err : Option Failure)
      → filed phase asked run.entries + one pod asked ≤ filed phase asked run'.entries
      → run'.usage_err ≡ run.usage_err
      → Kept asked phase pod run.entries run.usage_err (settled k storage seed outs wait_err run')
  settled-Kept run run' outs wait_err h u = elim (Option-cases (k.ended run'.world)) [
    | inl n ↦ rw (n, settled) (record { all = omega arith; more = λ z. h; clear = λ z. sym u ∙ z })
    | inr (f, n) ↦
        rw (n, settled) (record { all = omega arith; more = λ z. h; clear = λ z. sym u ∙ z })
  ]

  logs-Kept :
      (start : ℕ) (job : WaveJob) (wait_err log_err : Option Failure) (run : Run World) (p : Parsed)
      → p ≢ parsed []
      → Kept {World = World} asked phase pod run.entries run.usage_err (elim p [
        | unparsed e ↦ no_result k storage seed start pod phase job wait_err log_err e run
        | parsed outs ↦
            settled k storage seed outs wait_err
              (record_all k storage seed cleanup_fail start pod phase outs run)
      ])
  unfolding record_all
  logs-Kept start job wait_err log_err run (unparsed e) real =
      no_result-Kept start job wait_err log_err e run
  logs-Kept start job wait_err log_err run (parsed []) real = absurd (real refl)
  logs-Kept start job wait_err log_err run (parsed (out ∷ outs)) real =
      let first = recorded-files start out run in
      let rest = record_all-keeps start outs (recorded start out run) in
      settled-Kept run _ (out ∷ outs) wait_err (omega (arith, first, rest))
        (record_all-usage start (out ∷ outs) run)

  judge-Kept :
      (start : ℕ) (job : WaveJob) (p : Pod) (wait_err : Option Failure) (logs : String)
      (log_err : Option Failure) (run : Run World)
      → Kept asked phase pod run.entries run.usage_err
          (judge k storage seed cleanup_fail start pod phase job p wait_err logs log_err run)
  unfolding judge
  judge-Kept start job p wait_err logs log_err run =
      let infra = k.pod_infra_reason p in
      let blank = made "" phase seed job.worker in
      let infra_out : Output = record blank { res = record blank.res { error = infra } } in
      if_both (Kept {World = World} asked phase pod run.entries run.usage_err) _
        (Kept-usage asked phase pod run _ _)
        (if_both (Kept {World = World} asked phase pod run.entries run.usage_err) _
          (Kept-added asked phase pod run storage seed infra_out "infra-fail"
            (since k storage seed start run) infra)
          (logs-Kept start job wait_err log_err run (k.parse_results logs) (some_logs logs)))

  tidy-Kept :
      (run : Run World) (log_err : Option Failure) (r : Ran k storage seed)
      → Kept asked phase pod run.entries run.usage_err r
      → Kept asked phase pod run.entries run.usage_err (tidy k storage seed pod log_err r)
  tidy-Kept run none r h = record { all = h.all; more = h.more; clear = h.clear }
  tidy-Kept run (some f) r h = h

  watch-Kept :
      (start : ℕ) (job : WaveJob) (run : Run World)
      → Kept asked phase pod run.entries run.usage_err
          (watch k storage seed cleanup_fail start pod phase job run)
  unfolding watch
  watch-Kept start job run =
      let (p, wait_err, w1) = k.wait_pod_finished pod run.world in
      let (logs, log_err, w2) = k.pod_logs pod w1 in
      tidy-Kept run log_err _
        (judge-Kept start job p wait_err logs log_err (record run { world = w2 }))

  after_pod-Kept :
      (start : ℕ) (job : WaveJob) (run : Run World) (got : Option Failure × World)
      → Kept asked phase pod run.entries run.usage_err
          (after_pod k storage seed cleanup_fail start pod phase job run got)
  unfolding after_pod
  after_pod-Kept start job run (some f, w) = Kept-none asked phase pod (record run { world = w }) f
  after_pod-Kept start job run (none, w) = watch-Kept start job (record run { world = w })

  after_map-Kept :
      (spec : Spec) (job : WaveJob) (run : Run World) (got : Option Failure × World)
      → Kept asked phase pod run.entries run.usage_err
          (after_map k storage seed cleanup_fail pod phase spec job run got)
  unfolding after_map
  after_map-Kept spec job run (some f, w) = Kept-none asked phase pod (record run { world = w }) f
  after_map-Kept spec job run (none, w) = after_pod-Kept _ job run _

module _ (k : Cluster) (storage seed : String) (cleanup_fail : Bool) (some_logs : SomeResult k)
    (asked phase role : String) (job : WaveJob) where
  abbrev name : String
  name = k.pod_name role job.ordinal job.worker

  pub run_pod-Kept :
      (run : Run k.World)
      → Kept asked phase name run.entries run.usage_err
          (run_pod k storage seed phase role cleanup_fail job run)
  unfolding run_pod
  run_pod-Kept run =
      elim (k.job_spec phase role job)
        as (λ x. Kept {World = k.World} asked phase name run.entries run.usage_err (elim x [
          | inr f ↦ ([], some f, run)
          | inl spec ↦
              after_map k storage seed cleanup_fail name phase spec job run
                (k.upsert_config_map name spec run.world)
        ])) [
          | inr f ↦ Kept-none asked phase name run f
          | inl spec ↦
              after_map-Kept k storage seed cleanup_fail some_logs asked phase name spec job run _
        ]
