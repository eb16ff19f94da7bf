-- ===== src/Workload/Object/Accounted.antt =====
-- pkg/workload/object.go: no pod of a wave that went well is missing from the report.
use mathlib.Core.List.{Permᴰ}
use io_stress.Common.{
  ℕ, ◌+◌, ◌≤◌, ◌≡◌, refl, sym, ap, ◌∙◌, inl, inr, Bool, false, String, List, [], ◌∷◌, Option, none,
  some, Option-cases, arith,
}
use io_stress.Workload.Object.{WaveJob, Run, as_usage, saw_usage}
use io_stress.Workload.Object.Pod.{
  Failure, Cluster, Ran, canceling, swallowed, or_first, run_pod, wave_from, wave_end, run_wave,
}
use io_stress.Workload.Object.Kept.{one, filed, SomeResult, run_pod-Kept}

-- How many of the jobs have a pod of that name.
abbrev pub pods : Cluster → String → String → List WaveJob → ℕ
pods k role asked [] = 0
pods k role asked (job ∷ jobs) =
    one (k.pod_name role job.ordinal job.worker) asked + pods k role asked jobs

pods-Permᴰ :
    (k : Cluster) (role asked : String) {js is : List WaveJob}
    → Permᴰ js is
    → pods k role asked js ≡ pods k role asked is
pods-Permᴰ k role asked Permᴰ.nil = refl
pods-Permᴰ k role asked (Permᴰ.cons e d) = rw (e, pods-Permᴰ k role asked d) refl
pods-Permᴰ k role asked (Permᴰ.swap e f) = rw (e, f) (omega arith)
pods-Permᴰ k role asked (Permᴰ.trans d f) = pods-Permᴰ k role asked d ∙ pods-Permᴰ k role asked f

module _ (k : Cluster) (storage seed : String) (cleanup_fail : Bool) (some_logs : SomeResult k)
    (asked phase role : String) where
  open k use {World}

  canceling-entries :
      (f : Option Failure) (run : Run World)
      → ((canceling k storage seed f run).entries ≡ run.entries)
        × ((canceling k storage seed f run).usage_err ≡ run.usage_err)
  canceling-entries none run = (refl, refl)
  canceling-entries (some f) run = (refl, refl)

  -- Without a usage error no error is swallowed.
  swallowed-none :
      (got : Option Failure) (run : Run World)
      → run.usage_err ≡ none
      → swallowed k storage seed got run ≡ none
      → got ≡ none
  unfolding swallowed saw_usage
  swallowed-none none run u h = refl
  swallowed-none (some f) run u h =
      absurd (let seen : saw_usage run ≡ false = rw (saw_usage, u) refl in ground (arith, seen, h))

  or_first-none :
      (e later : Option Failure)
      → or_first k storage seed e later ≡ none
      → (e ≡ none) × (later ≡ none)
  or_first-none none later h = (refl, h)
  or_first-none (some e) later h = absurd (cc)

  wave_from-Kept :
      (jobs : List WaveJob) (run : Run World)
      → let r = wave_from k storage seed phase role cleanup_fail jobs run in
        (r.2.usage_err ≡ none → run.usage_err ≡ none)
        × (r.2.usage_err ≡ none
            → r.1 ≡ none
            → filed phase asked run.entries + pods k role asked jobs
              ≤ filed phase asked r.2.entries)
  unfolding wave_from
  wave_from-Kept [] run = (λ z. z, λ z n. omega arith)
  wave_from-Kept (job ∷ jobs) run =
      let (outs, got, run1) = run_pod k storage seed phase role cleanup_fail job run in
      let pod = run_pod-Kept k storage seed cleanup_fail some_logs asked phase role job run in
      let err = swallowed k storage seed got run1 in
      let same = canceling-entries err run1 in
      let rest = wave_from-Kept jobs (canceling k storage seed err run1) in
      (
        λ z. pod.clear (sym same.1 ∙ rest.0 z),
        λ z n.
            let fine = or_first-none err _ n in
            let ran = pod.more (swallowed-none got run1 (sym same.1 ∙ rest.0 z) fine.0) in
            let later = rest.1 z fine.1 in
            let long = ap (λ es. filed phase asked es) same.0 in omega arith,
      )

  wave_end-none :
      (r : Ran k storage seed)
      → (wave_end k storage seed r).1 ≡ none
      → (r.2.usage_err ≡ none)
        × (r.1 ≡ none)
        × ((wave_end k storage seed r).2.entries ≡ r.2.entries)
  unfolding wave_end
  wave_end-none (outs, err, run) h = elim (Option-cases run.usage_err) [
    | inr (u, s) ↦
        let e : (wave_end k storage seed (outs, err, run)).1 ≡ some (as_usage u) =
          rw (wave_end, s) refl in
        absurd (cc)
    | inl n ↦ elim (Option-cases err) [
      | inl m ↦
          let e : (wave_end k storage seed (outs, err, run)).2.entries ≡ run.entries =
            rw (wave_end, n) refl in
          (n, m, e)
      | inr (f, m) ↦
          let e : (wave_end k storage seed (outs, err, run)).1 ≡ some f.err =
            rw (wave_end, n, m) refl in
          absurd (cc)
    ]
  ]

  -- If a wave returns no error, each of its pods has an entry of its own in the report: whatever pod
  -- is asked for, the collector gets at least as many entries of the phase under its name as the wave
  -- has jobs whose pod has that name. The goroutines have to finish in an order that is a permutation
  -- of the jobs, and a worker's logs have to be read as at least one result, or as an error.
  pub run_wave-accounts :
      (jobs : List WaveJob) (run : Run World)
      → ((w : World) (js : List WaveJob) → Permᴰ (k.order w js) js)
      → (run_wave k storage seed phase role cleanup_fail jobs run).1 ≡ none
      → filed phase asked run.entries + pods k role asked jobs
        ≤ filed phase asked (run_wave k storage seed phase role cleanup_fail jobs run).2.entries
  unfolding run_wave
  run_wave-accounts [] run order h = omega arith
  run_wave-accounts (job ∷ jobs) run order h =
      let js = k.order run.world (job ∷ jobs) in
      let (usage, fine, same) = wave_end-none _ h in
      let grown = (wave_from-Kept js run).1 usage fine in
      let all = pods-Permᴰ k role asked (order run.world (job ∷ jobs)) in
      let more = ap (λ es. filed phase asked es) same in omega (arith, grown, all, more)
