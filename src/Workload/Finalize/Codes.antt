-- ===== src/Workload/Finalize/Codes.antt =====
-- pkg/workload/finalize.go: what an exit code says of the run.
use io_stress.Common.{
  ℕ, ◌+◌, ◌<◌, ◌≡◌, refl, inl, inr, ◌⊎◌, Bool, true, false, ◌||◌, String, Option, none, some, List,
  ◌==◌, arith, ltb, if_both, dec_lt, lt→ltb, not-lt→ltb, sym, if◌then◌else◌, Bool-cases,
  Option-cases, subst,
}
use io_stress.Report.Collector.{JobResult, Counters, compute_summary}
use io_stress.Report.Agent.{exit_cluster, exit_pass, Platform, AgentSummary, build_agent_summary}
use io_stress.Report.Agent.Failures.{faults}
use io_stress.Workload.Finalize.{
  RunError, ExitError, FinalizeOpts, exit_of, error_text, conclude, finalize, is_usage, is_cleanup,
  is_error,
}

module _ (go : Platform) (show : ℕ → String) where
  -- What each exit code means, by the counts and the run's error.
  pub data Means (counts : Counters) (run_err : Option RunError) : ℕ → Type 0 where
    jobs : 0 < counts.failed → Means counts run_err 1
    infra : counts.failed ≡ 0 → 0 < counts.infra → Means counts run_err 3
    usage : counts.failed + counts.infra ≡ 0 → is_usage run_err ≡ true → Means counts run_err 2
    leftovers :
        counts.failed + counts.infra ≡ 0
        → is_usage run_err ≡ false
        → (0 < counts.cleanup) ⊎ (is_cleanup run_err ≡ true)
        → Means counts run_err 2
    cluster :
        (e : RunError)
        → faults counts ≡ 0
        → is_usage run_err ≡ false
        → is_cleanup run_err ≡ false
        → run_err ≡ some e
        → Means counts run_err 3
    passed : faults counts ≡ 0 → run_err ≡ none → Means counts run_err 0

  exit_of-error :
      (counts : Counters) (run_err : Option RunError) (e : RunError)
      → run_err ≡ some e
      → Means counts run_err 3
      → Means counts run_err
          (if◌then◌else◌ {A = ℕ × Option RunError}
            (is_error run_err)
            (exit_cluster, run_err)
            (exit_pass, run_err)).0
  unfolding is_error
  exit_of-error counts run_err e s m = subst (λ c. Means counts run_err c) (sym (rw s refl)) m

  exit_of-late :
      (counts : Counters) (run_err : Option RunError)
      → counts.failed + counts.infra ≡ 0
      → Means counts run_err (exit_of go show counts run_err).0
  unfolding exit_of is_usage is_cleanup is_error
  exit_of-late counts run_err z =
      rw (not-lt→ltb 0 counts.failed (omega arith), not-lt→ltb 0 counts.infra (omega arith))
        (elim (Bool-cases (is_usage run_err)) [
          | inl u ↦ rw u (usage z u)
          | inr u ↦ rw u (elim (dec_lt 0 counts.cleanup) [
            | yes c ↦ rw (lt→ltb 0 counts.cleanup c) (leftovers z u (inl c))
            | no c ↦ rw (not-lt→ltb 0 counts.cleanup c) (elim (Bool-cases (is_cleanup run_err)) [
              | inl l ↦ rw l (leftovers z u (inr l))
              | inr l ↦ rw l (elim (Option-cases run_err) [
                | inl e ↦ rw e (passed (omega arith) refl)
                | inr (e, s) ↦ exit_of-error counts run_err e s (cluster e (omega arith) u l s)
              ])
            ])
          ])
        ])

  exit_of-Means :
      (counts : Counters) (run_err : Option RunError)
      → Means counts run_err (exit_of go show counts run_err).0
  exit_of-Means counts run_err = elim (dec_lt 0 counts.failed) [
    | yes f ↦ unfold exit_of in (rw (lt→ltb 0 counts.failed f) (jobs f))
    | no f ↦ elim (dec_lt 0 counts.infra) [
      | yes i ↦
          unfold exit_of in
          (rw (not-lt→ltb 0 counts.failed f, lt→ltb 0 counts.infra i) (infra (omega arith) i))
      | no i ↦ exit_of-late counts run_err (omega arith)
    ]
  ]

  -- Exit 0 has no error, and every other code has one.
  abbrev Explained : ℕ × Option RunError → Type 0
  Explained exit =
      ((exit.0 ≡ 0) × (exit.1 ≡ none)) ⊎ ((0 < exit.0) × (e : RunError) × (exit.1 ≡ some e))

  some-Explained : (code : ℕ) (e : RunError) → 0 < code → Explained (code, some e)
  some-Explained code e h = inr (h, e, refl)

  exit_of-Explained :
      (counts : Counters) (run_err : Option RunError) → Explained (exit_of go show counts run_err)
  unfolding exit_of is_usage is_cleanup is_error
  exit_of-Explained counts none =
      if_both Explained (ltb 0 counts.failed) (some-Explained 1 _ (omega arith)) (
        if_both Explained (ltb 0 counts.infra) (some-Explained 3 _ (omega arith)) (
          if_both Explained (ltb 0 counts.cleanup || false) (some-Explained 2 _ (omega arith))
            (inl (refl, refl))))
  exit_of-Explained counts (some e) =
      if_both Explained (ltb 0 counts.failed) (some-Explained 1 e (omega arith)) (
        if_both Explained (ltb 0 counts.infra) (some-Explained 3 e (omega arith)) (
          if_both Explained e.usage (some-Explained 2 e (omega arith)) (
            if_both Explained (ltb 0 counts.cleanup || e.cleanup) (some-Explained 2 e (omega arith))
              (some-Explained 3 e (omega arith)))))

  -- The document tells what was returned.
  abbrev pub Told : Option ExitError → AgentSummary go → Type 0
  Told none doc = (doc.exit_code ≡ 0) × (doc.status ≡ "pass") × (doc.error ≡ "")
  Told (some x) doc =
      (doc.exit_code ≡ x.code)
      × (0 < x.code)
      × (doc.status ≡ "fail")
      × (e : RunError) × (x.err ≡ some e)
      × (doc.error ≡ e.text)

  conclude-Told :
      (dir : String) (results : List JobResult) (opts : FinalizeOpts) (ok : Bool) (code : ℕ)
      (err : Option RunError)
      → Explained (code, err)
      → let (x, doc) = conclude go show dir results opts ok (code, err) in
        (doc.exit_code ≡ code) × Told x doc
  unfolding conclude build_agent_summary error_text
  conclude-Told dir results opts ok code err (inl (z, n)) =
      rw (z, n)
        (if_both (λ doc. (doc.exit_code ≡ 0) × Told none doc) opts.object_only
          (refl, (refl, refl, refl)) (refl, (refl, refl, refl)))
  conclude-Told dir results opts ok code err (inr (p, e, s)) =
      let z : (code == 0) ≡ false = ground arith in
      let x : ExitError = record { code = code; err = some e; emitted = true } in
      rw (s, z)
        (if_both (λ doc. (doc.exit_code ≡ code) × Told (some x) doc) opts.object_only
          (refl, (refl, p, refl, e, refl, refl)) (refl, (refl, p, refl, e, refl, refl)))

  -- The exit code of finalize is 1 if a job failed; else 3 for an infra failure; else 2 for a usage
  -- error, or for leftovers; else 3 for any other error of the run; and 0 if there is none of
  -- these. finalize returns nil exactly with code 0, and the document it emits
  -- has the code, the status and the error of what it returns.
  pub finalize-Told :
      (dir : String) (results : List JobResult) (run_err : Option RunError) (opts : FinalizeOpts)
      (ok : Bool)
      → let (x, doc) = finalize go show dir results run_err opts ok in
        Means (compute_summary results).counters run_err doc.exit_code × Told x doc
  unfolding finalize
  finalize-Told dir results run_err opts ok =
      let counts = (compute_summary results).counters in
      let exit = exit_of go show counts run_err in
      let (code, told) =
        conclude-Told dir results opts ok exit.0 exit.1 (exit_of-Explained counts run_err) in
      (rw code (exit_of-Means counts run_err), told)
