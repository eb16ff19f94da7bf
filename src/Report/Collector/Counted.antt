-- ===== src/Report/Collector/Counted.antt =====
-- pkg/report/collector.go, ComputeSummary: its counters by the categories and statuses of the results.
use io_stress.Common.{
  ℕ, ◌≡◌, refl, sym, subst, ◌∙◌, inl, inr, Bool, true, false, not, ◌&&◌, ◌||◌, String, List, [],
  ◌∷◌, arith, str_eq, starts_with, eq_iff, Bool-cases,
}
use io_stress.Report.Collector.{
  JobResult, Counters, Slot, Status, status_of, summary_phase, compute_summary,
}
use io_stress.Report.Collector.Counts.{
  how_many, is_slot, is_status, everyone, in_slot, counters_of, compute_summary-slots,
}

-- How many results pass a test, and how many of those have each status.
abbrev pub counts : (JobResult → Bool) → List JobResult → Counters
counts p rs =
    let having : (String → Bool) → ℕ = λ status. how_many (λ r. p r && status r.status) rs in
    record {
      total = how_many p rs;
      passed = having (λ s. str_eq s "pass");
      failed = having (λ s. str_eq s "fail");
      skipped = having (λ s. str_eq s "skip");
      slow = having (λ s. str_eq s "slow" || str_eq s "retryable");
      infra = having (λ s. str_eq s "infra-fail");
      cleanup = having (λ s. str_eq s "cleanup-fail");
    }

abbrev pub any : JobResult → Bool
any r = true

abbrev pub lifecycle_result : JobResult → Bool
lifecycle_result r = str_eq r.category "lifecycle"

abbrev pub object_result : JobResult → Bool
object_result r = starts_with r.category "object-"

abbrev pub volume_result : JobResult → Bool
volume_result r = not (lifecycle_result r) && not (object_result r)

-- The category `lifecycle` does not have the prefix `object-`.
in_slot-object : (r : JobResult) → in_slot Slot.object r ≡ object_result r
unfolding summary_phase
in_slot-object r = elim (Bool-cases (str_eq r.category "lifecycle")) [
  | inl same ↦
      subst (λ c. is_slot Slot.object (summary_phase c) ≡ starts_with c "object-")
        (sym ((eq_iff r.category "lifecycle").0 same)) refl
  | inr other ↦ rw other (ground arith)
]

in_slot-lifecycle : (r : JobResult) → in_slot Slot.lifecycle r ≡ lifecycle_result r
unfolding summary_phase
in_slot-lifecycle r = ground arith

in_slot-phase1 : (r : JobResult) → in_slot Slot.phase1 r ≡ volume_result r
unfolding summary_phase
in_slot-phase1 r = ground arith

-- The status that the code sorts a result into is the one of its word.
abbrev Told : String → Type 0
Told s =
    (is_status Status.pass (status_of s) ≡ str_eq s "pass")
    × (is_status Status.fail (status_of s) ≡ str_eq s "fail")
    × (is_status Status.skip (status_of s) ≡ str_eq s "skip")
    × (is_status Status.slow (status_of s) ≡ (str_eq s "slow" || str_eq s "retryable"))
    × (is_status Status.infra (status_of s) ≡ str_eq s "infra-fail")
    × (is_status Status.cleanup (status_of s) ≡ str_eq s "cleanup-fail")

-- A word, or another one than this.
by_word : (P : String → Type 0) (s word : String) → P word → (str_eq s word ≡ false → P s) → P s
by_word P s word at other = elim (Bool-cases (str_eq s word)) [
  | inl same ↦ subst P (sym ((eq_iff s word).0 same)) at
  | inr differs ↦ other differs
]

status_of-Told : (s : String) → Told s
unfolding status_of
status_of-Told s =
    by_word Told s "pass" (refl, refl, refl, refl, refl, refl)
      (λ not_pass.
        by_word Told s "fail" (refl, refl, refl, refl, refl, refl)
          (λ not_fail.
            by_word Told s "skip" (refl, refl, refl, refl, refl, refl)
              (λ not_skip.
                by_word Told s "slow" (refl, refl, refl, refl, refl, refl)
                  (λ not_slow.
                    by_word Told s "retryable" (refl, refl, refl, refl, refl, refl)
                      (λ not_retryable.
                        by_word Told s "infra-fail" (refl, refl, refl, refl, refl, refl)
                          (λ not_infra.
                            by_word Told s "cleanup-fail" (refl, refl, refl, refl, refl, refl)
                              (λ not_cleanup.
                                rw
                                  (
                                    not_pass, not_fail, not_skip, not_slow, not_retryable,
                                    not_infra, not_cleanup,
                                  )
                                  (refl, refl, refl, refl, refl, refl))))))))

how_many-same :
    (p q : JobResult → Bool)
    → ((r : JobResult) → p r ≡ q r)
    → (rs : List JobResult) → how_many p rs ≡ how_many q rs
how_many-same p q same [] = refl
how_many-same p q same (r ∷ rs) = rw (same r, how_many-same p q same rs) refl

having-same :
    (p q : JobResult → Bool)
    → ((r : JobResult) → p r ≡ q r)
    → (f g : String → Bool) → ((s : String) → f s ≡ g s)
    → (rs : List JobResult)
    → how_many (λ r. p r && f r.status) rs ≡ how_many (λ r. q r && g r.status) rs
having-same p q same f g told rs =
    how_many-same (λ r. p r && f r.status) (λ r. q r && g r.status)
      (λ r. rw (same r, told r.status) refl) rs

counters_of-counts :
    (p q : JobResult → Bool)
    → ((r : JobResult) → p r ≡ q r)
    → (rs : List JobResult) → counters_of p rs ≡ counts q rs
counters_of-counts p q same rs =
    let having = having-same p q same in
    cc (
      how_many-same p q same rs,
      having (λ s. is_status Status.pass (status_of s)) (λ s. str_eq s "pass")
          (λ s. (status_of-Told s).0) rs,
      having (λ s. is_status Status.fail (status_of s)) (λ s. str_eq s "fail")
          (λ s. (status_of-Told s).1) rs,
      having (λ s. is_status Status.skip (status_of s)) (λ s. str_eq s "skip")
          (λ s. (status_of-Told s).2) rs,
      having (λ s. is_status Status.slow (status_of s))
          (λ s. str_eq s "slow" || str_eq s "retryable") (λ s. (status_of-Told s).3) rs,
      having (λ s. is_status Status.infra (status_of s)) (λ s. str_eq s "infra-fail")
          (λ s. (status_of-Told s).4) rs,
      having (λ s. is_status Status.cleanup (status_of s)) (λ s. str_eq s "cleanup-fail")
          (λ s. (status_of-Told s).5) rs,
    )

-- Every counter of ComputeSummary's result is the number of results with that status, and `total` the
-- number of all, in the whole and in each phase. The statuses are the words `pass`, `fail`, `skip`,
-- `slow` or `retryable`, `infra-fail` and `cleanup-fail`. The lifecycle phase has the results of
-- category `lifecycle`, the object phase those whose category begins with `object-`, and phase 1 all
-- others.
pub compute_summary-counters :
    (rs : List JobResult)
    → let s = compute_summary rs in
      (s.counters ≡ counts any rs)
      × (s.phase1.counters ≡ counts volume_result rs)
      × (s.lifecycle.counters ≡ counts lifecycle_result rs)
      × (s.object.counters ≡ counts object_result rs)
compute_summary-counters rs =
    let (all, one, life, obj) = compute_summary-slots rs in
    (
      all ∙ counters_of-counts everyone any (λ r. refl) rs,
      one ∙ counters_of-counts (in_slot Slot.phase1) volume_result in_slot-phase1 rs,
      life ∙ counters_of-counts (in_slot Slot.lifecycle) lifecycle_result in_slot-lifecycle rs,
      obj ∙ counters_of-counts (in_slot Slot.object) object_result in_slot-object rs,
    )
