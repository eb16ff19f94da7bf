-- ===== src/Report/Agent/Failures.antt =====
-- pkg/report/agent.go, BuildAgentSummary: one brief for each failure that the summary counts.
use io_stress.Common.{
  ℕ, suc, ◌+◌, ◌≡◌, refl, sym, ap, subst, Bool-cases, inl, inr, ◌∙◌, Bool, true, false, ◌&&◌,
  String, Option, List, [], ◌∷◌, str_eq, eq_iff, if◌then◌else◌, arith, length,
}
use io_stress.Report.Collector.{JobResult, Counters, Status, status_of}
use io_stress.Report.Collector.Counts.{
  how_many, is_status, with_status, everyone, compute_summary-slots,
}
use io_stress.Report.Agent.{Platform, failing, brief_of, failures_of, build_agent_summary}

-- The results that were counted as failures of one kind or another.
abbrev pub faults : Counters → ℕ
faults c = c.failed + c.infra + c.cleanup

is_fault : Status → Bool
is_fault Status.fail = true
is_fault Status.infra = true
is_fault Status.cleanup = true
is_fault s = false

abbrev Agrees : String → Type 0
Agrees status = failing status ≡ is_fault (status_of status)

-- A status is the literal, or another text.
split_on :
    (status lit : String) → Agrees lit → (str_eq status lit ≡ false → Agrees status) → Agrees status
split_on status lit at off = elim (Bool-cases (str_eq status lit)) [
  | inl e ↦ subst Agrees (sym ((eq_iff status lit).0 e)) at
  | inr e ↦ off e
]

failing-status_of : (status : String) → failing status ≡ is_fault (status_of status)
unfolding status_of is_fault
failing-status_of status = split_on status "pass" refl (λ a. split_on status "fail" refl (λ b.
    split_on status "skip" refl (λ c. split_on status "slow" refl (λ d.
      split_on status "retryable" refl (λ e.
        split_on status "infra-fail" refl
          (λ f. split_on status "cleanup-fail" refl (λ g. rw (a, b, c, d, e, f, g) refl)))))))

abbrev one_fault : Status → ℕ → ℕ → ℕ → ℕ
one_fault s a b c =
    (if is_status Status.fail s then suc a else a)
    + (if is_status Status.infra s then suc b else b)
    + (if is_status Status.cleanup s then suc c else c)

one_fault_lem :
    (s : Status) (n a b c : ℕ)
    → n ≡ a + b + c
    → (if is_fault s then suc n else n) ≡ one_fault s a b c
unfolding is_fault
one_fault_lem Status.pass n a b c e = e
one_fault_lem Status.fail n a b c e = omega arith
one_fault_lem Status.skip n a b c e = e
one_fault_lem Status.slow n a b c e = e
one_fault_lem Status.infra n a b c e = omega arith
one_fault_lem Status.cleanup n a b c e = omega arith
one_fault_lem Status.other n a b c e = e

length_if {ℓ} :
    {A : Type ℓ} (b : Bool) (x : A) (xs : List A)
    → length (if b then x ∷ xs else xs) ≡ (if b then suc (length xs) else length xs)
length_if true x xs = refl
length_if false x xs = refl

module _ (go : Platform) where
  failures_of-count :
      (rs : List JobResult)
      → length (failures_of go rs)
        ≡ how_many (λ r. everyone r && with_status Status.fail r) rs
          + how_many (λ r. everyone r && with_status Status.infra r) rs
          + how_many (λ r. everyone r && with_status Status.cleanup r) rs
  unfolding failures_of
  failures_of-count [] = omega arith
  failures_of-count (r ∷ rs) =
      let rest = failures_of go rs in
      length_if (failing r.status) (brief_of go r) rest
      ∙ ap (λ b. if b then suc (length rest) else length rest) (failing-status_of r.status)
      ∙ one_fault_lem (status_of r.status) (length rest) _ _ _ (failures_of-count rs)

  -- The document has one brief for each result that its summary counts as failed, as an infra
  -- failure or as a cleanup failure; so it has none exactly if the summary counts none.
  pub build_agent_summary-faults :
      (code : ℕ) (dir : String) (rs : List JobResult) (run_err : Option String) (written : Bool)
      → let s = build_agent_summary go code dir rs run_err written in
        length s.failures ≡ faults s.summary.counters
  unfolding build_agent_summary
  build_agent_summary-faults code dir rs run_err written =
      rw ((compute_summary-slots rs).0) (failures_of-count rs)
