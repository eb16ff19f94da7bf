-- ===== src/Workload/Finalize.antt =====
-- pkg/workload/finalize.go: the exit code of a run, and what it leaves behind. The clock, the log
-- and the bytes on stdout are not modelled; whether report.json could be written is a parameter.
use Prim.Native.String.{◌++◌}
use io_stress.Common.{
  ℕ, Bool, true, false, not, ◌&&◌, ◌||◌, String, Option, none, some, List, [], str_eq, ltb, ◌==◌,
  if◌then◌else◌,
}
use io_stress.Report.Collector.{JobResult, Summary, Counters, compute_summary, omit_volume_phases}
use io_stress.Report.Agent.{
  Platform, AgentSummary, build_agent_summary, exit_pass, exit_jobs_failed, exit_usage,
  exit_cluster, exit_cleanup, exit_infra,
}
pub mod Codes
pub mod Tests

-- The error of a run, by what errors.As finds in its chain.
pub record RunError : Type 0 where
  pub text : String
  pub usage : Bool  -- a *UsageError
  pub cleanup : Bool  -- a *CleanupError

-- ExitError
pub record ExitError : Type 0 where
  pub code : ℕ
  pub err : Option RunError
  pub emitted : Bool

-- finalizeOpts, with Options only as far as ObjectOnly
pub record FinalizeOpts : Type 0 where
  pub write_report : Bool
  pub has_options : Bool
  pub object_only : Bool

abbrev pub plain : String → RunError
plain text = record { text = text; usage = false; cleanup = false }

-- runErr, or an error made up where it is nil
abbrev or_made_up : Option RunError → String → RunError
or_made_up none text = plain text
or_made_up (some e) text = e

pub is_usage : Option RunError → Bool
is_usage none = false
is_usage (some e) = e.usage

pub is_cleanup : Option RunError → Bool
is_cleanup none = false
is_cleanup (some e) = e.cleanup

pub is_error : Option RunError → Bool
is_error none = false
is_error (some e) = true

module _ (go : Platform) (show : ℕ → String) where
  -- The switch of finalize: the exit code, and runErr after it. `show` is `%d`.
  pub exit_of : Counters → Option RunError → ℕ × Option RunError
  unfolding is_usage is_cleanup is_error
  exit_of counts run_err =
      if ltb 0 counts.failed
      then (exit_jobs_failed, some (or_made_up run_err (show counts.failed ++ " job(s) failed")))
      else if ltb 0 counts.infra
      then (
        exit_infra,
        some (or_made_up run_err (show counts.infra ++ " infrastructure failure(s)")),
      )
      else if is_usage run_err
      then (exit_usage, run_err)
      else if ltb 0 counts.cleanup || is_cleanup run_err
      then (exit_cleanup, some (or_made_up run_err (show counts.cleanup ++ " cleanup failure(s)")))
      else if is_error run_err
      then (exit_cluster, run_err)
      else (exit_pass, run_err)

  -- The text that the agent's document gets.
  pub error_text : Option RunError → Option String
  error_text none = none
  error_text (some e) = some e.text

  -- finalize behind the switch. `report_ok` is whether report.WriteJSON succeeds.
  pub conclude :
      String
      → List JobResult
      → FinalizeOpts
      → Bool
      → ℕ × Option RunError
      → Option ExitError × AgentSummary go
  unfolding error_text
  conclude dir results opts report_ok (code, run_err) =
      let written = opts.write_report && not (str_eq dir "") && report_ok in
      let agent = build_agent_summary go code dir results (error_text run_err) written in
      let trimmed = record agent { summary = omit_volume_phases agent.summary } in
      let failure : ExitError = record { code = code; err = run_err; emitted = true } in
      (
        if code == exit_pass then none else some failure,
        if opts.object_only then trimmed else agent,
      )

  -- finalize: what it returns, and the document it emits
  pub finalize :
      String
      → List JobResult
      → Option RunError
      → FinalizeOpts
      → Bool
      → Option ExitError × AgentSummary go
  unfolding exit_of conclude
  finalize dir results run_err opts report_ok =
      conclude dir results opts report_ok (exit_of (compute_summary results).counters run_err)

  -- EmitUsage: the exit code and the document
  emit_usage : Option RunError → ℕ × AgentSummary go
  unfolding error_text
  emit_usage err = (exit_usage, build_agent_summary go exit_usage "" [] (error_text err) false)
