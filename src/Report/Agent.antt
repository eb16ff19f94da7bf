-- ===== src/Report/Agent.antt =====
-- pkg/report/agent.go: the document an agent reads after a run. Case folding and trimming come from
-- the tables of Go's strings package, and are parameters, as are float64 and filepath.Join.
use Prim.Native.String.{len, find}
use io_stress.Common.{
  ℕ, suc, ◌+◌, Bool, true, false, not, ◌&&◌, ◌||◌, String, Option, none, some, List, [], ◌∷◌,
  str_eq, leb, ◌==◌, if◌then◌else◌,
}
use io_stress.Common.Int.{ℤ}
use io_stress.Report.Collector.{JobResult, Summary, compute_summary}
pub mod Failures

abbrev pub exit_pass : ℕ
exit_pass = 0

abbrev pub exit_jobs_failed : ℕ
exit_jobs_failed = 1

abbrev pub exit_usage : ℕ
exit_usage = 2

abbrev pub exit_cluster : ℕ
exit_cluster = 3

abbrev pub exit_cleanup : ℕ
exit_cleanup = exit_usage

abbrev pub exit_infra : ℕ
exit_infra = exit_cluster

-- What the file takes from other packages.
pub record Platform : Type 1 where
  pub F : Type 0
  pub round_seconds : ℤ → F  -- of a time.Duration
  pub to_lower : String → String
  pub equal_fold : String → String → Bool
  pub trim_space : String → String
  pub join : String → String → String

-- strings.Contains
abbrev contains : String → String → Bool
contains s t = leb (find s t) (len s)

-- The statuses that the loop of BuildAgentSummary does not pass over.
abbrev pub failing : String → Bool
failing status = not (
    not (str_eq status "fail")
    && (not (str_eq status "infra-fail") && not (str_eq status "cleanup-fail")))

module _ (go : Platform) where
  open go use {F, round_seconds, to_lower, equal_fold, trim_space, join}

  pub record FailureBrief : Type 0 where
    pub pod : String
    pub job : String
    pub storage : String
    pub volume_mode : String
    pub exit_code : ℤ
    pub duration_seconds : F
    pub error : String
    pub classification : String

  -- AgentSummary; Options is filled in by the caller.
  pub record AgentSummary : Type 0 where
    pub schema_version : ℕ
    pub status : String
    pub exit_code : ℕ
    pub results_dir : String
    pub report : String
    pub summary : Summary
    pub failures : List FailureBrief
    pub error : String

  -- ClassifyFailure
  unfoldable pub classify_failure : String → String → String
  classify_failure volume_mode err_text =
      let e = to_lower err_text in
      if contains e "bad magic header" || contains e "bad header length"
      then "harness"
      else if contains e "crc32c" && (contains e "verify failed" && equal_fold volume_mode "Block")
      then "harness"
      else if str_eq (trim_space err_text) ""
      then "unknown"
      else "storage"

  -- The class of a failed job, which its status may override.
  pub classified : JobResult → String
  unfolding classify_failure
  classified r =
      if str_eq r.status "infra-fail"
      then "infra"
      else if str_eq r.status "cleanup-fail"
      then "cleanup"
      else classify_failure r.volume_mode r.error

  pub brief_of : JobResult → FailureBrief
  brief_of r = record {
    pod = r.pod;
    job = r.job;
    storage = r.storage;
    volume_mode = r.volume_mode;
    exit_code = r.exit_code;
    duration_seconds = round_seconds r.duration;
    error = r.error;
    classification = classified r;
  }

  pub failures_of : List JobResult → List FailureBrief
  unfolding brief_of
  failures_of [] = []
  failures_of (r ∷ rs) =
      let later = failures_of rs in if failing r.status then brief_of r ∷ later else later

  -- BuildAgentSummary; `run_err` is runErr.Error(), where runErr is not nil.
  unfoldable pub build_agent_summary :
      ℕ → String → List JobResult → Option String → Bool → AgentSummary
  unfolding failures_of
  build_agent_summary code dir results run_err report_written = record {
    schema_version = 1;
    status = if code == exit_pass then "pass" else "fail";
    exit_code = code;
    results_dir = dir;
    report = if report_written && not (str_eq dir "") then join dir "report.json" else "";
    summary = compute_summary results;
    failures = failures_of results;
    error = elim run_err [ none ↦ "" | some text ↦ text ];
  }
