-- ===== src/Workload/Object.antt =====
-- pkg/workload/object.go: the object workload of the control plane. Here is what a run keeps, and how a
-- result gets into the report. The maps of a result that `record` fills in where they are nil are
-- left out, as are the counts that no part of the control plane reads.
use Prim.Native.String.{◌++◌}
use io_stress.Common.{
  ℕ, Bool, true, false, not, ◌&&◌, ◌||◌, String, List, [], ◌∷◌, Option, none, some, str_eq, ltb,
  ◌==◌, if◌then◌else◌, length,
}
use mathlib.Core.List.{◌++◌ as append}
use io_stress.Common.Int.{ℤ, pos}
use io_stress.Report.Collector.{JobResult}
use io_stress.Worker.Acc.{ObjectResult}
use io_stress.Workload.Finalize.{RunError}
pub mod Pod
pub mod Fails
pub mod Buckets
pub mod Phases
pub mod Provision
pub mod Loop
pub mod Spec
mod Mounted
mod Mounts
mod Cover
mod Claims
mod Tests
mod Exit
mod Kept
mod Accounted

-- bucketBind
pub record BucketBind : Type 0 where
  pub name : String
  pub obc_name : String
  pub object_bucket_name : String
  pub ordinal : ℤ
  pub versioned : Bool
  pub delete_path : String
  pub endpoint : String
  pub region : String
  pub secret : String
  pub capabilities : List (String × String)
  pub probe_detail : List (String × String)

-- waveJob
pub record WaveJob : Type 0 where
  pub worker : ℤ
  pub workers : ℤ
  pub ordinal : ℤ
  pub buckets : List BucketBind

-- objectBackend
pub record ObjectBackend : Type 0 where
  pub name : String
  pub storage_class : String
  pub bucket_class : String
  pub fallback_endpoint : String
  pub report_storage : String

-- report.ObjectResult as a worker's last lines give it
pub record Output : Type 0 where
  pub res : ObjectResult
  pub phase : String
  pub seed : String
  pub worker : ℤ
  pub capabilities : List (String × String)
  pub probe_detail : List (String × String)

-- What the collector gets: the job, with its ObjectOutput beside it.
pub record Entry : Type 0 where
  pub job : JobResult
  pub output : Output

-- objectRun, as far as it changes, and all that is outside of it.
pub record Run (World : Type 0) : Type 0 where
  pub world : World
  pub entries : List Entry
  pub usage_err : Option RunError
  pub buckets : List BucketBind
  pub delete_ran : Bool

abbrev not_empty : String → Bool
not_empty s = not (str_eq s "")

-- objectJobStatus
unfoldable pub object_job_status : ObjectResult → String
object_job_status res =
    if ltb 0 res.objects_fail
      || (ltb 0 (length res.mismatches) || (ltb 0 res.mismatch_more || not_empty res.error))
    then "fail"
    else if not_empty res.skip_reason && res.objects_ok == 0
    then "skip"
    else "pass"

-- The exit code of a status
unfoldable pub exit_of_status : String → ℕ
exit_of_status status =
    if str_eq status "fail"
    then 1
    else if str_eq status "cleanup-fail"
    then 2
    else if str_eq status "infra-fail"
    then 3
    else 0

-- old, or new where old is ""
abbrev pub or_default : String → String → String
or_default old new = if str_eq old "" then new else old

-- What record makes of a result: storage, the run's seed, pod, phase, result, status, duration, error.
unfoldable pub entry : String → String → String → String → Output → String → ℤ → String → Entry
unfolding exit_of_status
entry storage seed pod phase out status dur err_text = record {
  job = record {
    pod = pod;
    job = phase;
    category = "object-" ++ phase;
    storage = storage;
    volume_mode = "Object";
    status = status;
    exit_code = pos (exit_of_status status);
    duration = dur;
    error = or_default err_text out.res.error;
  };
  output = record out { phase = or_default out.phase phase; seed = or_default out.seed seed };
}

-- An output with nothing but what the control plane puts in
abbrev pub made : String → String → String → ℤ → Output
made bucket phase seed worker = record {
  res = record {
    bucket = bucket;
    skip_reason = "";
    objects_ok = 0;
    objects_fail = 0;
    bytes_moved = 0;
    mismatches = [];
    mismatch_more = 0;
    error = "";
  };
  phase = phase;
  seed = seed;
  worker = worker;
  capabilities = [];
  probe_detail = [];
}

-- record: one entry more in the collector
abbrev pub add_entry : {World : Type 0} → Entry → Run World → Run World
add_entry e run = record run { entries = append run.entries (e ∷ []) }

-- A *UsageError around an error
abbrev pub as_usage : RunError → RunError
as_usage e = record e { usage = true }

-- noteUsage: the first one stays.
unfoldable pub note_usage : {World : Type 0} → RunError → Run World → Run World
note_usage err run = record run {
  usage_err = elim run.usage_err [ none ↦ some err | some old ↦ some old ];
}

-- sawUsage
unfoldable pub saw_usage : {World : Type 0} → Run World → Bool
saw_usage run = elim run.usage_err [ none ↦ false | some e ↦ true ]

-- containsPhase
unfoldable pub contains_phase : List String → String → Bool
contains_phase [] name = false
contains_phase (p ∷ phases) name = str_eq p name || contains_phase phases name
