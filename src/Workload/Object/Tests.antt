-- ===== src/Workload/Object/Tests.antt =====
-- pkg/workload/object.go at a small run: two buckets, a worker that finds a mismatch, and goroutines
-- that finish in the order of their start.
use mathlib.Core.List.Permᴰ
use io_stress.Common.{
  ℕ, ◌+◌, ◌≤◌, ◌≡◌, refl, true, false, String, List, [], ◌∷◌, ◌++◌, none, some, leb, arith, inl,
  ◌==◌, if◌then◌else◌,
}
use io_stress.Common.Int.{ℤ, pos, negsuc}
use io_stress.Config.Object.{Texts}
use io_stress.Config.Profiles.{standard_object}
use io_stress.Worker.Run.{is_failure}
use io_stress.Workload.Finalize.{finalize}
use io_stress.Workload.Finalize.Tests.{go, show, opts}
use io_stress.Workload.Object.{BucketBind, WaveJob, ObjectBackend, Output, Run, made}
use io_stress.Workload.Object.Pod.{Cluster, parsed, run_wave}
use io_stress.Workload.Object.Buckets.{BucketBinding, Control}
use io_stress.Workload.Object.Phases.{Access, found}
use io_stress.Workload.Object.Provision.{provision}
use io_stress.Workload.Object.Spec.{worker_pod_name, cred_mounts}
use io_stress.Workload.Object.Fails.{jobs_of}
use io_stress.Workload.Object.Exit.{run_wave-exits}
use io_stress.Workload.Object.Accounted.{pods, run_wave-accounts}
use io_stress.Workload.Object.Kept.{filed}
use io_stress.Workload.Object.Mounted.{mounted, mounted_at}
use io_stress.Workload.Object.Mounts.{cred_mounts-Held}
use io_stress.Workload.Object.Claims.{Bound, provision-Bound}

abbrev texts : Texts
texts = record {
  F = ℕ;
  percent = λ n. leb n 100;
  of_int = λ n. n;
  trim_space = λ s. s;
  is_size = λ s. true;
  is_quantity = λ s. true;
  is_seed = λ s. true;
  key_prefix = λ s. true;
}

abbrev backend : ObjectBackend
backend = record {
  name = "noobaa";
  storage_class = "openshift-storage.noobaa.io";
  bucket_class = "";
  fallback_endpoint = "s3.openshift-storage.svc";
  report_storage = "noobaa";
}

abbrev control : Control
control = record {
  texts = texts;
  obj = record (standard_object texts) { buckets = pos 2; workers = pos 3 };
  backend = backend;
  prefix = "odf-io";
  namespace = "odf-io-stress";
  no_cleanup = false;
  quote = λ s. s;
  lower = λ s. s;
  pad3 = λ z. "001";
  seed_hex = "00112233";
}

-- A worker's result with one failed object
abbrev bad_output : Output
bad_output =
    let blank = made "b" "verify" "" (pos 0) in
    record blank { res = record blank.res { objects_fail = 1 } }

abbrev cluster : Cluster
cluster = record {
  World = ℕ;
  Spec = Unit {0};
  Pod = Unit {0};
  now = λ w. w;
  ended = λ w. none;
  cancel = λ w. w;
  job_spec = λ phase role job. inl tt;
  pod_name = λ role ordinal worker. role;
  upsert_config_map = λ name spec w. (none, w + 1);
  create_worker_pod = λ name phase spec w. (none, w + 1);
  wait_pod_finished = λ name w. (tt, none, w + 1);
  pod_logs = λ name w. ("{}", none, w + 1);
  pod_infra_reason = λ pod. "";
  parse_results = λ logs. parsed (bad_output ∷ []);
  delete_pod = λ name w. w + 1;
  order = λ w jobs. jobs;
}

abbrev bound : BucketBinding
bound = record {
  name = "bucket";
  endpoint = "s3.local";
  region = "";
  secret_name = "";
  object_bucket_name = "obc-bucket";
}

abbrev access : Access
access = record {
  control = control;
  cluster = cluster;
  prepare = λ w. (none, w);
  storage_class_exists = λ class w. (none, w);
  create_obc = λ name class w. (none, w + 1);
  wait_obc_bound = λ name w. (inl bound, w + 1);
  get_obc = λ name w. (found "Bound", w);
  delete_obc = λ name w. (none, w);
  wait_obc_gone = λ name bucket w. (none, w);
  copy_secret = λ name w. (none, w);
  get_secret = λ name w. (found tt, w);
  projected_bytes = inl (pos 1);
  free_bytes = λ w. (some (pos 2), w);
  order_ordinals = λ w is. is;
  show = λ z. "1";
}

abbrev start : Run ℕ
start = record { world = 0; entries = []; usage_err = none; buckets = []; delete_ran = false }

abbrev bind_of : ℤ → String → BucketBind
bind_of ordinal secret = record {
  name = "b";
  obc_name = "b";
  object_bucket_name = "";
  ordinal = ordinal;
  versioned = false;
  delete_path = "recursive";
  endpoint = "";
  region = "";
  secret = secret;
  capabilities = [];
  probe_detail = [];
}

abbrev jobs : List WaveJob
jobs = record { worker = pos 0; workers = pos 1; ordinal = pos 0; buckets = [] } ∷ []

run_wave-exits_example :
    (finalize go show "out"
      (jobs_of (run_wave cluster "noobaa" "00" "verify" "verify" false jobs start).2.entries ++ [])
      none
      opts
      true).1.exit_code
    ≡ 1
unfolding run_wave is_failure
run_wave-exits_example =
    run_wave-exits go show cluster "noobaa" "00" "verify" "verify" jobs start [] "out" none opts
      true (omega arith)

cred_mounts-Held_example :
    let two = bind_of (pos 0) "s" ∷ bind_of (pos 1) "s" ∷ [] in
    let m = cred_mounts (λ z. "0") (λ n. "0") two in
    ((s : String) → mounted s m.mounts ≤ 1) × (mounted_at "s" (m.dirs (pos 0)) m.mounts ≡ 1)
cred_mounts-Held_example =
    cred_mounts-Held (λ z. "0") (λ n. "0") [] (bind_of (pos 0) "s") (bind_of (pos 1) "s" ∷ []) refl

provision-Bound_example :
    Bound access "openshift-storage.noobaa.io" 1 (provision access start).1.buckets
unfolding provision standard_object
provision-Bound_example = provision-Bound access start 1 refl (λ w is i. refl) (omega arith) refl

run_wave-accounts_example :
    filed "verify" "verify" [] + pods cluster "verify" "verify" jobs
    ≤ filed "verify" "verify"
        (run_wave cluster "noobaa" "00" "verify" "verify" true jobs start).2.entries
unfolding run_wave
run_wave-accounts_example =
    run_wave-accounts cluster "noobaa" "00" true (λ logs e. absurd (cc)) "verify" "verify" "verify"
      jobs start (λ w js. Permᴰ.refl js) refl

-- A prefix of 57 bytes, with which the names of all workers of a wave are the same
abbrev long_prefix : Control
long_prefix = record control {
  prefix = "a-team-that-names-its-runs-after-the-cluster-and-the-date";
}

same_pod :
    worker_pod_name long_prefix
      (λ z. elim z [ pos n ↦ if n == 0 then "0" else "1" | negsuc n ↦ "" ])
      (λ n. "0")
      (λ name. name)
      "write"
      (pos 0)
      (pos 0)
    ≡ worker_pod_name long_prefix
        (λ z. elim z [ pos n ↦ if n == 0 then "0" else "1" | negsuc n ↦ "" ])
        (λ n. "0")
        (λ name. name)
        "write"
        (pos 0)
        (pos 1)
unfolding worker_pod_name
same_pod = refl
