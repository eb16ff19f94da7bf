-- ===== src/Workload/Object/Spec.antt =====
-- pkg/workload/object.go, jobSpec, credMounts and workerPodName: what a worker pod is given. A
-- specification is here with all that is written into its config map. fmt's formats, the sizes of
-- config.ParseByteSize and the text of the service CA's path are arguments.
use Prim.Native.String.{◌++◌, len, slice}
use mathlib.Core.List.{◌++◌ as append}
use io_stress.Common.{
  ℕ, Bool, String, List, [], ◌∷◌, map, none, some, leb, if◌then◌else◌, length, ◌⊎◌, inl, inr,
}
use io_stress.Common.Int.{ℤ, pos, eq_ℤ}
use io_stress.Common.Dict.{lookup, insert}
use io_stress.Config.Object.{SizeWeight}
use io_stress.Workload.Finalize.{RunError}
use io_stress.Workload.Object.{BucketBind, WaveJob}
use io_stress.Workload.Object.Buckets.{Control}

-- k8s.CredMount
pub record CredMount : Type 0 where
  pub volume : String
  pub secret : String
  pub mount_path : String

-- credMounts' state: `seen`, the mounts and the directories. A map from int is a function, with "" for
-- a missing key.
pub record Mounts : Type 0 where
  pub seen : List (String × String)
  pub mounts : List CredMount
  pub dirs : ℤ → String

abbrev pub no_mounts : Mounts
no_mounts = record { seen = []; mounts = []; dirs = λ i. "" }

-- dirs[i] = path
abbrev pub set_dir : ℤ → String → (ℤ → String) → ℤ → String
set_dir i path dirs j = if eq_ℤ i j then path else dirs j

module _ (show : ℤ → String) (show_ℕ : ℕ → String) where
  abbrev pub cred_path : ℤ → String
  cred_path ordinal = "/etc/objstress/creds/" ++ show ordinal

  -- The body of credMounts' loop
  unfoldable pub mount_bucket : BucketBind → Mounts → Mounts
  unfolding lookup insert
  mount_bucket b m = elim (lookup b.secret m.seen) [
    | some path ↦ record m { dirs = set_dir b.ordinal path m.dirs }
    | none ↦
        let path = cred_path b.ordinal in
        let mount : CredMount = record {
          volume = "cred-" ++ show_ℕ (length m.mounts);
          secret = b.secret;
          mount_path = path;
        } in
        record {
          seen = insert b.secret path m.seen;
          mounts = append m.mounts (mount ∷ []);
          dirs = set_dir b.ordinal path m.dirs;
        }
  ]

  unfoldable pub mounts_from : List BucketBind → Mounts → Mounts
  unfolding mount_bucket
  mounts_from [] m = m
  mounts_from (b ∷ bs) m = mounts_from bs (mount_bucket b m)

  -- credMounts
  unfoldable pub cred_mounts : List BucketBind → Mounts
  unfolding mounts_from
  cred_mounts buckets = mounts_from buckets no_mounts

-- worker.BucketSpec, as it is written
pub record WorkerBucketSpec : Type 0 where
  pub name : String
  pub ordinal : ℤ
  pub versioned : Bool
  pub delete_path : String
  pub endpoint : String
  pub region : String
  pub cred_dir : String
  pub capabilities : List (String × String)
  pub probe_detail : List (String × String)

abbrev pub worker_bucket : (ℤ → String) → BucketBind → WorkerBucketSpec
worker_bucket dirs b = record {
  name = b.name;
  ordinal = b.ordinal;
  versioned = b.versioned;
  delete_path = b.delete_path;
  endpoint = b.endpoint;
  region = b.region;
  cred_dir = dirs b.ordinal;
  capabilities = b.capabilities;
  probe_detail = b.probe_detail;
}

-- worker.Spec, as it is written
pub record WorkerSpec (F : Type 0) : Type 0 where
  pub spec_version : ℕ
  pub phase : String
  pub role : String
  pub worker : ℤ
  pub workers : ℤ
  pub seed : String
  pub buckets : List WorkerBucketSpec
  pub objects_per_bucket : ℤ
  pub key_prefix : String
  pub key_layout : String
  pub size_mix : List SizeWeight
  pub concurrency : ℤ
  pub verify_mode : String
  pub verify_sample_pct : F
  pub range_reads_pct : F
  pub multipart_enabled : Bool
  pub multipart_threshold : ℤ
  pub multipart_part_size : ℤ
  pub abort_cases : ℤ
  pub op_timeout : ℤ
  pub max_retries : ℤ
  pub insecure_tls : Bool
  pub ca_file : String
  pub versions_per_key : ℤ
  pub error_rate_threshold_pct : F
  pub region : String
  pub provisioning : String
  pub resume : Bool

module _ (c : Control) (show : ℤ → String) (show_ℕ : ℕ → String) where
  open c use {texts, obj, prefix, lower}

  -- The specification for two sizes that ParseByteSize has read; `ca` is the path of the service CA.
  unfoldable pub worker_spec : String → ℤ → ℤ → String → String → WaveJob → WorkerSpec texts.F
  unfolding cred_mounts
  worker_spec ca threshold part phase role job = record {
    spec_version = 1;
    phase = phase;
    role = role;
    worker = job.worker;
    workers = job.workers;
    seed = obj.seed;
    buckets = map (worker_bucket (cred_mounts show show_ℕ job.buckets).dirs) job.buckets;
    objects_per_bucket = obj.objects_per_bucket;
    key_prefix = obj.key_prefix;
    key_layout = obj.key_layout;
    size_mix = obj.size_mix;
    concurrency = obj.worker_concurrency;
    verify_mode = obj.verify_mode;
    verify_sample_pct = obj.verify_sample_pct;
    range_reads_pct = obj.range_reads_pct;
    multipart_enabled = obj.multipart.enabled;
    multipart_threshold = threshold;
    multipart_part_size = part;
    abort_cases = obj.multipart.abort_cases;
    op_timeout = obj.op_timeout;
    max_retries = obj.max_retries;
    insecure_tls = obj.insecure_tls;
    ca_file = if obj.insecure_tls then "" else ca;
    versions_per_key = obj.versions_per_key;
    error_rate_threshold_pct = obj.error_rate_threshold_pct;
    region = obj.region;
    provisioning = obj.provisioning;
    resume = obj.resume;
  }

  -- A size, which only an enabled multipart upload needs; ParseByteSize gives 0 beside an error.
  unfoldable pub needed_size : ℤ ⊎ RunError → ℤ ⊎ RunError
  needed_size (inl n) = inl n
  needed_size (inr e) = if obj.multipart.enabled then inr e else inl (pos 0)

  -- jobSpec; the first two arguments are what ParseByteSize makes of the threshold and the part size.
  unfoldable pub job_spec :
      ℤ ⊎ RunError
      → ℤ ⊎ RunError
      → String
      → String
      → String
      → WaveJob
      → (WorkerSpec texts.F × List CredMount) ⊎ RunError
  unfolding worker_spec needed_size cred_mounts
  job_spec threshold part ca phase role job = elim (needed_size threshold) [
    | inr e ↦ inr e
    | inl t ↦ elim (needed_size part) [
      | inr e ↦ inr e
      | inl p ↦
          inl (worker_spec ca t p phase role job, (cred_mounts show show_ℕ job.buckets).mounts)
    ]
  ]

  -- workerPodName; `trim_dashes` is strings.TrimRight by "-".
  unfoldable pub worker_pod_name : (String → String) → String → ℤ → ℤ → String
  worker_pod_name trim_dashes role ordinal worker =
      let name =
        lower (prefix ++ ("-obj-" ++ (role ++ ("-" ++ (show ordinal ++ ("-" ++ show worker)))))) in
      if leb (len name) 63 then name else trim_dashes (slice name 0 63)
