-- ===== src/Config/Profiles.antt =====
-- pkg/config/object_profiles.go: the named shapes of the object workload.
use io_stress.Common.{
  ℕ, ◌*◌, ◌+◌, Bool, true, false, String, Option, none, some, List, [], ◌∷◌, str_eq, if◌then◌else◌,
}
use io_stress.Common.Int.{ℤ, pos}
use io_stress.Config.Object.{
  Texts, SizeWeight, ResourceQty, Resources, Multipart, ObjectConfig, object_phases,
}
mod Kept
mod Tests

-- time.Second and time.Minute
abbrev second : ℕ
second = 1000000000

abbrev minute : ℕ
minute = 60 * second

abbrev part : String → ℕ → SizeWeight
part size weight = record { size = size; weight = pos weight }

module _ (go : Texts) where
  open go use {of_int}

  -- standardObject
  unfoldable pub standard_object : ObjectConfig go
  standard_object = record {
    enabled = false;
    only = false;
    resume = false;
    force = false;
    profile = "standard";
    image = "ghcr.io/paraggit/odf-io-stress:latest";
    backend = "";
    odf_namespace = "";
    noobaa_namespace = "openshift-storage";
    provisioning = "obc";
    storage_class = "openshift-storage.noobaa.io";
    bucket_class = "";
    endpoint = "";
    insecure_tls = false;
    region = "us-east-1";
    buckets = pos 10;
    bucket_create_concurrency = pos 10;
    versioned_buckets = pos 2;
    versions_per_key = pos 3;
    objects_per_bucket = pos 5000;
    key_prefix = "objstress";
    key_layout = "hashed";
    size_mix = part "4KB" 60 ∷ part "1MB" 30 ∷ part "16MB" 10 ∷ [];
    workers = pos 4;
    worker_concurrency = pos 32;
    worker_resources = record {
      requests = record { cpu = "200m"; memory = "256Mi" };
      limits = record { cpu = "2"; memory = "2Gi" };
    };
    multipart = record {
      enabled = true;
      threshold = "16MB";
      part_size = "8MB";
      abort_cases = pos 2;
    };
    verify_mode = "full";
    verify_sample_pct = of_int 1;
    range_reads_pct = of_int 5;
    phases = object_phases;
    delete_mode = "both";
    seed = "";
    op_timeout = pos (60 * second);
    phase_timeout = pos (360 * minute);
    obc_delete_timeout = pos (10 * minute);
    max_retries = pos 5;
    error_rate_threshold_pct = of_int 0;
    capacity_preflight = true;
  }

  pub smoke_object : ObjectConfig go
  unfolding standard_object
  smoke_object = record standard_object {
    profile = "smoke";
    buckets = pos 2;
    bucket_create_concurrency = pos 2;
    versioned_buckets = pos 1;
    objects_per_bucket = pos 500;
    size_mix = part "4KB" 80 ∷ part "1MB" 20 ∷ [];
    workers = pos 2;
    worker_concurrency = pos 8;
    verify_mode = "full";
    multipart = record standard_object.multipart { abort_cases = pos 1 };
  }

  pub scale_object : ObjectConfig go
  unfolding standard_object
  scale_object = record standard_object {
    profile = "scale";
    buckets = pos 50;
    bucket_create_concurrency = pos 10;
    versioned_buckets = pos 2;
    objects_per_bucket = pos 20000;
    size_mix = part "4KB" 70 ∷ part "16KB" 20 ∷ part "64KB" 10 ∷ [];
    workers = pos 16;
    worker_concurrency = pos 64;
    verify_mode = "sample";
    verify_sample_pct = of_int 1;
  }

  large_object : ObjectConfig go
  unfolding standard_object
  large_object = record standard_object {
    profile = "large";
    buckets = pos 4;
    bucket_create_concurrency = pos 4;
    versioned_buckets = pos 1;
    objects_per_bucket = pos 50;
    size_mix = part "100MB" 50 ∷ part "1GB" 40 ∷ part "5GB" 10 ∷ [];
    workers = pos 4;
    worker_concurrency = pos 4;
    verify_mode = "full";
    op_timeout = pos (15 * minute);
  }

  -- objectProfile; it has no error but for `custom` and the unknown names.
  pub object_profile : String → Option (ObjectConfig go)
  unfolding standard_object smoke_object scale_object large_object
  object_profile name =
      if str_eq name "standard"
      then some standard_object
      else if str_eq name "smoke"
      then some smoke_object
      else if str_eq name "scale"
      then some scale_object
      else if str_eq name "large"
      then some large_object
      else none

  -- The profile `next`, with the fields of the run's mode from `obj`.
  pub keep_mode : String → ObjectConfig go → ObjectConfig go → ObjectConfig go
  keep_mode name obj next = record next {
    enabled = obj.enabled;
    only = obj.only;
    resume = obj.resume;
    force = obj.force;
    seed = obj.seed;
    backend = obj.backend;
    profile = name;
  }

  pub expand : String → ObjectConfig go → Option (ObjectConfig go) → Option (ObjectConfig go)
  expand name obj none = none
  expand name obj (some next) = some (keep_mode name obj next)

  -- ApplyObjectProfile; none is its error, which leaves the configuration alone.
  pub apply_object_profile : ObjectConfig go → String → Option (ObjectConfig go)
  unfolding expand
  apply_object_profile obj name =
      if str_eq name "custom"
      then some (record obj { profile = "custom" })
      else expand name obj (object_profile name)
