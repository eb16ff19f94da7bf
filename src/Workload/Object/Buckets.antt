-- ===== src/Workload/Object/Buckets.antt =====
-- pkg/workload/object.go: the buckets of a run, and the jobs of a wave over them; and BucketName of
-- pkg/objstore/keys.go.
use Prim.Native.String.{◌++◌}
use io_stress.Common.{
  ℕ, zero, suc, ◌+◌, Bool, String, List, [], ◌∷◌, none, some, str_eq, if◌then◌else◌,
}
use io_stress.Common.Int.{ℤ, pos, at_least_zero, ltb_ℤ}
use io_stress.Common.Dict.{lookup, insert}
use io_stress.Objstore.Keys.{versioned, delete_path}
use io_stress.Config.Object.{Texts, ObjectConfig}
use io_stress.Workload.Object.{BucketBind, WaveJob, ObjectBackend, Output, or_default}

-- k8s.BucketBinding, what a bound claim says of its bucket
pub record BucketBinding : Type 0 where
  pub name : String
  pub endpoint : String
  pub region : String
  pub secret_name : String
  pub object_bucket_name : String

-- What a run is configured with. `lower` is strings.ToLower, `pad3` is `%03d`, `quote` is `%q`, and
-- `seed_hex` is `%x` of the seed's first four bytes.
pub record Control : Type 1 where
  pub texts : Texts
  pub obj : ObjectConfig texts
  pub backend : ObjectBackend
  pub prefix : String
  pub namespace : String
  pub no_cleanup : Bool
  pub quote : String → String
  pub lower : String → String
  pub pad3 : ℤ → String
  pub seed_hex : String

module _ (c : Control) where
  open c use {obj, backend, prefix, lower, pad3, seed_hex}

  -- objstore.BucketName of the run's key prefix and seed
  unfoldable pub bucket_name : ℤ → String
  bucket_name ordinal = lower obj.key_prefix ++ ("-" ++ (seed_hex ++ ("-" ++ pad3 ordinal)))

  -- adminSecret
  abbrev pub admin_secret : String
  admin_secret = prefix ++ "-noobaa-admin"

  -- The endpoint of a bucket that provisionS3 makes
  abbrev pub s3_endpoint : String
  s3_endpoint = or_default obj.endpoint backend.fallback_endpoint

  -- The body of provisionS3's loop
  unfoldable pub s3_bucket : ℤ → BucketBind
  unfolding versioned delete_path bucket_name
  s3_bucket ordinal = record {
    name = bucket_name ordinal;
    obc_name = "";
    object_bucket_name = "";
    ordinal = ordinal;
    versioned = versioned ordinal obj.versioned_buckets;
    delete_path = delete_path obj.delete_mode ordinal obj.buckets;
    endpoint = s3_endpoint;
    region = obj.region;
    secret = admin_secret;
    capabilities = [];
    probe_detail = [];
  }

  -- binding
  unfoldable pub binding : ℤ → String → BucketBinding → BucketBind
  unfolding versioned delete_path
  binding ordinal obc_name bind = record {
    name = or_default bind.name obc_name;
    obc_name = obc_name;
    object_bucket_name = bind.object_bucket_name;
    ordinal = ordinal;
    versioned = versioned ordinal obj.versioned_buckets;
    delete_path = delete_path obj.delete_mode ordinal obj.buckets;
    endpoint = or_default (or_default obj.endpoint bind.endpoint) backend.fallback_endpoint;
    region = or_default bind.region obj.region;
    secret = or_default bind.secret_name obc_name;
    capabilities = [];
    probe_detail = [];
  }

-- The ordinals of n buckets from the k-th on
unfoldable pub ordinals_from : ℕ → ℕ → List ℤ
ordinals_from k zero = []
ordinals_from k (suc n) = pos k ∷ ordinals_from (k + 1) n

-- The number of workers: one where fewer are configured
abbrev pub worker_count : ℤ → ℕ
worker_count n = if ltb_ℤ n (pos 1) then 1 else at_least_zero n

-- The jobs of workers k, k + 1, ... of `workers`, n of them
unfoldable pub jobs_from : ℕ → ℕ → ℕ → List BucketBind → List WaveJob
jobs_from workers k zero buckets = []
jobs_from workers k (suc n) buckets =
    record { worker = pos k; workers = pos workers; ordinal = pos 0; buckets = buckets }
    ∷ jobs_from workers (k + 1) n buckets

-- The jobs of a sharded phase: each worker goes over all of the buckets.
unfoldable pub sharded_jobs : ℤ → List BucketBind → List WaveJob
unfolding jobs_from
sharded_jobs n buckets = jobs_from (worker_count n) 0 (worker_count n) buckets

-- The job of perBucket for one bucket
abbrev pub bucket_job : BucketBind → WaveJob
bucket_job b = record { worker = pos 0; workers = pos 1; ordinal = b.ordinal; buckets = b ∷ [] }

-- The buckets whose objects the delete phase deletes, and those whose claim is deleted as it stands
unfoldable pub split_buckets : List BucketBind → List BucketBind × List BucketBind
split_buckets [] = ([], [])
split_buckets (b ∷ bs) =
    let (recursive, kept) = split_buckets bs in
    if str_eq b.delete_path "recursive" then (b ∷ recursive, kept) else (recursive, b ∷ kept)

-- byName in setup: the last result of a bucket
unfoldable pub by_name : List Output → List (String × Output) → List (String × Output)
unfolding insert
by_name [] m = m
by_name (out ∷ outs) m = by_name outs (insert out.res.bucket out m)

-- The loop of setup over the buckets
unfoldable pub with_probe : List (String × Output) → BucketBind → BucketBind
unfolding lookup
with_probe m b = elim (lookup b.name m) [
  | none ↦ b
  | some out ↦ record b { capabilities = out.capabilities; probe_detail = out.probe_detail }
]
