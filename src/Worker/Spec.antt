-- ===== src/Worker/Spec.antt =====
-- pkg/worker/spec.go, and the helpers of run.go and phases.go that read a spec only. The counts are
-- not negative, as the validation of a configuration makes sure.
use io_stress.Common.{
  ℕ, Bool, true, not, ◌&&◌, String, List, none, some, str_eq, starts_with, if◌then◌else◌, ltb, ◌||◌,
  ◌==◌,
}
use io_stress.Common.Int.{ℤ, pos, ltb_ℤ}
use io_stress.Common.Dict
use io_stress.Common.Dict.{lookup}

-- BucketSpec, without the endpoint and the place of the credentials
pub record BucketSpec : Type 0 where
  pub name : String
  pub ordinal : ℤ
  pub delete_path : String
  pub versioned : Bool
  pub capabilities : List (String × String)
  pub probe_detail : List (String × String)

-- supported, with ProbeResult.Supported
unfoldable pub supported : BucketSpec → String → Bool
unfolding lookup
supported b cap = elim (lookup cap b.capabilities) [
  | none ↦ true
  | some v ↦ not (str_eq v "unsupported") && not (starts_with v "unsupported")
]

-- unsupportedDetail
unfoldable pub unsupported_detail : BucketSpec → String → String
unsupported_detail b cap =
    let state = Dict.get_or cap "" b.capabilities in
    let detail = Dict.get_or cap "" b.probe_detail in
    if not (str_eq detail "")
    then detail
    else if not (str_eq state "")
    then state
    else "unsupported"

-- Spec, as far as the phases read it. `F` is float64.
pub record Spec (F : Type 0) : Type 0 where
  pub phase : String
  pub role : String
  pub worker : ℕ
  pub workers : ℕ
  pub buckets : List BucketSpec
  pub objects_per_bucket : ℕ
  pub key_prefix : List ℕ
  pub key_layout : String
  pub concurrency : ℕ
  pub verify_mode : String
  pub verify_sample_pct : F
  pub range_reads_pct : F
  pub multipart_enabled : Bool
  pub multipart_threshold : ℤ
  pub multipart_part_size : ℤ
  pub abort_cases : ℕ
  pub versions_per_key : ℕ
  pub error_rate_threshold_pct : F
  pub provisioning : String
  pub resume : Bool

-- An int below 1 counts as 1.
abbrev at_least_one : ℕ → ℕ
at_least_one n = if ltb n 1 then 1 else n

module _ {F : Type 0} where
  -- workersOf
  abbrev pub workers_of : Spec F → ℕ
  workers_of spec = at_least_one spec.workers

  -- versionSpan: the count, and the first ordinal or 0
  unfoldable pub version_span : Spec F → BucketSpec → ℕ × ℕ
  version_span spec b =
      if b.versioned && supported b "versioning"
      then (at_least_one spec.versions_per_key, 1)
      else (1, 0)

  -- latestVersion
  unfoldable pub latest_version : Spec F → BucketSpec → ℕ
  unfolding version_span
  latest_version spec b =
      let (count, first) = version_span spec b in if first == 0 then 0 else count

  -- useMultipart
  unfoldable pub use_multipart : Spec F → BucketSpec → ℤ → Bool
  use_multipart spec b size =
      spec.multipart_enabled
      && (ltb_ℤ (pos 0) spec.multipart_part_size
          && (not (ltb_ℤ size spec.multipart_threshold) && supported b "multipart"))

-- skipClient
unfoldable pub skip_client : String → BucketSpec → Bool
skip_client role b =
    str_eq b.delete_path "obc-only"
    && (str_eq role "delete"
        || (str_eq role "delete-keys" || (str_eq role "delete-purge" || str_eq role "assert")))
