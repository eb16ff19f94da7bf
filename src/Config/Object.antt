-- ===== src/Config/Object.antt =====
-- pkg/config/object.go: the object workload's configuration and its validation. strings.TrimSpace,
-- ParseByteSize, the quantities of Kubernetes and the percentages (float64) are parameters. The
-- texts of the errors are not modelled: each check has a constructor.
use Prim.Native.String.{len}
use io_stress.Common.{
  ℕ, zero, suc, ◌+◌, ◌-◌, ◌*◌, Bool, true, false, not, ◌&&◌, ◌||◌, String, Option, none, some, List,
  [], ◌∷◌, str_eq, ltb, ◌==◌, if◌then◌else◌,
}
use io_stress.Common.Int.{ℤ, pos, negsuc, ltb_ℤ}
pub mod Checks
pub mod Phases

pub record SizeWeight : Type 0 where
  pub size : String
  pub weight : ℤ

pub record ResourceQty : Type 0 where
  pub cpu : String
  pub memory : String

pub record Resources : Type 0 where
  pub requests : ResourceQty
  pub limits : ResourceQty

pub record Multipart : Type 0 where
  pub enabled : Bool
  pub threshold : String
  pub part_size : String
  pub abort_cases : ℤ

-- What the file takes from other packages.
pub record Texts : Type 1 where
  pub F : Type 0
  pub percent : F → Bool  -- between 0 and 100
  pub of_int : ℕ → F
  pub trim_space : String → String
  pub is_size : String → Bool  -- ParseByteSize succeeds
  pub is_quantity : String → Bool  -- resource.ParseQuantity succeeds
  pub is_seed : String → Bool  -- validateSeedHex succeeds
  pub key_prefix : String → Bool  -- validKeyPrefix

-- ObjectPhases
abbrev pub object_phases : List String
object_phases =
    "create" ∷ "write" ∷ "read" ∷ "verify" ∷ "list" ∷ "copy" ∷ "delete" ∷ "teardown" ∷ []

-- for _, known := range list { if p == known { return true } }
unfoldable pub listed : String → List String → Bool
listed p [] = false
listed p (known ∷ more) = str_eq p known || listed p more

-- knownPhase
abbrev pub known_phase : String → Bool
known_phase p = listed p object_phases

pub data PhaseError : Type 0 where
  unknown_phase : String → PhaseError
  no_phases : PhaseError

-- What OrderedPhases returns.
pub data Ordered : Type 0 where
  ordered : List String → Ordered
  refused : PhaseError → Ordered

-- The phases of `all` that are wanted, in the order of `all`.
unfoldable pub pick : List String → List String → List String
unfolding listed
pick [] want = []
pick (p ∷ all) want = let later = pick all want in if listed p want then p ∷ later else later

-- The selected phases that are wanted, or the first unknown one.
pub data Wanted : Type 0 where
  wanted : List String → Wanted
  unknown : String → Wanted

abbrev pub also : String → Wanted → Wanted
also p (wanted more) = wanted (p ∷ more)
also p (unknown q) = unknown q

-- The body of OrderedPhases' loop, on a trimmed name and what the later ones come to.
unfoldable pub want_step : String → Wanted → Wanted
want_step p rest =
    if str_eq p "" then rest else if not (known_phase p) then unknown p else also p rest

module _ (go : Texts) where
  open go use {F, percent, trim_space, is_size, is_quantity, is_seed, key_prefix}

  unfoldable pub want_of : List String → Wanted
  unfolding want_step
  want_of [] = wanted []
  want_of (p ∷ more) = want_step (trim_space p) (want_of more)

  unfoldable pub ordered_of : Wanted → Ordered
  unfolding pick
  ordered_of (unknown p) = refused (unknown_phase p)
  ordered_of (wanted []) = refused no_phases
  ordered_of (wanted (p ∷ ps)) = ordered (pick object_phases (p ∷ ps))

  -- OrderedPhases
  unfoldable pub ordered_phases : List String → Ordered
  unfolding want_of ordered_of
  ordered_phases [] = ordered object_phases
  ordered_phases (p ∷ ps) = ordered_of (want_of (p ∷ ps))

  -- type Object
  pub record ObjectConfig : Type 0 where
    pub enabled : Bool
    pub only : Bool
    pub resume : Bool
    pub force : Bool
    pub profile : String
    pub image : String
    pub backend : String
    pub odf_namespace : String
    pub noobaa_namespace : String
    pub provisioning : String
    pub storage_class : String
    pub bucket_class : String
    pub endpoint : String
    pub insecure_tls : Bool
    pub region : String
    pub buckets : ℤ
    pub bucket_create_concurrency : ℤ
    pub versioned_buckets : ℤ
    pub versions_per_key : ℤ
    pub objects_per_bucket : ℤ
    pub key_prefix : String
    pub key_layout : String
    pub size_mix : List SizeWeight
    pub workers : ℤ
    pub worker_concurrency : ℤ
    pub worker_resources : Resources
    pub multipart : Multipart
    pub verify_mode : String
    pub verify_sample_pct : F
    pub range_reads_pct : F
    pub phases : List String
    pub delete_mode : String
    pub seed : String
    pub op_timeout : ℤ
    pub phase_timeout : ℤ
    pub obc_delete_timeout : ℤ
    pub max_retries : ℤ
    pub error_rate_threshold_pct : F
    pub capacity_preflight : Bool

  -- HasPhase
  has_phase : ObjectConfig → String → Bool
  unfolding listed
  has_phase o name = listed name o.phases

  -- NormalizeObjectBackend
  normalize : ObjectConfig → ObjectConfig
  normalize o0 =
      let o1 = record o0 {
        odf_namespace =
            if str_eq (trim_space o0.odf_namespace) ""
            then o0.noobaa_namespace
            else o0.odf_namespace;
      } in
      let o2 = record o1 {
        backend = if str_eq (trim_space o1.backend) "" then "noobaa" else o1.backend;
      } in
      record o2 {
        storage_class =
            if str_eq o2.backend "rgw" && str_eq o2.storage_class "openshift-storage.noobaa.io"
            then ""
            else o2.storage_class;
      }

-- The checks of validateObject, in its order.
pub data Complaint : Type 0 where
  resume_without_only resume_without_seed : Complaint
  bad_backend rgw_with_s3 no_image few_workers few_concurrent few_buckets few_creates : Complaint
  few_objects bad_versioned few_versions bad_retries bad_threshold bad_sample bad_ranges : Complaint
  bad_verify_mode bad_delete_mode bad_provisioning bad_layout no_storage_class : Complaint
  namespace_conflict no_namespace bad_prefix no_sizes bad_weight bad_size bad_phases : Complaint
  bad_op_timeout bad_phase_timeout bad_obc_timeout bad_seed no_region bad_threshold_size : Complaint
  bad_part_size bad_abort_cases no_quantity bad_quantity : Complaint

-- One `if` after the other, each with its return.
unfoldable pub first_of : List (Bool × Complaint) → Option Complaint
first_of [] = none
first_of ((failed, c) ∷ checks) = let later = first_of checks in if failed then some c else later

abbrev pub below : ℤ → ℕ → Bool
below z n = ltb_ℤ z (pos n)

module _ (go : Texts) where
  open go use {F, percent, trim_space, is_size, is_quantity, is_seed, key_prefix}

  -- The loop over the size mix.
  unfoldable pub size_checks : List SizeWeight → List (Bool × Complaint)
  size_checks [] = []
  size_checks (sw ∷ mix) =
      (below sw.weight 1, bad_weight) ∷ (not (is_size sw.size), bad_size) ∷ size_checks mix

  unfoldable pub quantity_checks : List String → List (Bool × Complaint)
  quantity_checks [] = []
  quantity_checks (q ∷ qs) =
      (str_eq q "", no_quantity) ∷ (not (is_quantity q), bad_quantity) ∷ quantity_checks qs

  abbrev pub refuses : Ordered → Bool
  refuses (ordered ps) = false
  refuses (refused e) = true

  -- The checks of an enabled workload up to the key prefix.
  abbrev pub shape_checks : ObjectConfig go → List (Bool × Complaint)
  shape_checks o =
      (not (listed o.backend ("noobaa" ∷ "rgw" ∷ [])), bad_backend)
      ∷ (str_eq o.backend "rgw" && str_eq o.provisioning "s3", rgw_with_s3)
      ∷ (str_eq (trim_space o.image) "", no_image)
      ∷ (below o.workers 1, few_workers)
      ∷ (below o.worker_concurrency 1, few_concurrent)
      ∷ (below o.buckets 1, few_buckets)
      ∷ (below o.bucket_create_concurrency 1, few_creates)
      ∷ (below o.objects_per_bucket 1, few_objects)
      ∷ (below o.versioned_buckets 0 || ltb_ℤ o.buckets o.versioned_buckets, bad_versioned)
      ∷ (below o.versions_per_key 1, few_versions)
      ∷ (below o.max_retries 0, bad_retries)
      ∷ (not (percent o.error_rate_threshold_pct), bad_threshold)
      ∷ (not (percent o.verify_sample_pct), bad_sample)
      ∷ (not (percent o.range_reads_pct), bad_ranges)
      ∷ (not (listed o.verify_mode ("full" ∷ "etag" ∷ "sample" ∷ [])), bad_verify_mode)
      ∷ (not (listed o.delete_mode ("recursive" ∷ "obc-only" ∷ "both" ∷ [])), bad_delete_mode)
      ∷ (not (listed o.provisioning ("obc" ∷ "s3" ∷ [])), bad_provisioning)
      ∷ (not (listed o.key_layout ("hashed" ∷ "flat" ∷ "deep" ∷ [])), bad_layout)
      ∷ (
        str_eq o.provisioning "obc"
            && (str_eq (trim_space o.storage_class) "" && not (str_eq o.backend "rgw")),
        no_storage_class,
      )
      ∷ (
        not (str_eq (trim_space o.noobaa_namespace) "")
            && (not (str_eq (trim_space o.odf_namespace) "")
                && not (str_eq (trim_space o.noobaa_namespace) (trim_space o.odf_namespace))),
        namespace_conflict,
      )
      ∷ (str_eq (trim_space o.odf_namespace) "", no_namespace)
      ∷ (not (key_prefix o.key_prefix), bad_prefix)
      ∷ []

  abbrev is_empty : List SizeWeight → Bool
  is_empty [] = true
  is_empty (sw ∷ mix) = false

  -- The checks behind the size mix.
  unfoldable pub late_checks : ObjectConfig go → List (Bool × Complaint)
  unfolding ordered_phases
  late_checks o =
      (refuses (ordered_phases go o.phases), bad_phases)
      ∷ (below o.op_timeout 1, bad_op_timeout)
      ∷ (below o.phase_timeout 1, bad_phase_timeout)
      ∷ (below o.obc_delete_timeout 1, bad_obc_timeout)
      ∷ (not (str_eq (trim_space o.seed) "") && not (is_seed o.seed), bad_seed)
      ∷ (str_eq o.region "", no_region)
      ∷ (o.multipart.enabled && not (is_size o.multipart.threshold), bad_threshold_size)
      ∷ (o.multipart.enabled && not (is_size o.multipart.part_size), bad_part_size)
      ∷ (o.multipart.enabled && below o.multipart.abort_cases 0, bad_abort_cases)
      ∷ quantity_checks (
          o.worker_resources.requests.cpu ∷ o.worker_resources.requests.memory
          ∷ o.worker_resources.limits.cpu ∷ o.worker_resources.limits.memory ∷ [])

  abbrev pub or_else : Option Complaint → Option Complaint → Option Complaint
  or_else none later = later
  or_else (some c) later = some c

  abbrev pub resume_checks : ObjectConfig go → List (Bool × Complaint)
  resume_checks o =
      (o.resume && not o.only, resume_without_only)
      ∷ (o.resume && str_eq (trim_space o.seed) "", resume_without_seed)
      ∷ []

  abbrev pub mix_checks : ObjectConfig go → List (Bool × Complaint)
  mix_checks o = (is_empty o.size_mix, no_sizes) ∷ size_checks o.size_mix

  -- validateObject behind the test for an enabled workload
  unfoldable pub validate_enabled : ObjectConfig go → Option Complaint
  validate_enabled o =
      or_else (first_of (shape_checks o))
        (or_else (first_of (mix_checks o)) (first_of (late_checks o)))

  -- validateObject, on the normalized configuration
  unfoldable pub validate_normal : ObjectConfig go → Option Complaint
  unfolding validate_enabled
  validate_normal o =
      or_else (first_of (resume_checks o)) (if o.enabled then validate_enabled o else none)

  -- validateObject
  validate_object : ObjectConfig go → Option Complaint × ObjectConfig go
  unfolding normalize validate_normal
  validate_object o0 = let o = normalize go o0 in (validate_normal o, o)
