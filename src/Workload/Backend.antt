-- ===== src/Workload/Backend.antt =====
-- pkg/workload/backend.go, ResolveObjectBackend; EnsureObjectSeed of pkg/workload/object.go; and
-- the endpoints of pkg/objstore/ops.go. What RGW is found by in the cluster is an argument.
use Prim.Native.String.{◌++◌}
use io_stress.Common.{not, ◌||◌, String, str_eq, if◌then◌else◌, ◌⊎◌, inl, inr}
use io_stress.Config.Object.{Texts, ObjectConfig}
use io_stress.Workload.Finalize.{RunError, plain}
use io_stress.Workload.Object.{ObjectBackend}

-- objstore.DefaultEndpoint
unfoldable pub default_endpoint : String → String
default_endpoint namespace =
    "https://s3."
    ++ ((if str_eq namespace "" then "openshift-storage" else namespace) ++ ".svc:443")

-- objstore.EndpointFromHostPort
unfoldable pub endpoint_from_host_port : String → String → String
endpoint_from_host_port host port =
    let scheme = if str_eq port "80" then "http" else "https" in
    if str_eq host ""
    then ""
    else if str_eq port "" || (str_eq port "443" || str_eq port "80")
    then scheme ++ ("://" ++ host)
    else scheme ++ ("://" ++ (host ++ (":" ++ port)))

-- How RGW is found in the cluster, and `%q`.
pub record Discovery : Type 1 where
  pub World : Type 0
  pub storage_class : String → World → (String ⊎ RunError) × World
  pub endpoint : String → World → (String ⊎ RunError) × World
  pub quote : String → String

module _ (go : Texts) where
  -- resolveNooBaa
  unfoldable pub resolve_noobaa : ObjectConfig go → ObjectBackend
  unfolding default_endpoint
  resolve_noobaa obj = record {
    name = "noobaa";
    storage_class = obj.storage_class;
    bucket_class = obj.bucket_class;
    fallback_endpoint = default_endpoint obj.odf_namespace;
    report_storage = "noobaa";
  }

  module _ (d : Discovery) where
    open d use {World}

    -- The backend and the configuration, which resolving changes; or an error
    abbrev pub Resolved : Type 0
    Resolved = ((ObjectBackend × ObjectConfig go) ⊎ RunError) × World

    abbrev rgw : String → String → ObjectConfig go → ObjectBackend × ObjectConfig go
    rgw class fallback obj = (
      record {
        name = "rgw";
        storage_class = class;
        bucket_class = "";
        fallback_endpoint = fallback;
        report_storage = "rgw";
      },
      record obj { bucket_class = "" },
    )

    -- resolveRGW behind the search for an endpoint
    unfoldable pub with_endpoint : String → ObjectConfig go → (String ⊎ RunError) × World → Resolved
    with_endpoint class obj (inr e, w) = (inr e, w)
    with_endpoint class obj (inl fallback, w) = (inl (rgw class fallback obj), w)

    -- ... behind the search for a storage class
    unfoldable pub with_class : ObjectConfig go → (String ⊎ RunError) × World → Resolved
    unfolding with_endpoint
    with_class obj (inr e, w) = (inr e, w)
    with_class obj (inl class, w) =
        let asked = d.endpoint obj.odf_namespace w in
        with_endpoint class obj
          (if str_eq (go.trim_space obj.endpoint) "" then asked else (inl "", w))

    -- resolveRGW: a class that had to be found is written into the configuration.
    unfoldable pub resolve_rgw : ObjectConfig go → World → Resolved
    unfolding with_class
    resolve_rgw obj w =
        let class = go.trim_space obj.storage_class in
        let (got, w1) = d.storage_class obj.odf_namespace w in
        let stored : ObjectConfig go = elim got [
          | inl discovered ↦ record obj { storage_class = discovered }
          | inr e ↦ obj
        ] in
        if str_eq class "" then with_class stored (got, w1) else with_class obj (inl class, w)

    -- ResolveObjectBackend
    unfoldable pub resolve_object_backend : ObjectConfig go → World → Resolved
    unfolding resolve_noobaa resolve_rgw
    resolve_object_backend obj w =
        if not obj.enabled
        then (inr (plain "object workload is not enabled"), w)
        else if str_eq obj.backend "rgw"
        then resolve_rgw obj w
        else if str_eq obj.backend "noobaa" || str_eq obj.backend ""
        then (inl (resolve_noobaa obj, obj), w)
        else (inr (plain ("object backend must be noobaa or rgw, got " ++ d.quote obj.backend)), w)

  -- EnsureObjectSeed; the first argument is the hex text of 32 random bytes, or the error of reading.
  unfoldable pub ensure_object_seed :
      String ⊎ RunError → ObjectConfig go → ObjectConfig go ⊎ RunError
  ensure_object_seed random obj =
      let seeded : ObjectConfig go ⊎ RunError = elim random [
        | inr e ↦ inr (record e { text = "generate object seed: " ++ e.text })
        | inl text ↦ inl (record obj { seed = text })
      ] in
      if not obj.enabled || not (str_eq (go.trim_space obj.seed) "") then inl obj else seeded
