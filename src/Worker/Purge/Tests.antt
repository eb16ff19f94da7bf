-- ===== src/Worker/Purge/Tests.antt =====
-- The deletions of pkg/worker/phases.go on a server that is the list of its versions.
use io_stress.Common.{
  ℕ, zero, suc, ◌≡◌, refl, ap, true, false, none, String, List, [], ◌∷◌, map, arith, length, take,
  drop, replicate, length-replicate, ltb, not-lt→ltb,
}
use io_stress.Common.Int.{pos}
use io_stress.Common.Dict.{lookup}
use io_stress.Worker.Acc.{new_acc, ok, fail}
use io_stress.Objstore.Calls.{VersionInfo, Client, good}
use io_stress.Worker.Spec.{BucketSpec, supported}
use io_stress.Worker.Purge.{made_up, purge_bucket, assert_bucket}
use io_stress.Worker.Purge.Pages.{Store}
use io_stress.Worker.Purge.Passes.{
  Capable, purge_bucket-clears, purge_bucket-overflows, assert_bucket-empty, assert_bucket-held,
}

abbrev show : ℕ → String
show n = "0"

-- A batch takes as many versions from the front as it has ids; a listing of objects shows one as
-- long as there is any version.
abbrev list_server : Client
list_server = record {
  Server = List VersionInfo;
  list_objects = λ prefix token s. (
    good (record { objects = map (λ v. v.id.key) (take 1 s); next_token = ""; truncated = false }),
    s,
  );
  list_versions = λ prefix k v s. (
    good (record {
      versions = take 1000 s;
      next_key = "";
      next_ver = "";
      truncated = ltb 1000 (length s);
    }),
    s,
  );
  delete_keys = λ ids s. (good [], drop (length ids) s);
  delete_object = λ id s. (none, drop 1 s);
}

taken : (n : ℕ) (vs : List VersionInfo) → drop (length (map (λ v. v.id) (take n vs))) vs ≡ drop n vs
taken zero vs = refl
taken (suc n) [] = refl
taken (suc n) (v ∷ vs) = taken n vs

abbrev list_store : Store list_server
list_store = record {
  held = λ s. s;
  first_page = λ s. (_, refl, refl, λ h. not-lt→ltb 1000 (length s) (omega arith));
  later_pages = λ prefix k v s. (_, refl);
  object_pages =
      λ prefix token s. (_, refl, λ h. (ap (λ t. map (λ v. v.id.key) (take 1 t)) h, refl));
  removes = λ s. (_, refl, taken 1000 s);
}

abbrev plain_bucket : BucketSpec
plain_bucket = record {
  name = "b";
  ordinal = pos 0;
  delete_path = "purge";
  versioned = true;
  capabilities = [];
  probe_detail = [];
}

plain_bucket-Capable : Capable list_server show list_store plain_bucket
unfolding supported lookup
plain_bucket-Capable = record { versions = refl; listing = refl; batches = refl }

abbrev marker : VersionInfo
marker = record { id = record { key = "k"; version_id = "v" }; delete_marker = true }

purge_bucket-clears_example :
    (t : List VersionInfo) × (t ≡ [])
    × (purge_bucket list_server show 0 plain_bucket (new_acc "b") (marker ∷ marker ∷ [])
        ≡ (ok 1 0 (new_acc "b"), t))
purge_bucket-clears_example =
    purge_bucket-clears list_server show list_store plain_bucket (new_acc "b")
      (marker ∷ marker ∷ []) plain_bucket-Capable (omega arith)

-- A versioned bucket of the profile `scale` before its purge: 20000 keys with three versions each
-- and a delete marker.
scale_bucket : List VersionInfo
scale_bucket = replicate 80000 marker

purge_bucket-overflows_example :
    (t : List VersionInfo) × (t ≡ drop 64000 scale_bucket)
    × (purge_bucket list_server show 0 plain_bucket (new_acc "b") scale_bucket
        ≡ (fail show made_up (new_acc "b"), t))
purge_bucket-overflows_example =
    purge_bucket-overflows list_server show list_store plain_bucket (new_acc "b") scale_bucket
      plain_bucket-Capable (unfold scale_bucket in (omega (arith, length-replicate 80000 marker)))

assert_empty_run :
    assert_bucket list_server show 0 plain_bucket (new_acc "b") [] ≡ (ok 1 0 (new_acc "b"), [])
assert_empty_run =
    assert_bucket-empty list_server show list_store plain_bucket (new_acc "b") []
      plain_bucket-Capable refl

assert_bucket-held_run :
    assert_bucket list_server show 0 plain_bucket (new_acc "b") (marker ∷ [])
    ≡ (fail show made_up (new_acc "b"), marker ∷ [])
assert_bucket-held_run =
    assert_bucket-held list_server show list_store plain_bucket (new_acc "b") (marker ∷ [])
      plain_bucket-Capable (omega arith)
