-- ===== src/Worker/Listing.antt =====
-- pkg/worker/phases.go, listBucket: the checks of what a bucket's listings say.
use Prim.Native.String.{◌++◌}
use io_stress.Common.{
  ℕ, ◌*◌, Bool, true, false, not, ◌||◌, String, str_eq, ltb, ◌==◌, if◌then◌else◌, length,
}
use io_stress.Objstore.Retry.{is_unsupported}
use io_stress.Objstore.Calls.{Listing, Result, good, bad, S3}
use io_stress.Worker.Acc.{succeeds, fails, skips}
use io_stress.Worker.Spec.{BucketSpec, Spec, supported, unsupported_detail}
use io_stress.Worker.Purge.{made_up, count_objects, count_versions}
use io_stress.Worker.Setup.{check_uploads}
use io_stress.Worker.Platform.{Platform}
use io_stress.Worker.Script.{Script, ◌>>=◌, ◌>>◌, ret, call, emit, when}

module _ (p : Platform) (s3 : S3) (spec : Spec p.percents.F) (b : BucketSpec) where
  open p use {show, text}
  open s3 use {client, listing}
  open client use {Server}

  abbrev pub list_prefix : String
  list_prefix = text spec.key_prefix ++ "/"

  -- The number of objects
  unfoldable pub number_checked : Result ℕ → Script Server Bool
  number_checked (bad e) = do emit (fails e); ret false
  number_checked (good count) = do
    emit (if count == spec.objects_per_bucket then succeeds count 0 else fails made_up)
    ret true

  -- A page of two keys
  unfoldable pub pair_checked : Result Listing → Script Server (Unit {0})
  pair_checked (bad e) = emit (fails e)
  pair_checked (good page) =
      when (ltb 2 (length page.keys) || not page.truncated) (emit (fails made_up))

  -- The common prefixes
  unfoldable pub prefixes_checked : Result Listing → Script Server (Unit {0})
  prefixes_checked (bad e) = emit (fails e)
  prefixes_checked (good page) = when (length page.prefixes == 0) (emit (fails made_up))

  -- The number of versions
  unfoldable pub versions_checked : Result (ℕ × ℕ) → Script Server (Unit {0})
  versions_checked (bad e) =
      if is_unsupported show e
      then emit (skips ("list-object-versions unsupported: " ++ e.text))
      else emit (fails e)
  versions_checked (good (versions, markers)) =
      when (not (versions == spec.objects_per_bucket * spec.versions_per_key) || not (markers == 0))
        (emit (fails made_up))

  unfoldable pub check_pair : Script Server (Unit {0})
  unfolding pair_checked
  check_pair = do page ← call (listing list_prefix "" 2); pair_checked page

  unfoldable pub check_prefixes : Script Server (Unit {0})
  unfolding prefixes_checked
  check_prefixes = do page ← call (listing list_prefix "/" 1000); prefixes_checked page

  unfoldable pub check_versions : Script Server (Unit {0})
  unfolding versions_checked
  check_versions =
      if supported b "list-object-versions"
      then (do n ← call (count_versions client show list_prefix); versions_checked n)
      else emit (
          skips
            ("list-object-versions unsupported: " ++ unsupported_detail b "list-object-versions"))

  -- The uploads that are left
  unfoldable pub check_aborted : Script Server (Unit {0})
  check_aborted =
      if supported b "list-multipart-uploads"
      then check_uploads p s3 spec b
      else when (ltb 0 spec.abort_cases) (
          emit (
            skips (
              "list-multipart-uploads unsupported: "
              ++ unsupported_detail b "list-multipart-uploads")))

  -- listBucket behind the first listing, which it leaves on an error.
  unfoldable pub after_number : Bool → Script Server (Unit {0})
  unfolding check_pair check_prefixes check_versions check_aborted
  after_number false = ret tt
  after_number true = do
    when (ltb 2 spec.objects_per_bucket) check_pair
    when (not (str_eq spec.key_layout "flat")) check_prefixes
    when b.versioned check_versions
    check_aborted

  unfoldable pub check_number : Script Server Bool
  unfolding number_checked
  check_number = do n ← call (count_objects client show list_prefix); number_checked n

  -- listBucket
  unfoldable pub list_bucket : Script Server (Unit {0})
  unfolding check_number after_number
  list_bucket =
      let listed : Script Server (Unit {0}) = (do counted ← check_number; after_number counted) in
      if spec.worker == 0 then listed else emit (skips "list runs on worker 0 only")
