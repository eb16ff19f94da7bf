-- ===== src/Worker/Setup.antt =====
-- pkg/worker/phases.go: setupBucket, abortCases and deleteBucket.
use Prim.Native.String.{◌++◌, len, slice}
use io_stress.Common.{
  ℕ, zero, suc, ◌+◌, Bool, true, false, not, ◌&&◌, ◌||◌, String, List, [], ◌∷◌, Option, none, some,
  str_eq, leb, ◌==◌, if◌then◌else◌, length,
}
use io_stress.Objstore.Reader.{Reader}
use io_stress.Objstore.Retry.{Err, api_code, is_unsupported}
use io_stress.Objstore.Calls.{Result, good, bad, S3}
use io_stress.Objstore.Probe.{ProbeResult, probe}
use io_stress.Worker.Acc.{succeeds, fails, skips}
use io_stress.Worker.Spec.{BucketSpec, Spec, supported, unsupported_detail}
use io_stress.Worker.Purge.{made_up}
use io_stress.Worker.Platform.{Platform}
use io_stress.Worker.Script.{Script, ◌>>=◌, ◌>>◌, ret, call, emit, when}

-- A bucket with the answers of a probe
abbrev pub probed : BucketSpec → ProbeResult → BucketSpec
probed b r = record b { capabilities = r.capabilities; probe_detail = r.detail }

-- setupBucket's test of a state. `unsupported` has eleven bytes.
abbrev pub marked_unsupported : String → Bool
marked_unsupported state =
    str_eq state "unsupported" || (leb 12 (len state) && str_eq (slice state 0 12) "unsupported")

-- The loop of setupBucket over the capabilities, in the order that the map yields them.
unfoldable pub note_capabilities :
    {S : Type 0} → BucketSpec → List (String × String) → Script S (Unit {0})
unfolding unsupported_detail
note_capabilities b [] = ret tt
note_capabilities b ((cap, state) ∷ rest) = do
  when (marked_unsupported state)
      (emit (skips (cap ++ (" unsupported: " ++ unsupported_detail b cap))))
  note_capabilities b rest

module _ (p : Platform) (s3 : S3) (spec : Spec p.percents.F) (b : BucketSpec) where
  open p use {show, text, codes}
  open s3 use {
    client, create_bucket, delete_bucket, put_bucket_versioning, abort_multipart, list_uploads,
  }
  open client use {Server}

  -- Where aborted uploads are put
  abbrev pub abort_prefix : String
  abort_prefix = text spec.key_prefix ++ "/abort/"

  -- The checks of what ListMultipartUploads answers
  unfoldable pub uploads_checked : Result (List String) → Script Server (Unit {0})
  uploads_checked (bad e) =
      if is_unsupported show e
      then emit (skips ("list-multipart-uploads unsupported: " ++ e.text))
      else emit (fails e)
  uploads_checked (good ids) = when (not (length ids == 0)) (emit (fails made_up))

  unfoldable pub check_uploads : Script Server (Unit {0})
  unfolding uploads_checked
  check_uploads = do ids ← call (list_uploads abort_prefix); uploads_checked ids

  -- The loop of abortCases: whether it goes on to the listing.
  unfoldable pub after_abort : Script Server Bool → Option Err → Script Server Bool
  after_abort rest none = rest
  after_abort rest (some e) =
      if is_unsupported show e
      then (do emit (skips ("multipart abort skipped: " ++ e.text)); ret false)
      else (do emit (fails e); ret false)

  unfoldable pub abort_from : ℕ → ℕ → Script Server Bool
  unfolding after_abort
  abort_from zero n = ret true
  abort_from (suc left) n =
      let rest = abort_from left (n + 1) in
      do failed ← call (abort_multipart (abort_prefix ++ show n)); after_abort rest failed

  unfoldable pub after_aborts : Bool → Script Server (Unit {0})
  unfolding check_uploads
  after_aborts false = ret tt
  after_aborts true =
      if supported b "list-multipart-uploads"
      then check_uploads
      else emit (
          skips (
            "list-multipart-uploads unsupported: "
            ++ (unsupported_detail b "list-multipart-uploads" ++ "; aborted-upload check skipped")))

  -- abortCases
  unfoldable pub abort_cases : Script Server (Unit {0})
  unfolding abort_from after_aborts
  abort_cases =
      let aborts : Script Server (Unit {0}) = (do
        listed ← abort_from spec.abort_cases 0
        after_aborts listed) in
      if not (spec.worker == 0) || (spec.abort_cases == 0 || not spec.multipart_enabled)
      then ret tt
      else if supported b "multipart"
      then aborts
      else emit (skips ("multipart abort skipped: " ++ unsupported_detail b "multipart"))

  -- setupBucket behind PutBucketVersioning
  unfoldable pub set_up : Option Err → Script Server (Unit {0})
  set_up (some e) = emit (fails e)
  set_up none = emit (succeeds 1 0)

  -- setupBucket behind Probe: the probe that setProbe stores.
  unfoldable pub after_probe : Option Err × ProbeResult → Script Server (Option ProbeResult)
  unfolding note_capabilities set_up
  after_probe (some e, r) = do emit (fails e); ret none
  after_probe (none, r) =
      let unversioned : Script Server (Unit {0}) = (do
        emit (
            skips (
              "versioning unsupported: "
              ++ unsupported_detail (record (probed b r) { capabilities = [] }) "versioning"))
        set_up none) in
      let enable : Script Server (Unit {0}) = (do
        failed ← call put_bucket_versioning
        set_up failed) in
      let version : Script Server (Unit {0}) =
        if b.versioned
        then (if supported (probed b r) "versioning" then enable else unversioned)
        else set_up none in
      do note_capabilities (probed b r) r.capabilities; version; ret (some r)

  -- setupBucket behind CreateBucket
  unfoldable pub after_create : Reader → Option Err → Script Server (Option ProbeResult)
  unfolding after_probe
  after_create prob none = do
    r ← call (λ s. let (e, q, t) = probe show s3 prob s in ((e, q), t))
    after_probe r
  after_create prob (some e) =
      let code = api_code show e in
      do
        emit (
            fails (
              if str_eq code "BucketAlreadyExists" || str_eq code "BucketAlreadyOwnedByYou"
              then made_up
              else e))
        ret none

  -- setupBucket; `prob` reads the four bytes that a probe puts.
  unfoldable pub setup_bucket : Reader → Script Server (Option ProbeResult)
  unfolding after_create
  setup_bucket prob =
      let create : Script Server (Option ProbeResult) = (do
        failed ← call create_bucket
        after_create prob failed) in
      if str_eq spec.provisioning "s3" && not spec.resume then create else after_create prob none

  -- deleteBucket
  unfoldable pub drop_bucket : Script Server (Unit {0})
  unfolding set_up
  drop_bucket = do failed ← call delete_bucket; set_up failed
