-- ===== src/Worker/Verify.antt =====
-- pkg/worker/phases.go: what a goroutine of the phases read, verify and copy does with one object.
use Prim.Native.String.{◌++◌}
use io_stress.Common.{
  ℕ, zero, suc, ◌+◌, ◌-◌, ◌%◌, Bool, true, false, not, ◌&&◌, ◌||◌, String, List, [], ◌∷◌, Option,
  none, some, inl, inr, ◌⊎◌, str_eq, ltb, leb, ◌==◌, if◌then◌else◌, take, bytes_eq,
}
use mathlib.Core.List.{◌++◌ as append}
use io_stress.Common.Int.{ℤ, pos, to_u64, at_least_zero, ltb_ℤ}
use io_stress.Objstore.Reader.{ReadErr, content}
use io_stress.Objstore.Compare.{Outcome}
use io_stress.Objstore.Keys.{shard}
use io_stress.Objstore.Payload.{SizeWeight, from_big_endian}
use io_stress.Objstore.Stream.{Percents, headed}
use io_stress.Objstore.Etag.{normalize_etag, expected_etag}
use io_stress.Objstore.Retry.{Err, is_unsupported, is_copy_limit}
use io_stress.Objstore.Calls.{
  VersionInfo, VersionPage, GetResult, HeadResult, Result, good, bad, S3,
}
use io_stress.Worker.Acc.{succeeds, fails, differs, skips}
use io_stress.Worker.Spec.{
  BucketSpec, Spec, supported, unsupported_detail, latest_version, use_multipart, workers_of,
}
use io_stress.Worker.Purge.{made_up}
use io_stress.Worker.Platform.{Platform}
use io_stress.Worker.Ranged.{compare_skip}
use io_stress.Worker.Object.{
  key_text, object_size, payload, sampled, mismatch_of, verify_get, version_ordinal,
}
use io_stress.Worker.Script.{Script, ◌>>=◌, ◌>>◌, ret, call, emit, when}
pub mod Etags

-- verifyVersions: the number of versions seen, or the error that ends the check.
abbrev Seen : Type 0
Seen = Err ⊎ ℕ

module _ (p : Platform) (s3 : S3) (spec : Spec p.percents.F) (seed : List ℕ) (mix : List SizeWeight)
    (b : BucketSpec) where
  open p use {percents, sha256, md5, decimal, show, int_text, read_error}
  open percents use {nought, one, at_most}
  open s3 use {client, get_object, head_object, version_page, copy_object}
  open client use {Server}

  -- A percentage that is not positive counts as 1.
  abbrev sample_pct : percents.F
  sample_pct = if at_most spec.verify_sample_pct nought then one else spec.verify_sample_pct

  -- verifyGet of the latest version, as most callers ask for it.
  abbrev verify_latest : String → ℤ → List ℕ → Script Server (Unit {0})
  verify_latest key size etag =
      verify_get p s3 spec seed mix b key (pos (latest_version spec b)) size "" etag
        (use_multipart spec b size)

  -- verifyETag behind ExpectedETag, whose second result it takes for a sign of success.
  unfoldable pub etag_checked :
      String → ℤ → List ℕ → Option (List ℕ × Bool) → Script Server (Unit {0})
  etag_checked key size etag none = emit (fails made_up)
  etag_checked key size etag (some (exp, ok)) =
      let differ : Script Server (Unit {0}) = verify_latest key size exp in
      if not ok
      then emit (skips ("etag check skipped for multipart object " ++ key))
      else when (not (bytes_eq (normalize_etag etag) exp)) differ

  unfoldable pub after_head : String → ℤ → Result HeadResult → Script Server (Unit {0})
  unfolding etag_checked
  after_head key size (bad e) = emit (fails e)
  after_head key size (good head) = etag_checked key size head.etag (
      expected_etag md5 decimal
        (content (payload p s3 spec seed mix b key (pos (latest_version spec b)) size)) size
        spec.multipart_part_size (use_multipart spec b size))

  -- verifyETag
  unfoldable pub verify_etag : String → ℤ → Script Server (Unit {0})
  unfolding after_head
  verify_etag key size = do head ← call (head_object key ""); after_head key size head

  -- fullVerify
  unfoldable pub full_verify : String → Bool
  full_verify key =
      if str_eq spec.verify_mode "etag"
      then false
      else if str_eq spec.verify_mode "sample"
      then sampled p s3 spec seed mix b key (b'v' ∷ b'e' ∷ b'r' ∷ b'i' ∷ b'f' ∷ b'y' ∷ [])
          sample_pct
      else true

  -- The loop of verifyVersions
  unfoldable pub check_each_version : String → ℤ → List VersionInfo → ℕ → Script Server Seen
  check_each_version key size [] seen = ret (inr seen)
  check_each_version key size (v ∷ vs) seen =
      let later : Script Server Seen = check_each_version key size vs seen in
      let headed : Script Server Seen = (do
        head ← call (head_object key v.id.version_id)
        elim head [
          | bad e ↦ do emit (fails e); ret (inl e)
          | good h ↦ elim (version_ordinal p h.metadata) [
            | none ↦ do emit (fails made_up); check_each_version key size vs seen
            | some ver ↦ do
              verify_get p s3 spec seed mix b key ver size v.id.version_id h.etag
                  (use_multipart spec b size)
              check_each_version key size vs (suc seen)
          ]
        ]) in
      if not (str_eq v.id.key key) || v.delete_marker then later else headed

  abbrev wanted_versions : ℕ
  wanted_versions = if ltb spec.versions_per_key 1 then 1 else spec.versions_per_key

  unfoldable pub count_checked : Seen → Script Server (Option Err)
  count_checked (inl e) = ret (some e)
  count_checked (inr seen) = do
    when (not (seen == wanted_versions)) (emit (fails made_up))
    ret none

  unfoldable pub page_checked : String → ℤ → Result VersionPage → Script Server (Option Err)
  unfolding check_each_version count_checked
  page_checked key size (bad e) =
      if is_unsupported show e
      then (do
        emit (skips ("list-object-versions unsupported: " ++ e.text))
        verify_latest key size []
        ret none)
      else (do emit (fails e); ret (some e))
  page_checked key size (good page) = do
    seen ← check_each_version key size page.versions 0
    count_checked seen

  -- verifyVersions; the limit is an int32, which the versions of a key stay below.
  unfoldable pub verify_versions : String → ℤ → Script Server (Option Err)
  unfolding page_checked
  verify_versions key size = do
    page ← call (version_page key (spec.versions_per_key + 5))
    page_checked key size page

  -- What a goroutine of verifyBucket ends with.
  unfoldable pub verified : Option Err → Script Server (Option Err)
  verified (some e) = ret (some e)
  verified none = do
    when (b.versioned && not (supported b "list-object-versions")) (
        emit (
          skips (
            "list-object-versions unsupported: "
            ++ (unsupported_detail b "list-object-versions"
                ++ "; verified the current object only"))))
    emit (succeeds 1 0)
    ret none

  unfoldable pub verify_key : String → ℤ → Script Server (Option Err)
  unfolding verify_versions verify_etag full_verify verified
  verify_key key size =
      let full = full_verify key in
      let latest : Script Server (Option Err) = (do verify_latest key size []; ret none) in
      let tag : Script Server (Option Err) = (do verify_etag key size; ret none) in
      let check =
        if b.versioned && (supported b "list-object-versions" && full)
        then verify_versions key size
        else if full
        then latest
        else tag in
      do r ← check; verified r

  -- verifyBucket, one object
  unfoldable pub verify_index : ℕ → Script Server (Option Err)
  unfolding verify_key
  verify_index i = elim (key_text p s3 spec seed mix b i) [
    | none ↦ do emit (fails made_up); ret none
    | some k ↦ verify_key k (object_size p s3 spec seed mix b i)
  ]
