-- ===== src/Worker/Verify/Etags.antt =====
-- pkg/worker/phases.go, verifyETag: what it makes of ExpectedETag's second result.
use Prim.Native.String.{◌++◌}
use io_stress.Common.{ℕ, ◌≡◌, refl, ap, ◌∙◌, Bool, true, false, ◌&&◌, String, List, [], ◌∷◌, length}
use io_stress.Common.Int.{ℤ, pos, ltb_ℤ, at_least_zero}
use io_stress.Objstore.Reader.{content}
use io_stress.Objstore.Payload.{SizeWeight}
use io_stress.Objstore.Stream.{payload_reader, content-full_reader}
use io_stress.Objstore.Etag.Parts.{expected_etag-unflagged}
use io_stress.Objstore.Calls.{HeadResult, good, S3}
use io_stress.Worker.Acc.{skips}
use io_stress.Worker.Spec.{BucketSpec, Spec, latest_version, use_multipart}
use io_stress.Worker.Platform.{Platform}
use io_stress.Worker.Object.{payload}
use io_stress.Worker.Verify.{verify_etag}

second_of : (a b c : Bool) → (a && (b && c)) ≡ true → b ≡ true
second_of true true c h = refl
second_of true false c h = h
second_of false b c h = cc

module _ {F : Type 0} (spec : Spec F) (b : BucketSpec) where
  use_multipart-positive :
      (size : ℤ) → use_multipart spec b size ≡ true → ltb_ℤ (pos 0) spec.multipart_part_size ≡ true
  unfolding use_multipart
  use_multipart-positive size h =
      second_of spec.multipart_enabled (ltb_ℤ (pos 0) spec.multipart_part_size) _ h

module _ (p : Platform) (s3 : S3) (spec : Spec p.percents.F) (seed : List ℕ) (mix : List SizeWeight)
    (b : BucketSpec) where
  content-payload :
      ((k : List ℕ) (n : ℕ) → length (p.chacha k n) ≡ n)
      → (key : String) (ver size : ℤ)
      → length (content (payload p s3 spec seed mix b key ver size)) ≡ at_least_zero size
  unfolding payload_reader
  content-payload full key ver size = ap length (content-full_reader _) ∙ full _ _

  -- verifyETag does not compare the ETag of any object: whatever ETag the server answers, it records
  -- a skipped check, neither a failure nor a mismatch, and returns.
  pub verify_etag-skips :
      (key : String) (size : ℤ) (s t : s3.client.Server) (head : HeadResult)
      → ((k : List ℕ) (n : ℕ) → length (p.chacha k n) ≡ n)
      → s3.head_object key "" s ≡ (good head, t)
      → verify_etag p s3 spec seed mix b key size s
        ≡ (tt, skips ("etag check skipped for multipart object " ++ key) ∷ [], t)
  unfolding verify_etag
  verify_etag-skips key size s t head full e =
      let (tag, expected) =
        expected_etag-unflagged p.md5 p.decimal
          (content (payload p s3 spec seed mix b key (pos (latest_version spec b)) size)) size
          spec.multipart_part_size (use_multipart spec b size)
          (content-payload full key (pos (latest_version spec b)) size)
          (use_multipart-positive spec b size) in
      rw (e, expected) refl
