-- ===== src/Worker/Object/Writes.antt =====
-- pkg/worker/phases.go, putIndex and verifyGet: what is written verifies, and what differs does not.
use io_stress.Common.{ℕ, ◌≡◌, ◌≢◌, refl, inl, inr, ◌⊎◌, Bool, String, List, [], ◌∷◌}
use io_stress.Common.Int.{ℤ}
use io_stress.Objstore.Reader.{content}
use io_stress.Objstore.Reader.Laws.{Ends, Steady}
use io_stress.Objstore.Compare.{StreamMismatch}
use io_stress.Objstore.Compare.Prefix.{common}
use io_stress.Objstore.Compare.Loops.{compare_streams-Reports}
use io_stress.Objstore.Payload.{SizeWeight}
use io_stress.Objstore.Stream.{payload_reader, full_reader-Steady}
use io_stress.Objstore.Calls.{GetResult, good, S3}
use io_stress.Worker.Acc.{Event, differs}
use io_stress.Worker.Spec.{BucketSpec, Spec}
use io_stress.Worker.Platform.{Platform}
use io_stress.Worker.Object.{payload_key, payload, mismatch_of, reported_etag, verify_get}

module _ (p : Platform) (s3 : S3) (spec : Spec p.percents.F) (seed : List ℕ) (mix : List SizeWeight)
    (b : BucketSpec) where
  open s3 use {client, get_object}
  open client use {Server}

  -- The bytes of a payload.
  abbrev pub written : String → ℤ → ℤ → List ℕ
  written key ver size = content (payload p s3 spec seed mix b key ver size)

  payload-Steady :
      (key : String) (ver size : ℤ) → Steady (payload p s3 spec seed mix b key ver size)
  unfolding payload_reader
  payload-Steady key ver size = full_reader-Steady _

  -- What verifyGet records of an object whose bytes are `actual`.
  abbrev pub Verdict : String → ℤ → ℤ → String → List ℕ → Bool → GetResult → List Event → Type 0
  Verdict key ver size version_id etag multipart got events =
      let from = payload_key p s3 spec seed mix b key in
      ((written from ver size ≡ content got.body) × (events ≡ []))
      ⊎ ((mm : StreamMismatch) × (written from ver size ≢ content got.body)
          × (mm.first_bad_byte ≡ common (written from ver size) (content got.body))
          × (events
              ≡ differs (
                  mismatch_of key version_id size mm
                    (reported_etag p s3 spec seed mix b from ver size multipart etag) got.etag
                    got.request_id)
                ∷ []))

  pub verify_get-Verdict :
      (key : String) (ver size : ℤ) (version_id : String) (etag : List ℕ) (multipart : Bool)
      (s t : Server) (got : GetResult)
      → get_object key version_id "" s ≡ (good got, t)
      → Ends got.body
      → Verdict key ver size version_id etag multipart got
          (verify_get p s3 spec seed mix b key ver size version_id etag multipart s).1
  unfolding verify_get
  verify_get-Verdict key ver size version_id etag multipart s t got e ends =
      let from = payload_key p s3 spec seed mix b key in
      rw e
        (elim (compare_streams-Reports p.sha256 (payload p s3 spec seed mix b from ver size)
          got.body (payload-Steady from ver size) ends) [
            | inl (same, r) ↦ inl (same, rw r refl)
            | inr (mm, ne, r, at, size_of, exp, act) ↦ inr (mm, ne, at, rw r refl)
          ])
