-- ===== src/Worker/Tests.antt =====
-- pkg/worker/phases.go: runs on a small server.
use io_stress.Common.{ℕ, ◌<◌, ◌≡◌, refl, false, List, [], ◌∷◌, length-replicate}
use io_stress.Common.Int.{pos, at_least_zero}
use io_stress.Worker.Acc.{skips}
use io_stress.Worker.Spec.{latest_version, version_span, use_multipart}
use io_stress.Worker.Object.{object_size, verify_get, put_index}
use io_stress.Worker.Object.Stored.{put_index-verify_get}
use io_stress.Worker.Reading.{range_header}
use io_stress.Worker.Reading.Ranges.{Within, range_header-Within}
use io_stress.Worker.Verify.{verify_etag}
use io_stress.Worker.Verify.Etags.{verify_etag-skips}
use io_stress.Worker.Samples.{
  sample_platform, sample_server, sample-Keeps, sample_bucket, sample_spec, got_of,
}
use io_stress.Objstore.Payload.{SizeWeight, size_for}
use io_stress.Objstore.Keys.{key, pad16, flat_key}
use io_stress.Objstore.Stream.{hit, payload_reader}
use io_stress.Common.Dict.{lookup, insert}
use Prim.Native.String.{◌++◌ as text_append}

abbrev seed : List ℕ
seed = 1 ∷ []

abbrev mix : List SizeWeight
mix = record { bytes = pos 3; weight = pos 1 } ∷ []

-- Whatever is stored, the ETag is not compared.
verify_etag-skips_example :
    verify_etag sample_platform sample_server sample_spec seed mix sample_bucket "k"
      (pos 3)
      (("k", 0 ∷ 0 ∷ 0 ∷ []) ∷ [])
    ≡ (
      tt,
      skips (text_append "etag check skipped for multipart object " "k") ∷ [],
      ("k", 0 ∷ 0 ∷ 0 ∷ []) ∷ [],
    )
verify_etag-skips_example =
    verify_etag-skips sample_platform sample_server sample_spec seed mix sample_bucket "k" (pos 3)
      (("k", 0 ∷ 0 ∷ 0 ∷ []) ∷ []) (("k", 0 ∷ 0 ∷ 0 ∷ []) ∷ [])
      (record { etag = 1 ∷ 2 ∷ []; metadata = [] }) (λ k n. length-replicate n 7) refl

put_index-verify_get_example :
    (verify_get sample_platform sample_server sample_spec seed mix sample_bucket "k"
      (pos (latest_version sample_spec sample_bucket))
      (object_size sample_platform sample_server sample_spec seed mix sample_bucket 0)
      ""
      []
      false
      (put_index sample_platform sample_server sample_spec seed mix sample_bucket 0 []).2).1
    ≡ []
unfolding lookup insert key pad16 flat_key put_index size_for version_span use_multipart hit
    payload_reader
put_index-verify_get_example =
    put_index-verify_get sample_platform sample_server sample_spec seed mix sample_bucket
      sample-Keeps 0 "k" [] (got_of (7 ∷ 7 ∷ 7 ∷ [])) (("k", 7 ∷ 7 ∷ 7 ∷ []) ∷ []) [] false refl
      refl refl refl

range_header-Within_example : (1 < at_least_zero (pos 9)) × Within (at_least_zero (pos 9)) (1, 8)
unfolding range_header hit
range_header-Within_example =
    range_header-Within sample_platform sample_server sample_spec seed mix sample_bucket "k" (pos 9)
      (1, 8) refl
