-- ===== src/Objstore/Upload/Tests.antt =====
-- pkg/objstore/ops.go, uploadMultipartOnce at a body of five bytes and parts of two.
use io_stress.Common.{ℕ, ◌+◌, ◌≡◌, refl, List, [], ◌∷◌, some, arith}
use io_stress.Objstore.Calls.{good}
use io_stress.Objstore.Etag.{cut_parts, normalize_etag}
use io_stress.Objstore.Upload.{created, uploaded, completed, Api, Uploaded, upload_multipart_once}
use io_stress.Objstore.Upload.Settled.{Settled, upload_multipart_once-Settled}

-- A server that counts its calls, and whose ETags are numbers in quotes
abbrev counting : Api
counting = record {
  World = ℕ;
  Handle = ℕ;
  create = λ w. (good w, w + 1);
  upload_part = λ id number bs w. (good (34 ∷ number ∷ 34 ∷ []), w + 1);
  complete = λ id ps w. (good (record { version_id = "v"; etag = 34 ∷ 9 ∷ 34 ∷ [] }), w + 1);
  abort = λ id w. w + 1;
}

abbrev body : List ℕ
body = 1 ∷ 2 ∷ 3 ∷ 4 ∷ 5 ∷ []

three_parts :
    upload_multipart_once counting 5 2 body 0
    ≡ some (
      good (record {
        put = record { version_id = "v"; etag = 9 ∷ [] };
        part_etags = (1 ∷ []) ∷ (2 ∷ []) ∷ (3 ∷ []) ∷ [];
      }),
      created
          ∷ uploaded 1 (1 ∷ 2 ∷ [])
          ∷ uploaded 2 (3 ∷ 4 ∷ [])
          ∷ uploaded 3 (5 ∷ [])
          ∷ completed ((1, 34 ∷ 1 ∷ 34 ∷ []) ∷ (2, 34 ∷ 2 ∷ 34 ∷ []) ∷ (3, 34 ∷ 3 ∷ 34 ∷ []) ∷ [])
          ∷ [],
      5,
    )
unfolding upload_multipart_once normalize_etag
three_parts = refl

upload_multipart_once-Settled_example :
    (u : Uploaded counting) × (upload_multipart_once counting 5 2 body 0 ≡ some u)
    × Settled counting (cut_parts 5 5 2 body) u
upload_multipart_once-Settled_example =
    upload_multipart_once-Settled counting 5 2 body 0 (omega arith) (omega arith)
