-- ===== src/Worker/Object/Stored.antt =====
-- pkg/worker/phases.go, putIndex: the object that a server holds behind it.
use io_stress.Common.{
  some_inj, ℕ, zero, suc, ◌+◌, ◌≡◌, ◌≢◌, refl, sym, ap, ◌∙◌, inl, inr, ◌⊎◌, Bool, true, false, ◌&&◌,
  String, List, [], Option, none, some, arith, ltb, if◌then◌else◌, Bool-cases,
}
use native.Mathlib.Nat.{add-zero, zero-add}
use io_stress.Objstore.Compare.{StreamMismatch, Outcome}
use io_stress.Common.Int.{ℤ, pos}
use io_stress.Objstore.Reader.{Reader, content}
use io_stress.Objstore.Reader.Laws.{Ends}
use io_stress.Objstore.Payload.{SizeWeight}
use io_stress.Objstore.Calls.{PutResult, GetResult, Result, good, bad, S3, Result-cases}
use io_stress.Worker.Acc.{Mismatch}
use io_stress.Worker.Spec.{BucketSpec, Spec, supported, version_span, latest_version, use_multipart}
use io_stress.Worker.Platform.{Platform}
use io_stress.Worker.Object.{
  key_text, object_size, payload_key, payload, compared, after_get, verify_get, meta_of, send,
  reads_back, put_keyed, after_send, put_versions, put_index,
}
use io_stress.Worker.Object.Writes.{written, verify_get-Verdict}
use io_stress.Worker.Script.{when}

-- A server that keeps objects: an upload that succeeds is what the key holds, reading changes
-- nothing, and a read without a version or a range answers what the key holds.
pub record Keeps (s3 : S3) : Type 0 where
  pub stored : s3.client.Server → String → List ℕ
  pub put_keeps :
      (key : String) (size : ℤ) (meta : List (String × String)) (body : Reader)
      (s : s3.client.Server) (r : PutResult) (t : s3.client.Server)
      → s3.put_object key size meta body s ≡ (good r, t)
      → stored t key ≡ content body
  pub upload_keeps :
      (key : String) (size part : ℤ) (meta : List (String × String)) (body : Reader)
      (s : s3.client.Server) (r : PutResult) (t : s3.client.Server)
      → s3.upload_multipart key size part meta body s ≡ (good r, t)
      → stored t key ≡ content body
  pub get_keeps :
      (key version range other : String) (s : s3.client.Server)
      → stored (s3.get_object key version range s).1 other ≡ stored s other
  pub gives :
      (key : String) (s : s3.client.Server) (got : GetResult) (t : s3.client.Server)
      → s3.get_object key "" "" s ≡ (good got, t)
      → (content got.body ≡ stored s key) × Ends got.body

module _ (p : Platform) (s3 : S3) (spec : Spec p.percents.F) (seed : List ℕ) (mix : List SizeWeight)
    (b : BucketSpec) (keeps : Keeps s3) where
  open s3 use {client, get_object}
  open client use {Server}
  open keeps use {stored, put_keeps, upload_keeps, get_keeps, gives}

  send-keeps :
      (multipart : Bool) (key : String) (size : ℤ) (meta : List (String × String)) (body : Reader)
      (s t : Server) (r : PutResult)
      → send p s3 spec seed mix b multipart key size meta body s ≡ (good r, t)
      → stored t key ≡ content body
  unfolding send
  send-keeps true key size meta body s t r e =
      upload_keeps key size spec.multipart_part_size meta body s r t e
  send-keeps false key size meta body s t r e = put_keeps key size meta body s r t e

  compared-state :
      (report : StreamMismatch → Mismatch) (o : Option Outcome) (s : Server)
      → (compared p s3 spec seed mix b report o s).2 ≡ s
  unfolding compared
  compared-state report none s = refl
  compared-state report (some Outcome.same) s = refl
  compared-state report (some (Outcome.differs mm)) s = refl
  compared-state report (some (Outcome.failed e)) s = refl

  -- Behind GetObject verifyGet leaves the server alone.
  after_get-state :
      (key : String) (ver size : ℤ) (version_id : String) (etag : List ℕ) (multipart : Bool)
      (r : Result GetResult) (s : Server)
      → (after_get p s3 spec seed mix b key ver size version_id etag multipart r s).2 ≡ s
  unfolding after_get
  after_get-state key ver size version_id etag multipart (bad e) s = refl
  after_get-state key ver size version_id etag multipart (good got) s = compared-state _ _ s

  when_get-keeps :
      (c : Bool) (key : String) (ver size : ℤ) (version_id : String) (etag : List ℕ)
      (multipart : Bool) (other : String) (s : Server)
      → stored
          (when c (verify_get p s3 spec seed mix b key ver size version_id etag multipart) s).2
          other
        ≡ stored s other
  unfolding verify_get
  when_get-keeps false key ver size version_id etag multipart other s = refl
  when_get-keeps true key ver size version_id etag multipart other s =
      ap (λ t. stored t other) (after_get-state key ver size version_id etag multipart _ _)
      ∙ get_keeps key version_id "" other s

  -- The ordinal of the last of v versions.
  abbrev ordinal_of : ℕ → ℕ → ℕ
  ordinal_of first v = if ltb 0 first then v else first

  add_suc : (v left : ℕ) → v + suc left ≡ v + 1 + left
  add_suc v left = omega arith

  put_versions-stored :
      (key : String) (size : ℤ) (first : ℕ) (multipart : Bool) (left v moved : ℕ) (s : Server)
      → (v ≡ 0) ⊎ (stored s key ≡ written p s3 spec seed mix b key (pos (ordinal_of first v)) size)
      → (put_versions p s3 spec seed mix b key size first multipart left v moved s).0 ≡ none
      → (v + left ≡ 0)
        ⊎ (stored (put_versions p s3 spec seed mix b key size first multipart left v moved s).2 key
            ≡ written p s3 spec seed mix b key (pos (ordinal_of first (v + left))) size)
  unfolding put_versions after_send
  put_versions-stored key size first multipart zero v moved s h ok = rw (add-zero v) h
  put_versions-stored key size first multipart (suc left) v moved s h ok =
      let ver = if ltb 0 first then v + 1 else first in
      elim (Result-cases (
        send p s3 spec seed mix b multipart key size (meta_of p s3 spec seed mix b ver)
          (payload p s3 spec seed mix b key (pos ver) size) s)) [
            | inl (e, t, r) ↦ cc (rw r at ok)
            | inr (done, t, r) ↦
                let kept =
                  when_get-keeps (reads_back p s3 spec seed mix b key) key (pos ver) size
                    done.version_id done.etag multipart key t in
                rw (r, add_suc v left)
                  (put_versions-stored key size first multipart left (v + 1) _ _
                    (inr (kept ∙ send-keeps multipart key size _ _ s t done r)) (rw r at ok))
          ]

  -- The last ordinal that putIndex writes is latestVersion.
  last_ordinal : ordinal_of (version_span spec b).1 (version_span spec b).0 ≡ latest_version spec b
  unfolding version_span latest_version
  last_ordinal = elim (Bool-cases (b.versioned && supported b "versioning")) [
    | inl both ↦ rw both refl
    | inr one ↦ rw one refl
  ]

  some_versions : (version_span spec b).0 ≢ 0
  unfolding version_span
  some_versions = elim (Bool-cases (b.versioned && supported b "versioning")) [
    | inl both ↦ rw both (ground arith)
    | inr one ↦ rw one (omega arith)
  ]

  put_keyed-stored :
      (size : ℤ) (key : String) (o : Option String) (s : Server)
      → o ≡ some key
      → (put_keyed p s3 spec seed mix b size o s).0 ≡ none
      → stored (put_keyed p s3 spec seed mix b size o s).2 key
        ≡ written p s3 spec seed mix b key (pos (latest_version spec b)) size
  unfolding put_keyed
  put_keyed-stored size key none s k ok = cc k
  put_keyed-stored size key (some other) s k ok =
      let (count, first) = version_span spec b in
      elim (put_versions-stored other size first (use_multipart spec b size) count 0 0 s (inl refl)
        ok) [
          | inl zero_ ↦ absurd (some_versions (omega arith))
          | inr held ↦
              let same = some_inj k in
              rw same (rw (zero-add (version_span spec b).0, last_ordinal, same) at held)
        ]

  put_index-stored :
      (i : ℕ) (key : String) (s : Server)
      → key_text p s3 spec seed mix b i ≡ some key
      → (put_index p s3 spec seed mix b i s).0 ≡ none
      → stored (put_index p s3 spec seed mix b i s).2 key
        ≡ written p s3 spec seed mix b key
            (pos (latest_version spec b))
            (object_size p s3 spec seed mix b i)
  unfolding put_index
  put_index-stored i key s k ok =
      put_keyed-stored (object_size p s3 spec seed mix b i) key (key_text p s3 spec seed mix b i) s
        k ok

  -- On a server that keeps objects: behind a putIndex that returns no error, a verifyGet of the latest
  -- version of the same object that the server answers records nothing, whatever the size, the number
  -- of versions and the kind of upload. The key must not start with `copies/`.
  pub put_index-verify_get :
      (i : ℕ) (key : String) (s : Server) (got : GetResult) (u : Server) (etag : List ℕ)
      (multipart : Bool)
      → key_text p s3 spec seed mix b i ≡ some key
      → payload_key p s3 spec seed mix b key ≡ key
      → (put_index p s3 spec seed mix b i s).0 ≡ none
      → get_object key "" "" (put_index p s3 spec seed mix b i s).2 ≡ (good got, u)
      → (verify_get p s3 spec seed mix b key
          (pos (latest_version spec b))
          (object_size p s3 spec seed mix b i)
          ""
          etag
          multipart
          (put_index p s3 spec seed mix b i s).2).1
        ≡ []
  put_index-verify_get i key s got u etag multipart k plain ok g =
      let (same, ends) = gives key _ got u g in
      let held = same ∙ put_index-stored i key s k ok in
      elim (verify_get-Verdict p s3 spec seed mix b key (pos (latest_version spec b))
        (object_size p s3 spec seed mix b i) "" etag multipart
        (put_index p s3 spec seed mix b i s).2 u got g ends) [
          | inl (equal, none_) ↦ none_
          | inr (mm, ne, at, events) ↦ absurd (ne (rw plain (sym held)))
        ]
