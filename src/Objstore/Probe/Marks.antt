-- ===== src/Objstore/Probe/Marks.antt =====
-- pkg/objstore/probe.go: what the optional calls of a probe record of the server's answers.
use io_stress.Common.{
  ℕ, ◌≡◌, ◌⊎◌, Bool, true, false, not, ◌&&◌, ◌||◌, String, List, [], ◌∷◌, Option, none, some,
  str_eq, ◌==◌,
}
use io_stress.Common.Dict.{lookup}
use io_stress.Objstore.Retry.{Err, api_code}
use io_stress.Objstore.Calls.{S3}
use io_stress.Objstore.Probe.{ProbeResult, error_of, batch_error}

-- A capability of the probe and its call.
abbrev pub Call : Type 0 → Type 0
Call A = String × (A → Option Err × A)

-- The six optional calls
abbrev pub six : (s3 : S3) → List (Call s3.client.Server)
six s3 =
    ("copy", s3.copy_object "objstress-probe/object" "objstress-probe/copy")
    ∷ ("multipart", s3.abort_multipart "objstress-probe/object-abort")
    ∷ ("list-multipart-uploads", λ s. error_of (s3.list_uploads "objstress-probe/object" s))
    ∷ ("versioning", s3.get_bucket_versioning)
    ∷ ("list-object-versions", λ s. error_of (s3.version_page "objstress-probe/object" 1 s))
    ∷ (
      "batch-delete",
      λ s.
          batch_error (
            s3.client.delete_keys (record { key = "objstress-probe/copy"; version_id = "" } ∷ [])
              s),
    )
    ∷ []

module _ (show : ℕ → String) where
  -- An error that says that the server does not have the call, or does not allow it: by its code or by
  -- its HTTP status.
  abbrev pub refused : Err → Bool
  refused e =
      let code = api_code show e in
      (str_eq code "NotImplemented" || str_eq code "MethodNotAllowed" || str_eq code "AccessDenied")
      || (e.status == 501 || e.status == 405 || e.status == 403)

  -- What is recorded of an answer that does not end the probe.
  abbrev pub Verdict : String → Option Err → ProbeResult → Type 0
  Verdict cap none p = lookup cap p.capabilities ≡ some "supported"
  Verdict cap (some e) p = (refused e ≡ true) × (lookup cap p.capabilities ≡ some "unsupported")

  -- The calls are made one after the other, each on what the one before left of the server: a call
  -- with any other error ends the probe with that error, and each call before is recorded.
  abbrev pub Settled : {A : Type 0} → List (Call A) → A → Option Err × ProbeResult × A → Type 0
  Settled [] s r = (r.0 ≡ none) × (r.2 ≡ s)
  Settled ((cap, call) ∷ cs) s r =
      ((e : Err) × ((call s).0 ≡ some e)
        × (refused e ≡ false)
        × (r.0 ≡ some e)
        × (r.2 ≡ (call s).1))
      ⊎ (Verdict cap (call s).0 r.1 × Settled cs (call s).1 r)

  module _ {A : Type 0} where
    -- No call of a list has the capability.
    abbrev absent : String → List (Call A) → Bool
    absent cap [] = true
    absent cap (c ∷ cs) = not (str_eq c.0 cap) && absent cap cs

    abbrev distinct : List (Call A) → Bool
    distinct [] = true
    distinct (c ∷ cs) = absent c.0 cs && distinct cs
