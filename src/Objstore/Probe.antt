-- ===== src/Objstore/Probe.antt =====
-- pkg/objstore/probe.go: which of the optional calls a bucket supports.
use Prim.Native.String.{◌++◌}
use io_stress.Common.{
  ℕ, Bool, true, false, ◌||◌, String, List, [], ◌∷◌, Option, none, some, str_eq, if◌then◌else◌,
}
use io_stress.Common.Int.{pos}
use io_stress.Common.Dict.{insert}
use io_stress.Objstore.Retry.{Err, api_code, is_unsupported}
use io_stress.Objstore.Reader.{Reader}
use io_stress.Objstore.Calls.{
  ObjectId, KeyError, VersionPage, HeadResult, PutResult, Result, good, bad, S3,
}
mod Marks
mod Tests

-- ProbeResult
pub record ProbeResult : Type 0 where
  pub capabilities : List (String × String)
  pub detail : List (String × String)

abbrev pub unprobed : ProbeResult
unprobed = record { capabilities = []; detail = [] }

-- IsUnsupportedCode
abbrev pub is_unsupported_code : String → Bool
is_unsupported_code code = str_eq code "NotImplemented" || str_eq code "MethodNotAllowed"

abbrev probe_key : String
probe_key = "objstress-probe/object"

abbrev probe_copy : String
probe_copy = "objstress-probe/copy"

-- The error of a call whose value is not used.
abbrev pub error_of {ℓ} : {S : Type ℓ} {A : Type 0} → Result A × S → Option Err × S
error_of (good x, s) = (none, s)
error_of (bad e, s) = (some e, s)

-- &apiErr
abbrev api_error : KeyError → Err
api_error e = record {
  text = e.code ++ (": " ++ e.message);
  mismatch = false;
  canceled = false;
  deadline = false;
  ended = false;
  net_timeout = false;
  net_op = false;
  code = e.code;
  status = 0;
  request_id = "";
}

-- batchErr behind DeleteKeys
unfoldable pub first_key_error : List KeyError → Option Err
first_key_error [] = none
first_key_error (e ∷ es) =
    let rest = first_key_error es in
    if str_eq e.code "" || str_eq e.code "NoSuchKey" then rest else some (api_error e)

unfoldable pub batch_error {ℓ} : {S : Type ℓ} → Result (List KeyError) × S → Option Err × S
unfolding first_key_error
batch_error (bad e, s) = (some e, s)
batch_error (good errs, s) = (first_key_error errs, s)

-- The calls of a probe from one on, on the answers so far. `A` is the server.
abbrev pub Probing : Type 0 → Type 0
Probing A = ProbeResult → A → Option Err × ProbeResult × A

unfoldable pub done : {A : Type 0} → Probing A
done p s = (none, p, s)

module _ (show : ℕ → String) where
  -- mark: none is an error of the probe.
  unfoldable pub mark : String → Option Err → ProbeResult → Option Err × ProbeResult
  mark cap none p = (none, record p { capabilities = insert cap "supported" p.capabilities })
  mark cap (some e) p =
      let noted : ProbeResult = record {
        capabilities = insert cap "unsupported" p.capabilities;
        detail =
            insert cap (api_code show e ++ (" HTTP " ++ (show e.status ++ (": " ++ e.text))))
              p.detail;
      } in
      if is_unsupported show e || is_unsupported_code (api_code show e)
      then (none, noted)
      else (some e, p)

  -- A call that is marked, and the calls behind it unless it fails the probe.
  unfoldable pub marked : {A : Type 0} → String → (A → Option Err × A) → Probing A → Probing A
  unfolding mark
  marked cap call rest p s =
      let (got, s1) = call s in
      let (failed, p1) = mark cap got p in
      let after = rest p1 s1 in elim failed [ none ↦ after | some e ↦ (some e, p1, s1) ]

  -- Calls that are marked one after the other
  unfoldable pub marks : {A : Type 0} → List (String × (A → Option Err × A)) → Probing A
  unfolding marked done
  marks [] = done
  marks ((cap, call) ∷ more) = marked cap call (marks more)

  module _ (s3 : S3) where
    open s3 use {
      client, put_object, head_object, copy_object, abort_multipart, list_uploads,
      get_bucket_versioning, version_page,
    }
    open client use {Server, delete_object, delete_keys}

    -- The optional calls, in the code's order.
    abbrev pub optional : List (String × (Server → Option Err × Server))
    optional =
        ("copy", copy_object probe_key probe_copy)
        ∷ ("multipart", abort_multipart (probe_key ++ "-abort"))
        ∷ ("list-multipart-uploads", λ s. error_of (list_uploads probe_key s))
        ∷ ("versioning", get_bucket_versioning)
        ∷ ("list-object-versions", λ s. error_of (version_page probe_key 1 s))
        ∷ (
          "batch-delete",
          λ s. batch_error (delete_keys (record { key = probe_copy; version_id = "" } ∷ []) s),
        )
        ∷ []

    unfoldable pub optional_calls : Probing Server
    unfolding marks batch_error
    optional_calls = marks optional

    -- The deferred deletions.
    unfoldable pub clean_up : Server → Server
    clean_up s =
        let s1 = (delete_object (record { key = probe_key; version_id = "" }) s).1 in
        (delete_object (record { key = probe_copy; version_id = "" }) s1).1

    abbrev cleaned : Option Err × ProbeResult × Server → Option Err × ProbeResult × Server
    cleaned (e, p, s) = (e, p, clean_up s)

    -- Probe behind the put
    unfoldable pub after_put : Option Err × Server → Option Err × ProbeResult × Server
    unfolding optional_calls clean_up
    after_put (some e, s) = (some e, unprobed, s)
    after_put (none, s) =
        let (head, s1) = error_of (head_object probe_key "" s) in
        let calls = cleaned (optional_calls unprobed s1) in
        elim head [
          | none ↦ calls
          | some e ↦ if is_unsupported show e then calls else cleaned (some e, unprobed, s1)
        ]

    -- Probe. The texts that it puts before an error are left out.
    unfoldable pub probe : Reader → Server → Option Err × ProbeResult × Server
    unfolding after_put
    probe prob s = after_put (error_of (put_object probe_key (pos 4) [] prob s))
