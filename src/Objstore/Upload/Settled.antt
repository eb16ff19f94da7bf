-- ===== src/Objstore/Upload/Settled.antt =====
-- pkg/objstore/ops.go, uploadMultipartOnce: every upload is completed with all of its parts or aborted.
use io_stress.Common.{
  ℕ, zero, suc, ◌+◌, ◌-◌, ◌<◌, ◌≤◌, ◌≡◌, refl, ap, ◌∙◌, List, [], ◌∷◌, ◌++◌, Option, none, some,
  ltb, if◌then◌else◌, take, drop, length, not-lt→ltb, ◌==◌, false, length-take, length-drop, arith,
}
use mathlib.Core.Option
use io_stress.Objstore.Retry.{Err}
use io_stress.Objstore.Calls.{Result, good, bad, PutResult}
use io_stress.Objstore.Etag.{cut_parts}
use io_stress.Objstore.Upload.{
  Call, created, aborted, uploaded, completed, Api, MultipartResult, next_number, Parts, after_part,
  parts_from, Uploaded, etags_of, after_complete, after_parts, opened_with, upload_into,
  upload_multipart_once,
}

-- The bodies of the parts that were uploaded.
abbrev pub bodies : List Call → List (List ℕ)
bodies [] = []
bodies (uploaded n bs ∷ calls) = bs ∷ bodies calls
bodies (c ∷ calls) = bodies calls

abbrev pub aborts : List Call → ℕ
aborts [] = 0
aborts (aborted ∷ calls) = suc (aborts calls)
aborts (c ∷ calls) = aborts calls

-- The calls are uploads of just the parts that are listed, in their order.
pub data Sent : List Call → List (ℕ × List ℕ) → Type 0 where
  nothing : Sent [] []
  part :
      {n : ℕ} {bs etag : List ℕ} {calls : List Call} {ps : List (ℕ × List ℕ)}
      → Sent calls ps
      → Sent (uploaded n bs ∷ calls) ((n, etag) ∷ ps)

module _ (api : Api) (part_size : ℕ) where
  open api use {World, Handle}

  -- What the loop over the parts comes to.
  data Went (cut : Option (List (List ℕ))) : Parts api → Type 0 where
    went :
        {ps : List (ℕ × List ℕ)} {calls : List Call} {w : World}
        → Sent calls ps
        → cut ≡ some (bodies calls)
        → Went cut (good ps, calls, w)
    broke :
        {e : Err} {calls : List Call} {w : World} → aborts calls ≡ 0 → Went cut (bad e, calls, w)

  -- One part in front of those that `rest` has.
  abbrev longer : List ℕ → Option (List (List ℕ)) → Option (List (List ℕ))
  longer bs cut = Option.map (λ ps. bs ∷ ps) cut

  after_part-Went :
      (number : ℕ) (bs : List ℕ) (sent : Result (List ℕ) × World) (cut : Option (List (List ℕ)))
      (more : Parts api)
      → Went cut more
      → (parts : Parts api) × (after_part api (uploaded number bs) number sent (some more)
          ≡ some parts)
        × Went (longer bs cut) parts
  unfolding after_part
  after_part-Went number bs (bad e, w) cut more h = (_, refl, broke refl)
  after_part-Went number bs (good etag, w) cut (good ps, calls, w') (went s e) =
      (_, refl, went (part s) (ap (longer bs) e))
  after_part-Went number bs (good etag, w) cut (bad e, calls, w') (broke z) = (_, refl, broke z)

  -- The length of the part of a round
  abbrev cut_at : ℕ → ℕ
  cut_at left = if ltb left part_size then left else part_size

  cut_parts-step :
      (fuel left : ℕ) (body : List ℕ)
      → 0 < left
      → left ≤ length body
      → cut_parts (suc fuel) left part_size body
        ≡ longer
            (take (cut_at left) body)
            (cut_parts fuel (left - cut_at left) part_size (drop (cut_at left) body))
  unfolding cut_parts
  cut_parts-step fuel left body h l =
      let some_left : (left == 0) ≡ false = ground arith in
      let small : cut_at left ≤ left = ground arith in
      let full : ltb (length (take (cut_at left) body)) (cut_at left) ≡ false =
        not-lt→ltb _ _ (omega (arith, length-take (cut_at left) body)) in
      rw (some_left, full) refl

  parts_from-Went :
      (fuel : ℕ) (id : Handle) (num left : ℕ) (body : List ℕ) (w : World)
      → 0 < part_size
      → left ≤ fuel
      → left ≤ length body
      → (parts : Parts api) × (parts_from api fuel id part_size num left body w ≡ some parts)
        × Went (cut_parts fuel left part_size body) parts
  unfolding parts_from cut_parts
  parts_from-Went zero id num zero body w h f l = (_, refl, went nothing refl)
  parts_from-Went (suc fuel) id num zero body w h f l = (_, refl, went nothing refl)
  parts_from-Went zero id num (suc left) body w h f l = absurd (omega arith)
  parts_from-Went (suc fuel) id num (suc left) body w h f l =
      let n = cut_at (suc left) in
      let small : n ≤ suc left = ground arith in
      let some_part : 0 < n = ground arith in
      let number = next_number num in
      let sent = api.upload_part id number (take n body) w in
      let (more, e, rest) =
        parts_from-Went fuel id number (suc left - n) (drop n body) sent.1 h (omega arith)
          (omega (arith, length-drop n body)) in
      let (parts, e', all) = after_part-Went number (take n body) sent _ more rest in
      (
        parts,
        ap (λ m. after_part api (uploaded number (take n body)) number sent m) e ∙ e',
        rw (cut_parts-step fuel (suc left) body (omega arith) l) all,
      )

aborts-append : (xs ys : List Call) → aborts (xs ++ ys) ≡ aborts xs + aborts ys
aborts-append [] ys = omega arith
aborts-append (created ∷ xs) ys = aborts-append xs ys
aborts-append (aborted ∷ xs) ys = ground (arith, aborts-append xs ys)
aborts-append (uploaded n bs ∷ xs) ys = aborts-append xs ys
aborts-append (completed ps ∷ xs) ys = aborts-append xs ys

Sent-aborts : {calls : List Call} {ps : List (ℕ × List ℕ)} → Sent calls ps → aborts calls ≡ 0
Sent-aborts nothing = refl
Sent-aborts (part s) = Sent-aborts s

append_two : (xs : List Call) (a b : Call) → xs ++ a ∷ b ∷ [] ≡ (xs ++ a ∷ []) ++ b ∷ []
append_two [] a b = refl
append_two (x ∷ xs) a b = ap (λ ys. x ∷ ys) (append_two xs a b)

module _ (api : Api) where
  open api use {World, Handle}

  -- An upload was never opened; or all parts of `cut` were sent and it was completed with just these;
  -- or it ended with its only abort.
  pub data Settled (cut : Option (List (List ℕ))) : Uploaded api → Type 0 where
    refused : {e : Err} {w : World} → Settled cut (bad e, created ∷ [], w)
    whole :
        {r : MultipartResult} {ps : List (ℕ × List ℕ)} {calls : List Call} {w : World}
        → Sent calls ps
        → cut ≡ some (bodies calls)
        → r.part_etags ≡ etags_of api ps
        → Settled cut (good r, created ∷ (calls ++ completed ps ∷ []), w)
    undone :
        {e : Err} {all : List Call} {w : World} (before : List Call)
        → aborts before ≡ 0
        → all ≡ before ++ aborted ∷ []
        → Settled cut (bad e, created ∷ all, w)

  after_complete-Settled :
      (cut : Option (List (List ℕ))) (id : Handle) (ps : List (ℕ × List ℕ)) (calls : List Call)
      (got : Result PutResult × World)
      → Sent calls ps
      → cut ≡ some (bodies calls)
      → Settled cut (opened_with api created (after_complete api id ps calls got))
  unfolding after_complete
  after_complete-Settled cut id ps calls (bad e, w) s c =
      undone (calls ++ completed ps ∷ [])
        (omega (arith, aborts-append calls (completed ps ∷ []), Sent-aborts s))
        (append_two calls (completed ps) aborted)
  after_complete-Settled cut id ps calls (good put, w) s c = whole s c refl

  after_parts-Settled :
      (part_size : ℕ) (cut : Option (List (List ℕ))) (id : Handle) (parts : Parts api)
      → Went api part_size cut parts
      → Settled cut (opened_with api created (after_parts api id parts))
  unfolding after_parts
  after_parts-Settled part_size cut id (good ps, calls, w) (went s c) =
      after_complete-Settled cut id ps calls _ s c
  after_parts-Settled part_size cut id (bad e, calls, w) (broke z) = undone calls z refl

  upload_into-Settled :
      (size part_size : ℕ) (body : List ℕ) (got : Result Handle × World)
      → 0 < part_size
      → size ≤ length body
      → (u : Uploaded api) × (upload_into api size part_size body got ≡ some u)
        × Settled (cut_parts size size part_size body) u
  unfolding upload_into
  upload_into-Settled size part_size body (bad e, w) h l = (_, refl, refused)
  upload_into-Settled size part_size body (good id, w) h l =
      let (parts, e, all) = parts_from-Went api part_size size id 0 size body w h (omega arith) l in
      (
        _,
        ap
            (λ m. elim m [
              | none ↦ none
              | some p ↦ some (opened_with api created (after_parts api id p))
            ])
            e,
        after_parts-Settled part_size _ id parts all,
      )

  -- A multipart upload ends, for a part size above 0 and a body of at least the size. Either it could
  -- not be opened; or it succeeded, and then its parts are those that ExpectedETag cuts
  -- the same body into, it was completed with these parts in their order, their ETags are
  -- those returned, and it was never aborted; or it failed, and was aborted once, at the end.
  pub upload_multipart_once-Settled :
      (size part_size : ℕ) (body : List ℕ) (w : World)
      → 0 < part_size
      → size ≤ length body
      → (u : Uploaded api) × (upload_multipart_once api size part_size body w ≡ some u)
        × Settled (cut_parts size size part_size body) u
  unfolding upload_multipart_once
  upload_multipart_once-Settled size part_size body w h l =
      upload_into-Settled size part_size body (api.create w) h l
