-- ===== src/Objstore/Etag/Parts.antt =====
-- pkg/objstore/etag.go, ExpectedETag: how a payload is cut into parts.
use io_stress.Common.{
  ℕ, zero, suc, ◌-◌, ◌≤◌, ◌<◌, ◌≡◌, ◌≢◌, refl, sym, ap, inl, inr, ◌⊎◌, Bool, true, false, List, [],
  ◌∷◌, map, some, arith, ltb, ◌==◌, if◌then◌else◌, length, take, drop, length-take, length-append,
  length-drop, take-append-drop, dec_lt, lt→ltb, not-lt→ltb, ℕ_discrete,
}
use io_stress.Common.Int.{ℤ, pos, negsuc, at_least_zero, ltb_ℤ}
use io_stress.Objstore.Compare.{hex}
use io_stress.Objstore.Etag.{concat, cut_parts, multipart_etag, expected_etag}

-- Parts of one size, of which the last may be shorter, and none is empty.
abbrev pub Sized : ℕ → List (List ℕ) → Type 0
Sized n [] = Unit {0}
Sized n (p ∷ []) = (0 < length p) × (length p ≤ n)
Sized n (p ∷ q ∷ ps) = (length p ≡ n) × Sized n (q ∷ ps)

-- The parts of a payload.
pub record Cut (part_size : ℕ) (body : List ℕ) (ps : List (List ℕ)) : Type 0 where
  pub whole : concat ps ≡ body
  pub sized : Sized part_size ps

ne_beq : (n : ℕ) → n ≢ 0 → (n == 0) ≡ false
ne_beq n h = ground arith

Sized-cons :
    (n : ℕ) (p : List ℕ) (ps : List (List ℕ))
    → 0 < n
    → 0 < length p
    → length p ≤ n
    → (length p ≡ n) ⊎ (length (concat ps) ≡ 0)
    → Sized n ps
    → Sized n (p ∷ ps)
unfolding concat
Sized-cons n p [] up some_ few last rest = (some_, few)
Sized-cons n p (q ∷ []) up some_ few (inl full) rest = (full, rest)
Sized-cons n p (q ∷ r ∷ ps) up some_ few (inl full) rest = (full, rest)
Sized-cons n p (q ∷ []) up some_ few (inr z) rest =
    absurd (omega (arith, length-append q (concat []), rest.0))
Sized-cons n p (q ∷ r ∷ ps) up some_ few (inr z) rest =
    absurd (omega (arith, length-append q (concat (r ∷ ps)), rest.0))

-- One part of k bytes in front of the parts of the rest.
Cut-cons :
    (n k : ℕ) (body : List ℕ) (ps : List (List ℕ))
    → 0 < n
    → 0 < k
    → k ≤ n
    → k ≤ length body
    → (k ≡ n) ⊎ (k ≡ length body)
    → Cut n (drop k body) ps
    → Cut n body (take k body ∷ ps)
unfolding concat
Cut-cons n k body ps up some_ few fits last rest = record {
  whole = rw rest.whole (take-append-drop k body);
  sized =
      Sized-cons n (take k body) ps up (omega (arith, length-take k body))
        (omega (arith, length-take k body))
        (elim last [
          | inl full ↦ inl (omega (arith, length-take k body))
          | inr all ↦ inr (omega (arith, ap length rest.whole, length-drop k body))
        ])
        rest.sized;
}

-- A part that is cut off, given the parts of the rest.
cut_parts-step :
    (fuel left n k : ℕ) (body : List ℕ) (ps : List (List ℕ))
    → left ≢ 0
    → k ≡ (if ltb left n then left else n)
    → k ≤ length body
    → cut_parts fuel (left - k) n (drop k body) ≡ some ps
    → cut_parts (suc fuel) left n body ≡ some (take k body ∷ ps)
unfolding cut_parts
cut_parts-step fuel left n k body ps some_ e fits rest =
    rw
      (
        sym e,
        ne_beq left some_,
        not-lt→ltb (length (take k body)) k (omega (arith, length-take k body)),
        rest,
      )
      refl

-- The size of the next part.
abbrev next_part : ℕ → ℕ → ℕ
next_part left n = if ltb left n then left else n

next_part_bounds :
    (left n : ℕ)
    → 0 < n
    → 0 < left
    → (0 < next_part left n) × (next_part left n ≤ n) × (next_part left n ≤ left)
next_part_bounds left n up some_ = ground arith

next_part_cases : (left n : ℕ) → (next_part left n ≡ n) ⊎ (next_part left n ≡ left)
next_part_cases left n = elim (dec_lt left n) [
  | yes lt ↦ inr (rw (lt→ltb left n lt) refl)
  | no ge ↦ inl (rw (not-lt→ltb left n ge) refl)
]

-- The loop ends with the parts of the whole payload.
pub cut_parts-Cut :
    (fuel left n : ℕ) (body : List ℕ)
    → 0 < n
    → left ≤ fuel
    → length body ≡ left
    → (ps : List (List ℕ)) × (cut_parts fuel left n body ≡ some ps) × Cut n body ps
unfolding cut_parts concat
cut_parts-Cut zero zero n [] up enough e = ([], refl, record { whole = refl; sized = tt })
cut_parts-Cut zero zero n (x ∷ body) up enough e = absurd (omega arith)
cut_parts-Cut zero (suc l) n body up enough e = absurd (omega arith)
cut_parts-Cut (suc fuel) zero n [] up enough e = ([], refl, record { whole = refl; sized = tt })
cut_parts-Cut (suc fuel) zero n (x ∷ body) up enough e = absurd (omega arith)
cut_parts-Cut (suc fuel) (suc l) n body up enough e =
    let k = next_part (suc l) n in
    let (some_, small, within) = next_part_bounds (suc l) n up (omega arith) in
    let (ps, cut, parts) =
      cut_parts-Cut fuel (suc l - k) n (drop k body) up (omega arith)
        (omega (arith, length-drop k body)) in
    (
      take k body ∷ ps,
      cut_parts-step fuel (suc l) n k body ps (omega arith) refl (omega arith) cut,
      Cut-cons n k body ps up some_ small (omega arith)
          (elim (next_part_cases (suc l) n) [ inl full ↦ inl full | inr all ↦ inr (omega arith) ])
          parts,
    )

ltb_pos : (n : ℕ) → 0 < n → ltb_ℤ (pos 0) (pos n) ≡ true
ltb_pos n h = ground arith

neg_ltb : (n : ℕ) → ¬ (ltb_ℤ (pos 0) (negsuc n) ≡ true)
neg_ltb n h = ground arith

pos_ltb : (n : ℕ) → ltb_ℤ (pos 0) (pos n) ≡ true → 0 < n
pos_ltb n h = ground arith

module _ (md5 : List ℕ → List ℕ) (decimal : ℕ → List ℕ) where
  -- For a multipart upload of a payload that is not empty, the expected ETag is the MultipartETag of
  -- the digests of consecutive parts: together they are the payload, each but the last has the part
  -- size, the last has at most that, and none is empty. The second result is then false.
  pub expected_etag-parts :
      (body : List ℕ) (part_size : ℕ)
      → 0 < length body
      → 0 < part_size
      → (ps : List (List ℕ)) × (concat ps ≡ body)
        × Sized part_size ps
        × (expected_etag md5 decimal body (pos (length body)) (pos part_size) true
            ≡ some (multipart_etag md5 decimal (map md5 ps), false))
  unfolding expected_etag
  expected_etag-parts body part_size some_ positive =
      let (ps, cut, parts) =
        cut_parts-Cut (length body) (length body) part_size body positive (omega arith) refl in
      (
        ps,
        parts.whole,
        parts.sized,
        rw (ltb_pos part_size positive, ne_beq (length body) (omega arith), cut) refl,
      )

  -- Whenever an ETag can be computed, the second result is false.
  pub expected_etag-unflagged :
      (body : List ℕ) (size part_size : ℤ) (multipart : Bool)
      → length body ≡ at_least_zero size
      → (multipart ≡ true → ltb_ℤ (pos 0) part_size ≡ true)
      → (tag : List ℕ) × (expected_etag md5 decimal body size part_size multipart
          ≡ some (tag, false))
  unfolding expected_etag
  expected_etag-unflagged body size part_size false e set = (_, refl)
  expected_etag-unflagged body size (negsuc n) true e set = absurd (neg_ltb n (set refl))
  expected_etag-unflagged body size (pos n) true e set = elim (ℕ_discrete (at_least_zero size) 0) [
    | yes z ↦ (hex (md5 []), rw (set refl, z) refl)
    | no some_ ↦
        let (ps, cut, parts) =
          cut_parts-Cut (at_least_zero size) (at_least_zero size) n body (pos_ltb n (set refl))
            (omega arith) e in
        (
          multipart_etag md5 decimal (map md5 ps),
          rw (set refl, ne_beq (at_least_zero size) some_, cut) refl,
        )
  ]
