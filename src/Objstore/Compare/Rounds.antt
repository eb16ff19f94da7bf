-- ===== src/Objstore/Compare/Rounds.antt =====
-- The loop bodies of CompareStreams: what is known of the streams' parts seen so far.
use mathlib.Core.List.{append_assoc, append-nil}
use io_stress.Common.{
  ℕ, ◌+◌, ◌≤◌, ◌<◌, ◌≡◌, refl, ◌∙◌, inl, inr, ◌⊎◌, Option, some, none, List, [], ◌∷◌, ◌++◌, arith,
  length, length-append, take, ◌==◌, if◌then◌else◌, ℕ_discrete,
}
use io_stress.Objstore.Compare.{Cmp, note_byte, note_bytes, expected_ended}
use io_stress.Objstore.Compare.Prefix.{
  common, common-append, common-append_right, common_left, common-differ,
}

-- What `bad` says of the parts e and a seen so far, where `rest` is what expected still has: they
-- are equal, or first differ at b, or a goes on where expected has ended.
abbrev pub Verdict : List ℕ → List ℕ → List ℕ → Option ℕ → Type 0
Verdict e a rest bad =
    ((bad ≡ none) × (e ≡ a))
    ⊎ ((b : ℕ) × (bad ≡ some b)
        × (common e a ≡ b)
        × (b < length a)
        × ((b < length e) ⊎ (rest ≡ [])))

note_byte-offset : (x y : ℕ) (s : Cmp) → (note_byte x y s).offset ≡ s.offset + 1
unfolding note_byte
note_byte-offset x y s = refl

note_byte-hashes :
    (x y : ℕ) (s : Cmp)
    → ((note_byte x y s).exp_hash ≡ s.exp_hash) × ((note_byte x y s).act_hash ≡ s.act_hash)
unfolding note_byte
note_byte-hashes x y s = ground arith

note_byte-bad_none :
    (x y : ℕ) (s : Cmp)
    → s.bad ≡ none
    → (note_byte x y s).bad ≡ (if x == y then none else some s.offset)
unfolding note_byte
note_byte-bad_none x y s h = ground arith

note_byte-bad_some : (x y b : ℕ) (s : Cmp) → s.bad ≡ some b → (note_byte x y s).bad ≡ some b
unfolding note_byte
note_byte-bad_some x y b s h = ground arith

-- Both streams have the same length so far, and a byte of each comes next.
note_byte-Verdict :
    (e a : List ℕ) (x y : ℕ) (s : Cmp) (rest rest' : List ℕ)
    → length e ≡ length a
    → s.offset ≡ length a
    → Verdict e a rest s.bad
    → Verdict (e ++ x ∷ []) (a ++ y ∷ []) rest' (note_byte x y s).bad
note_byte-Verdict e a x y s rest rest' len off (inl (clean, e≡a)) = elim (ℕ_discrete x y) [
  | yes x≡y ↦ inl (ground (arith, note_byte-bad_none x y s clean), rw (e≡a, x≡y))
  | no x≢y ↦ inr (
    length a,
    ground (arith, note_byte-bad_none x y s clean),
    rw e≡a (common-differ a x y [] [] x≢y),
    omega (arith, length-append a (y ∷ [])),
    inl (omega (arith, length-append e (x ∷ []))),
  )
]
note_byte-Verdict e a x y s rest rest' len off (inr (b, found, at, in_a, in_e)) = inr (
  b,
  note_byte-bad_some x y b s found,
  common-append e a (x ∷ []) (y ∷ []) (omega arith) (omega arith) ∙ at,
  omega (arith, length-append a (y ∷ [])),
  inl (omega (arith, length-append e (x ∷ []))),
)

pub note_bytes-offset :
    (xs ys : List ℕ) (s : Cmp)
    → length xs ≤ length ys
    → (note_bytes xs ys s).offset ≡ s.offset + length xs
unfolding note_bytes
note_bytes-offset [] ys s h = omega arith
note_bytes-offset (x ∷ xs) [] s h = absurd (omega arith)
note_bytes-offset (x ∷ xs) (y ∷ ys) s h =
    omega (arith, note_byte-offset x y s, note_bytes-offset xs ys (note_byte x y s))

pub note_bytes-hashes :
    (xs ys : List ℕ) (s : Cmp)
    → ((note_bytes xs ys s).exp_hash ≡ s.exp_hash) × ((note_bytes xs ys s).act_hash ≡ s.act_hash)
unfolding note_bytes
note_bytes-hashes [] ys s = (refl, refl)
note_bytes-hashes (x ∷ xs) [] s = (refl, refl)
note_bytes-hashes (x ∷ xs) (y ∷ ys) s =
    let (p, q) = note_bytes-hashes xs ys (note_byte x y s) in
    let (p', q') = note_byte-hashes x y s in (p ∙ p', q ∙ q')

pub note_bytes-Verdict :
    (xs ys e a : List ℕ) (s : Cmp) (rest rest' : List ℕ)
    → length xs ≤ length ys
    → length e ≡ length a
    → s.offset ≡ length a
    → Verdict e a rest s.bad
    → Verdict (e ++ xs) (a ++ take (length xs) ys) rest' (note_bytes xs ys s).bad
unfolding note_bytes
note_bytes-Verdict [] ys e a s rest rest' h len off (inl (clean, e≡a)) = inl (clean, rw e≡a refl)
note_bytes-Verdict [] ys e a s rest rest' h len off (inr (b, found, at, in_a, in_e)) =
    rw (append-nil e, append-nil a) (inr (b, found, at, in_a, inl (omega arith)))
note_bytes-Verdict (x ∷ xs) [] e a s rest rest' h len off v = absurd (omega arith)
note_bytes-Verdict (x ∷ xs) (y ∷ ys) e a s rest rest' h len off v =
    rw (← append_assoc e (x ∷ []) xs, ← append_assoc a (y ∷ []) (take (length xs) ys))
      (note_bytes-Verdict xs ys (e ++ x ∷ []) (a ++ y ∷ []) (note_byte x y s) rest rest'
        (omega arith) (omega (arith, length-append e (x ∷ []), length-append a (y ∷ [])))
        (omega (arith, length-append a (y ∷ []), note_byte-offset x y s))
        (note_byte-Verdict e a x y s rest rest len off v))

-- Expected has ended, and the actual bytes ys go on.
pub expected_ended-Verdict :
    (e a ys : List ℕ) (s : Cmp)
    → 0 < length ys
    → s.offset ≡ length a
    → Verdict e a [] s.bad
    → Verdict e (a ++ ys) [] (expected_ended ys s).bad
unfolding expected_ended
expected_ended-Verdict e a ys s h off (inl (clean, e≡a)) =
    inr (
      length a,
      ground arith,
      rw e≡a (common_left a ys),
      omega (arith, length-append a ys),
      inr refl,
    )
expected_ended-Verdict e a ys s h off (inr (b, found, at, in_a, in_e)) = inr (
  b,
  ground arith,
  common-append_right e a ys (omega arith) ∙ at,
  omega (arith, length-append a ys),
  inr refl,
)
