-- ===== src/Objstore/Payload/Sizes.antt =====
-- pkg/objstore/payload.go: SizeFor against the mix with every size repeated by its weight.
use io_stress.Common.{
  ℕ, zero, suc, ◌+◌, ◌-◌, ◌≤◌, ◌<◌, ◌%◌, ◌≡◌, refl, sym, ap, subst, ◌∙◌, some, List, [], ◌∷◌, ◌++◌,
  arith, dec_lt, lt→ltb, not-lt→ltb, u64_mod, get_elem?, replicate, length, length-append,
  length-replicate, ◌==◌, Bool, true, false, if◌then◌else◌,
}
use io_stress.Common.Int.{ℤ, pos, negsuc, is_pos}
use io_stress.Objstore.Payload.{
  SizeWeight, add_weight, total_from, last_bytes, pick_from, hashed, size_for,
}

-- How often a weight counts.
abbrev pub share : ℤ → ℕ
share (pos n) = n
share (negsuc n) = 0

abbrev pub shares : List SizeWeight → ℕ
shares [] = 0
shares (m ∷ mix) = share m.weight + shares mix

-- Every size as often as its weight says.
abbrev pub spread : List SizeWeight → List ℤ
spread [] = []
spread (m ∷ mix) = replicate (share m.weight) m.bytes ++ spread mix

length-spread : (mix : List SizeWeight) → length (spread mix) ≡ shares mix
length-spread [] = refl
length-spread (m ∷ mix) = omega (
  arith,
  length-append (replicate (share m.weight) m.bytes) (spread mix),
  length-replicate (share m.weight) m.bytes,
  length-spread mix,
)

get_elem?-replicate_lt :
    (n i : ℕ) (b : ℤ) (bs : List ℤ) → i < n → get_elem? (replicate n b ++ bs) i ≡ some b
get_elem?-replicate_lt zero i b bs h = absurd (omega arith)
get_elem?-replicate_lt (suc n) zero b bs h = refl
get_elem?-replicate_lt (suc n) (suc i) b bs h = get_elem?-replicate_lt n i b bs (omega arith)

get_elem?-replicate_ge :
    (n i : ℕ) (b : ℤ) (bs : List ℤ)
    → n ≤ i
    → get_elem? (replicate n b ++ bs) i ≡ get_elem? bs (i - n)
get_elem?-replicate_ge zero i b bs h = ap (get_elem? bs) (omega arith)
get_elem?-replicate_ge (suc n) zero b bs h = absurd (omega arith)
get_elem?-replicate_ge (suc n) (suc i) b bs h =
    get_elem?-replicate_ge n i b bs (omega arith) ∙ ap (get_elem? bs) (omega arith)

add_weight-share : (w : ℤ) (acc : ℕ) → acc + share w < u64_mod → add_weight w acc ≡ acc + share w
unfolding add_weight
add_weight-share (pos n) acc h = ground arith
add_weight-share (negsuc n) acc h = omega arith

total_from-shares :
    (mix : List SizeWeight) (total : ℕ)
    → total + shares mix < u64_mod
    → total_from mix total ≡ total + shares mix
unfolding total_from
total_from-shares [] total h = omega arith
total_from-shares (m ∷ mix) total h =
    rw (add_weight-share m.weight total (omega arith))
      (total_from-shares mix (total + share m.weight) (omega arith) ∙ omega arith)

share-is_pos : (w : ℤ) → 0 < share w → is_pos w ≡ true
share-is_pos (pos n) h = lt→ltb 0 n h
share-is_pos (negsuc n) h = absurd (omega arith)

same_branch : (b : Bool) (x : ℤ) → (if b then x else x) ≡ x
same_branch true x = refl
same_branch false x = refl

later : (pick acc n : ℕ) → pick - acc - n ≡ pick - (acc + n)
later pick acc n = omega arith

pick_from-spread :
    (mix : List SizeWeight) (pick acc : ℕ) (last : ℤ)
    → acc ≤ pick
    → pick < acc + shares mix
    → acc + shares mix < u64_mod
    → get_elem? (spread mix) (pick - acc) ≡ some (pick_from pick mix acc last)
unfolding pick_from
pick_from-spread [] pick acc last l h b = absurd (omega arith)
pick_from-spread (m ∷ mix) pick acc last l h b = elim (dec_lt pick (acc + share m.weight)) [
  | yes y ↦
      rw
        (
          add_weight-share m.weight acc (omega arith),
          share-is_pos m.weight (omega arith),
          lt→ltb pick (acc + share m.weight) y,
        )
        (get_elem?-replicate_lt (share m.weight) (pick - acc) m.bytes (spread mix) (omega arith))
  | no n ↦
      rw
        (
          add_weight-share m.weight acc (omega arith),
          not-lt→ltb pick (acc + share m.weight) n,
          same_branch (is_pos m.weight) (pick_from pick mix (acc + share m.weight) last),
          get_elem?-replicate_ge (share m.weight) (pick - acc) m.bytes (spread mix) (omega arith),
          later pick acc (share m.weight),
        )
        (pick_from-spread mix pick (acc + share m.weight) last (omega arith) (omega arith)
          (omega arith))
]

total_shares : (mix : List SizeWeight) → shares mix < u64_mod → total_from mix 0 ≡ shares mix
total_shares mix h = total_from-shares mix 0 (omega arith) ∙ omega arith

not_zero : (n : ℕ) → 0 < n → (n == 0) ≡ false
not_zero n h = ground arith

in_spread :
    (mix : List SizeWeight) (hash : ℕ) (last : ℤ)
    → 0 < shares mix
    → shares mix < u64_mod
    → get_elem? (spread mix) (hash % shares mix) ≡ some (pick_from (hash % shares mix) mix 0 last)
in_spread mix hash last p b =
    ap (get_elem? (spread mix)) (omega arith)
    ∙ pick_from-spread mix (hash % shares mix) 0 last (omega arith) (omega arith) (omega arith)

module _ (sha256 : List ℕ → List ℕ) where
  -- For a mix whose positive weights add up to a total between 1 and 2 ^ 64 - 1, lay every size out
  -- as often as its weight says, in the mix's order: the list is as long as the total, and SizeFor's
  -- size is the one at the digest's first eight bytes modulo the total.
  pub size_for-spread :
      (seed : List ℕ) (i : ℕ) (mix : List SizeWeight)
      → 0 < shares mix
      → shares mix < u64_mod
      → (length (spread mix) ≡ shares mix)
        × (get_elem? (spread mix) (hashed sha256 seed i % shares mix)
            ≡ some (size_for sha256 seed i mix))
  unfolding size_for
  size_for-spread seed i [] p b = absurd (omega arith)
  size_for-spread seed i (m ∷ mix) p b = (
    length-spread (m ∷ mix),
    subst
        (λ t.
          get_elem? (spread (m ∷ mix)) (hashed sha256 seed i % shares (m ∷ mix))
          ≡ some (
              if t == 0
              then m.bytes
              else pick_from (hashed sha256 seed i % t) (m ∷ mix) 0 (last_bytes m mix)))
        (sym (total_shares (m ∷ mix) b))
        (rw (not_zero (shares (m ∷ mix)) p)
          (in_spread (m ∷ mix) (hashed sha256 seed i) (last_bytes m mix) p b)),
  )
