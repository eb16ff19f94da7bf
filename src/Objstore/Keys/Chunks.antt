-- ===== src/Objstore/Keys/Chunks.antt =====
-- pkg/objstore/keys.go, Chunk: the batches of keys.
use mathlib.Core.List.{flatten}
use io_stress.Common.{
  ℕ, zero, suc, ◌+◌, ◌-◌, ◌≤◌, ◌<◌, ◌≡◌, refl, sym, List, [], ◌∷◌, arith, dec_lt, ltb, length, take,
  drop, length-take, length-drop, take-append-drop, take_clip, drop-drop, drop_of_le, if◌then◌else◌,
}
use io_stress.Common.Int.{ℤ, pos, negsuc}
use io_stress.Objstore.Keys.{batch_size, slice, chunk_from, chunk}

-- All batches but the last hold n keys, and the last holds between 1 and n.
abbrev pub Batches {ℓ} : {A : Type ℓ} → ℕ → List (List A) → Type 0
Batches n [] = Unit {0}
Batches n (b ∷ []) = (0 < length b) × (length b ≤ n)
Batches n (b ∷ (c ∷ bs)) = (length b ≡ n) × Batches n (c ∷ bs)

batch_size_pos : (n : ℤ) → 0 < batch_size n
batch_size_pos (pos zero) = omega arith
batch_size_pos (pos (suc n)) = omega arith
batch_size_pos (negsuc n) = omega arith

module _ {ℓ} {A : Type ℓ} where
  slice_clipped :
      (keys : List A) (i n : ℕ)
      → slice keys i (if ltb (length keys) (i + n) then length keys else i + n)
        ≡ take n (drop i keys)
  unfolding slice
  slice_clipped keys i n = take_clip _ n (drop i keys) (ground (arith, length-drop i keys))

  chunk_from-step :
      (fuel n : ℕ) (keys : List A) (i : ℕ)
      → i < length keys
      → chunk_from (suc fuel) n keys i ≡ take n (drop i keys) ∷ chunk_from fuel n keys (i + n)
  unfolding chunk_from
  chunk_from-step fuel n keys i h = ground (arith, slice_clipped keys i n)

  chunk_from-end :
      (fuel n : ℕ) (keys : List A) (i : ℕ) → length keys ≤ i → chunk_from fuel n keys i ≡ []
  unfolding chunk_from
  chunk_from-end zero n keys i h = refl
  chunk_from-end (suc fuel) n keys i h = ground arith

  flatten-chunk_from :
      (fuel n : ℕ) (keys : List A) (i : ℕ)
      → 0 < n
      → length keys ≤ fuel + i
      → flatten (chunk_from fuel n keys i) ≡ drop i keys
  unfolding flatten
  flatten-chunk_from zero n keys i h enough =
      rw (chunk_from-end zero n keys i (omega arith)) (sym (drop_of_le i keys (omega arith)))
  flatten-chunk_from (suc fuel) n keys i h enough = elim (dec_lt i (length keys)) [
    | yes more ↦ rw (chunk_from-step fuel n keys i more) (
        rw (flatten-chunk_from fuel n keys (i + n) h (omega arith), ← drop-drop i n keys)
          (take-append-drop n (drop i keys)))
    | no done ↦
        rw (chunk_from-end (suc fuel) n keys i (omega arith))
          (sym (drop_of_le i keys (omega arith)))
  ]

  Batches-cons :
      (n : ℕ) (b : List A) (bs : List (List A))
      → length b ≡ n
      → 0 < length (flatten bs)
      → Batches n bs
      → Batches n (b ∷ bs)
  unfolding flatten
  Batches-cons n b [] full more h = absurd (omega arith)
  Batches-cons n b (c ∷ bs) full more h = (full, h)

  chunk_from-Batches :
      (fuel n : ℕ) (keys : List A) (i : ℕ)
      → 0 < n
      → length keys ≤ fuel + i
      → Batches n (chunk_from fuel n keys i)
  chunk_from-Batches zero n keys i h enough = rw (chunk_from-end zero n keys i (omega arith)) tt
  chunk_from-Batches (suc fuel) n keys i h enough = elim (dec_lt i (length keys)) [
    | no done ↦ rw (chunk_from-end (suc fuel) n keys i (omega arith)) tt
    | yes more ↦
        let size = length-take n (drop i keys) in
        let rest_length : length (flatten (chunk_from fuel n keys (i + n)))
            ≡ length keys - (i + n) =
          rw (flatten-chunk_from fuel n keys (i + n) h (omega arith)) (length-drop (i + n) keys) in
        rw (chunk_from-step fuel n keys i more) (elim (dec_lt (i + n) (length keys)) [
          | yes again ↦
              Batches-cons n (take n (drop i keys)) (chunk_from fuel n keys (i + n))
                (omega (arith, size, length-drop i keys)) (omega (arith, rest_length))
                (chunk_from-Batches fuel n keys (i + n) h (omega arith))
          | no last ↦
              rw (chunk_from-end fuel n keys (i + n) (omega arith))
                (omega (arith, size, length-drop i keys))
        ])
  ]

  -- The batches in order hold exactly the keys in order; each but the last has the batch size, and
  -- the last is not empty and not larger. A size of zero or less stands for the limit of 1000.
  pub chunk-Batches :
      (keys : List A) (n : ℤ)
      → (flatten (chunk keys n) ≡ keys) × Batches (batch_size n) (chunk keys n)
  unfolding chunk
  chunk-Batches keys n = (
    flatten-chunk_from (length keys) (batch_size n) keys 0 (batch_size_pos n) (omega arith),
    chunk_from-Batches (length keys) (batch_size n) keys 0 (batch_size_pos n) (omega arith),
  )
