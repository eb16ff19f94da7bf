-- ===== src/Objstore/Stream.antt =====
-- pkg/objstore/payload.go: PayloadReader and Hit. The digest, the stream cipher and float64 are
-- parameters.
use io_stress.Common.{
  ℕ, ◌%◌, Bool, true, false, List, [], ◌∷◌, ◌++◌, none, if◌then◌else◌, take, ◌≡◌, refl, inl, arith,
}
use mathlib.Core.List.{append-nil}
use io_stress.Objstore.Reader.{content}
use io_stress.Objstore.Reader.Laws.{Steady}
use io_stress.Common.Int.{ℤ, to_u64, at_least_zero}
use io_stress.Objstore.Reader.{Reader}
use io_stress.Objstore.Payload.{big_endian, from_big_endian}

-- float64, as far as percentages need it.
pub record Percents : Type 1 where
  pub F : Type 0
  pub nought : F
  pub one : F
  pub hundred : F
  pub at_most : F → F → Bool
  pub less : F → F → Bool
  pub thousandths : ℕ → F  -- float64(v) / 1000.0

-- What a digest of a key starts with: the seed and the bucket's ordinal.
unfoldable pub headed : List ℕ → ℤ → List ℕ → List ℕ
unfolding big_endian
headed seed ordinal rest = seed ++ (big_endian 8 (to_u64 ordinal) ++ rest)

-- io.LimitReader of a reader that never ends: every buffer is filled as far as the limit allows.
abbrev pub full_reader : List ℕ → Reader
full_reader [] = []
full_reader (b ∷ bs) = record { bytes = b ∷ bs; err = none } ∷ []

-- `chacha key n` is the first n bytes of math/rand/v2's ChaCha8 stream.
module _ (sha256 : List ℕ → List ℕ) (chacha : List ℕ → ℕ → List ℕ) where
  -- PayloadReader
  unfoldable pub payload_reader : List ℕ → ℤ → List ℕ → ℤ → ℤ → Reader
  unfolding headed
  payload_reader seed ordinal key version size =
      let seeded = sha256 (headed seed ordinal (key ++ big_endian 8 (to_u64 version))) in
      full_reader (chacha seeded (at_least_zero size))

module _ (sha256 : List ℕ → List ℕ) (fl : Percents) where
  open fl use {F, nought, hundred, at_most, less, thousandths}

  -- Hit
  unfoldable pub hit : List ℕ → ℤ → List ℕ → List ℕ → F → Bool
  unfolding headed from_big_endian
  hit seed ordinal key salt pct =
      let sum = sha256 (headed seed ordinal (key ++ salt)) in
      let v = from_big_endian (take 4 sum) 0 in
      if at_most pct nought
      then false
      else if at_most hundred pct
      then true
      else less (thousandths (v % 100000)) pct

pub content-full_reader : (bs : List ℕ) → content (full_reader bs) ≡ bs
content-full_reader [] = refl
content-full_reader (b ∷ bs) = append-nil (b ∷ bs)

pub full_reader-Steady : (bs : List ℕ) → Steady (full_reader bs)
full_reader-Steady [] = tt
full_reader-Steady (b ∷ bs) = inl (refl, omega arith, tt)
