-- ===== src/Objstore/Keys/Names.antt =====
-- pkg/objstore/keys.go, Key and DeletePath: a key determines its index, and every bucket has its
-- delete path.
use native.Mathlib.Nat.{pow-suc}
use io_stress.Common.{
  ℕ, zero, suc, ◌+◌, ◌-◌, ◌*◌, ◌/◌, ◌%◌, ◌^◌, ◌≤◌, ◌<◌, ◌≡◌, refl, sym, ap, ◌∙◌, some, List, [],
  ◌∷◌, ◌++◌, String, arith, eq_iff, ne→str_eq, u64_mod, ◌≢◌, dec_lt, inl, inr, ◌⊎◌, lt→ltb,
  not-lt→ltb, ◌==◌, length, replicate, if◌then◌else◌,
}
use io_stress.Common.Int.{pos}
use io_stress.Objstore.Keys.{
  digits, pad16, hex_byte, slash, flat_key, deep_key, hashed_key, key, delete_path,
}

-- Reads the number behind the last slash of a key.
index_from : ℕ → List ℕ → ℕ
index_from acc [] = acc
index_from acc (c ∷ cs) = index_from (if c == slash then 0 else acc * 10 + (c - b'0')) cs

index_from-slash : (acc : ℕ) (xs ys : List ℕ) → index_from acc (xs ++ slash ∷ ys) ≡ index_from 0 ys
unfolding index_from
index_from-slash acc [] ys = refl
index_from-slash acc (x ∷ xs) ys =
    index_from-slash (if x == slash then 0 else acc * 10 + (x - b'0')) xs ys

index_from-zeros : (n : ℕ) (ys : List ℕ) → index_from 0 (replicate n b'0' ++ ys) ≡ index_from 0 ys
unfolding index_from
index_from-zeros zero ys = refl
index_from-zeros (suc n) ys = index_from-zeros n ys

index_from-digit :
    (acc d : ℕ) (rest : List ℕ)
    → d < 10
    → index_from acc ((b'0' + d) ∷ rest) ≡ index_from (acc * 10 + d) rest
unfolding index_from
index_from-digit acc d rest h = ap (λ a. index_from a rest) (ground arith)

-- Reading the printed digits, then what was behind them.
index_from-digits :
    (fuel n : ℕ) (rest : List ℕ)
    → n < 10 ^ fuel
    → index_from 0 (digits fuel n rest) ≡ index_from n rest
unfolding digits
index_from-digits zero n rest h = let e : n ≡ 0 = omega arith in rw e
index_from-digits (suc fuel) n rest h = elim (dec_lt n 10) [
  | yes small ↦
      rw (lt→ltb n 10 small)
        (index_from-digit 0 n rest small ∙ ap (λ a. index_from a rest) (omega arith))
  | no large ↦ rw (not-lt→ltb n 10 large) (
      index_from-digits fuel (n / 10) ((b'0' + n % 10) ∷ rest) (omega (arith, pow-suc 10 fuel))
      ∙ index_from-digit (n / 10) (n % 10) rest (omega arith)
      ∙ ap (λ a. index_from a rest) (omega arith))
]

index_from-pad16 : (i : ℕ) → i < 10 ^ 20 → index_from 0 (pad16 i) ≡ i
unfolding pad16 index_from
index_from-pad16 i h =
    index_from-zeros (16 - length (digits 20 i [])) (digits 20 i []) ∙ index_from-digits 20 i [] h

index_from-flat :
    (prefix : List ℕ) (i : ℕ) → i < 10 ^ 20 → index_from 0 (flat_key prefix (pad16 i)) ≡ i
unfolding flat_key
index_from-flat prefix i h = index_from-slash 0 prefix (pad16 i) ∙ index_from-pad16 i h

index_from-hashed :
    (prefix : List ℕ) (x i : ℕ) → i < 10 ^ 20 → index_from 0 (hashed_key prefix x (pad16 i)) ≡ i
unfolding hashed_key
index_from-hashed prefix x i h =
    index_from-slash 0 prefix _ ∙ index_from-slash 0 (hex_byte x) (pad16 i) ∙ index_from-pad16 i h

index_from-deep :
    (prefix : List ℕ) (x i : ℕ) → i < 10 ^ 20 → index_from 0 (deep_key prefix x (pad16 i)) ≡ i
unfolding deep_key
index_from-deep prefix x i h =
    index_from-slash 0 prefix _
    ∙ index_from-slash 0 (hex_byte (x / 65536 % 256)) _
    ∙ index_from-slash 0 (hex_byte (x / 256 % 256)) _
    ∙ index_from-slash 0 (hex_byte (x % 256)) (pad16 i)
    ∙ index_from-pad16 i h

-- A key ends in a slash and the index.
index_from-key :
    (first_sha_byte : List ℕ → ℕ) (layout : String) (prefix : List ℕ) (i : ℕ) (k : List ℕ)
    → i < 10 ^ 20
    → key first_sha_byte layout prefix i ≡ some k
    → index_from 0 k ≡ i
index_from-key f layout prefix i k h e =
    unfold key in
    ground (
      arith,
      index_from-flat prefix i h,
      index_from-deep prefix i i h,
      index_from-hashed prefix (f (pad16 i)) i h,
    )

-- Two uint64 indices with the same key are the same, in every layout.
pub key-injective :
    (first_sha_byte : List ℕ → ℕ) (layout : String) (prefix : List ℕ) (i j : ℕ) (k : List ℕ)
    → i < u64_mod
    → j < u64_mod
    → key first_sha_byte layout prefix i ≡ some k
    → key first_sha_byte layout prefix j ≡ some k
    → i ≡ j
key-injective f layout prefix i j k hi hj ei ej =
    sym (index_from-key f layout prefix i k (omega arith) ei)
    ∙ index_from-key f layout prefix j k (omega arith) ej

-- In a mode other than `recursive` and `obc-only`, a single bucket is left to the finalizer, and
-- with more buckets the paths alternate.
pub delete_path-alternates :
    (mode : String) (ordinal : ℕ) (buckets : ℕ)
    → mode ≢ "recursive"
    → mode ≢ "obc-only"
    → ((buckets ≤ 1) × (delete_path mode (pos ordinal) (pos buckets) ≡ "obc-only"))
      ⊎ ((1 < buckets)
          × (delete_path mode (pos ordinal) (pos buckets)
              ≢ delete_path mode (pos (ordinal + 1)) (pos buckets)))
unfolding delete_path
delete_path-alternates mode ordinal buckets a b =
    rw (ne→str_eq mode "recursive" a, ne→str_eq mode "obc-only" b)
      (elim (dec_lt 1 buckets) [
        | yes many ↦
            inr (many, ground (arith, eq_iff "recursive" "obc-only", eq_iff "obc-only" "recursive"))
        | no one ↦ inl (omega arith, ground (arith, eq_iff "recursive" "obc-only"))
      ])
