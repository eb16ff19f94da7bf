-- ===== src/Objstore/Retry/Errors.antt =====
-- pkg/objstore/client.go, the classes of errors: which S3 answers are tried again.
use io_stress.Common.{
  ℕ, ◌≡◌, refl, sym, subst, inl, inr, ◌⊎◌, Bool, true, false, not, ◌&&◌, ◌||◌, String, str_eq,
  eq_iff, arith, List, [], ◌∷◌, Bool-cases,
}
use io_stress.Objstore.Retry.{
  Err, api_code, one_of, transient_codes, final_codes, capacity_codes, unsupported_codes, retryable,
  is_capacity, is_unsupported,
}

-- Whether each code of a list is one of another and none of a third.
all_of : List String → List String → List String → Bool
all_of [] ys zs = true
all_of (x ∷ xs) ys zs = one_of x ys && (not (one_of x zs) && all_of xs ys zs)

one_of-all_of :
    (c : String) (xs ys zs : List String)
    → all_of xs ys zs ≡ true
    → one_of c xs ≡ true
    → (one_of c ys ≡ true) × (one_of c zs ≡ false)
unfolding all_of one_of
one_of-all_of c [] ys zs h m = cc
one_of-all_of c (x ∷ xs) ys zs h m = elim (Bool-cases (str_eq c x)) [
  | inl e ↦
      let same : x ≡ c = sym ((eq_iff c x).0 e) in
      subst (λ k. (one_of k ys ≡ true) × (one_of k zs ≡ false)) same (ground arith)
  | inr e ↦ one_of-all_of c xs ys zs (ground arith) (ground arith)
]

final-transient : (c : String) → one_of c final_codes ≡ true → one_of c transient_codes ≡ false
unfolding all_of one_of
final-transient c h = (one_of-all_of c final_codes final_codes transient_codes refl h).1

capacity-final : (c : String) → one_of c capacity_codes ≡ true → one_of c final_codes ≡ true
unfolding all_of one_of
capacity-final c h = (one_of-all_of c capacity_codes final_codes [] refl h).0

unsupported-final : (c : String) → one_of c unsupported_codes ≡ true → one_of c final_codes ≡ true
unfolding all_of one_of
unsupported-final c h = (one_of-all_of c unsupported_codes final_codes [] refl h).0

-- The error is an answer of the server, with nothing of a broken connection in its chain.
abbrev answered : Err → Bool
answered e = not (e.deadline || e.ended || e.net_timeout || e.net_op)

module _ (show : ℕ → String) where
  final-retryable :
      (e : Err)
      → answered e ≡ true
      → one_of (api_code show e) final_codes ≡ true
      → retryable show e ≡ false
  unfolding retryable
  final-retryable e a f = ground (arith, final-transient (api_code show e) f)

  -- An answer of the server is not tried again if it says that the cluster is full, or that the
  -- call is unsupported (by code, or by status under a code that is not a transient one).
  pub answered-retryable :
      (e : Err)
      → answered e ≡ true
      → (is_capacity show e ≡ true)
        ⊎ ((is_unsupported show e ≡ true) × (one_of (api_code show e) transient_codes ≡ false))
      → retryable show e ≡ false
  unfolding is_capacity is_unsupported
  answered-retryable e a (inl full) = final-retryable e a (capacity-final (api_code show e) full)
  answered-retryable e a (inr (un, t)) =
      elim (Bool-cases (one_of (api_code show e) unsupported_codes)) [
        | inl code ↦ final-retryable e a (unsupported-final (api_code show e) code)
        | inr other ↦ unfold retryable in ground arith
      ]
