-- ===== src/Objstore/Etag/Quotes.antt =====
-- pkg/objstore/etag.go, NormalizeETag: quotes go, and nothing else.
use io_stress.Common.{
  ℕ, suc, ◌-◌, ◌≡◌, refl, ap, List, [], ◌∷◌, ◌++◌, arith, le→leb, length, length-append, get_or,
  take,
}
use io_stress.Objstore.Etag.{quote, normalize_etag}

get_or-last : (s : List ℕ) (q : ℕ) → get_or (s ++ q ∷ []) (length s) 0 ≡ q
get_or-last [] q = refl
get_or-last (x ∷ s) q = get_or-last s q

take-front : (s t : List ℕ) → take (length s) (s ++ t) ≡ s
take-front [] t = refl
take-front (x ∷ s) t = ap (λ l. x ∷ l) (take-front s t)

length_quoted : (s : List ℕ) → length (s ++ quote ∷ []) ≡ suc (length s)
length_quoted s = omega (arith, length-append s (quote ∷ []))

less_one : (n : ℕ) → suc (suc n) - 1 ≡ suc n
less_one n = omega arith

less_two : (n : ℕ) → suc (suc n) - 2 ≡ n
less_two n = omega arith

-- Quotes put around any text, quotes in it included, are what NormalizeETag takes off.
pub normalize_etag-quoted : (s : List ℕ) → normalize_etag (quote ∷ (s ++ quote ∷ [])) ≡ s
unfolding normalize_etag
normalize_etag-quoted s =
    rw
      (
        length_quoted s,
        less_one (length s),
        less_two (length s),
        get_or-last s quote,
        le→leb 2 (suc (suc (length s))) (omega arith),
      )
      (take-front s (quote ∷ []))
