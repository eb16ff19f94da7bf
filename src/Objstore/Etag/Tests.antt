-- ===== src/Objstore/Etag/Tests.antt =====
-- pkg/objstore/etag.go: runs with a digest that gives the length.
use io_stress.Common.{
  ℕ, ◌+◌, ◌≡◌, refl, true, false, List, [], ◌∷◌, ◌++◌, map, none, some, arith, length,
}
use io_stress.Common.Int.{pos}
use io_stress.Objstore.Etag.{
  quote, normalize_etag, concat, cut_parts, multipart_etag, expected_etag,
}
use io_stress.Objstore.Etag.Quotes.{normalize_etag-quoted}
use io_stress.Objstore.Etag.Parts.{Sized, expected_etag-parts}

abbrev sum : List ℕ → List ℕ
sum bs = length bs ∷ []

abbrev one_digit : ℕ → List ℕ
one_digit n = (48 + n) ∷ []

two_and_one :
    cut_parts 5 5 2 (1 ∷ 2 ∷ 3 ∷ 4 ∷ 5 ∷ []) ≡ some ((1 ∷ 2 ∷ []) ∷ (3 ∷ 4 ∷ []) ∷ (5 ∷ []) ∷ [])
unfolding cut_parts
two_and_one = refl

-- A part that the payload cannot fill is an error.
short_body : cut_parts 3 3 2 (1 ∷ []) ≡ none
unfolding cut_parts
short_body = refl

bare_tag : normalize_etag (quote ∷ []) ≡ quote ∷ []
unfolding normalize_etag
bare_tag = refl

normalize_etag-quoted_example :
    normalize_etag (quote ∷ (quote ∷ 65 ∷ []) ++ quote ∷ []) ≡ quote ∷ 65 ∷ []
normalize_etag-quoted_example = normalize_etag-quoted (quote ∷ 65 ∷ [])

expected_etag-parts_example :
    (ps : List (List ℕ)) × (concat ps ≡ 1 ∷ 2 ∷ 3 ∷ [])
    × Sized 2 ps
    × (expected_etag sum one_digit (1 ∷ 2 ∷ 3 ∷ []) (pos 3) (pos 2) true
        ≡ some (multipart_etag sum one_digit (map sum ps), false))
expected_etag-parts_example =
    expected_etag-parts sum one_digit (1 ∷ 2 ∷ 3 ∷ []) 2 (omega arith) (omega arith)
