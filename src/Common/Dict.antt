-- ===== src/Common/Dict.antt =====
-- Go's map[string]V as the list of its entries: one for each key, oldest first.
use io_stress.Common.Tests.{if◌then◌else◌}
use Prim.Native.String.{String}
use mathlib.Core.Path.{◌≡◌, refl}
use mathlib.Core.Option.{Option, none, some}
use mathlib.Core.List.{List, [], ◌∷◌}
use native.Mathlib.Omega.{arith}
use text.Mathlib.Text.{◌==◌}
use text.Mathlib.TextEquality.{eq_iff}

module _ {ℓ} {V : Type ℓ} where
  unfoldable pub lookup : String → List (String × V) → Option V
  lookup key [] = none
  lookup key (entry ∷ entries) =
      let later = lookup key entries in if entry.0 == key then some entry.1 else later

  -- m[key] = value
  unfoldable pub insert : String → V → List (String × V) → List (String × V)
  insert key value [] = (key, value) ∷ []
  insert key value (entry ∷ entries) =
      let deeper = entry ∷ insert key value entries in
      if entry.0 == key then (entry.0, value) ∷ entries else deeper

  pub lookup-insert :
      (new asked : String) (value : V) (entries : List (String × V))
      → lookup asked (insert new value entries)
        ≡ (if new == asked then some value else lookup asked entries)
  unfolding lookup insert
  lookup-insert new asked value [] = refl
  lookup-insert new asked value ((held, old) ∷ entries) =
      let rest = lookup-insert new asked value entries in
      ground (arith, rest, eq_iff held asked, eq_iff new asked, eq_iff held new)

-- m[key], which is the zero value where the key is missing.
abbrev pub get_or {ℓ} : {V : Type ℓ} → String → V → List (String × V) → V
get_or key d entries = elim (lookup key entries) [ none ↦ d | some value ↦ value ]
