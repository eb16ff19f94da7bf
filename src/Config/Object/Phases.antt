-- ===== src/Config/Object/Phases.antt =====
-- pkg/config/object.go, OrderedPhases: a selection in the canonical order.
use io_stress.Common.{
  ◌≡◌, refl, sym, ap, subst, ◌∙◌, inl, inr, true, false, ◌&&◌, ◌||◌, Bool-cases, String, List, [],
  ◌∷◌, map, str_eq, eq_iff, arith,
}
use io_stress.Config.Object.{
  Texts, ordered, refused, Wanted, wanted, unknown, also, object_phases, known_phase, listed, pick,
  want_step, want_of, ordered_of, ordered_phases,
}

no_blank : (p : String) → known_phase p ≡ true → str_eq p "" ≡ false
unfolding listed
no_blank p k = elim (Bool-cases (str_eq p "")) [
  | inr n ↦ n
  | inl z ↦
      let known : known_phase "" ≡ true = subst (λ q. known_phase q ≡ true) ((eq_iff p "").0 z) k in
      absurd (cc)
]

listed-pick :
    (p : String) (all want : List String)
    → listed p (pick all want) ≡ (listed p all && listed p want)
unfolding listed pick
listed-pick p [] want = refl
listed-pick p (q ∷ all) want = elim (Bool-cases (str_eq p q)) [
  | inl e ↦
      let same : p ≡ q = (eq_iff p q).0 e in
      elim (Bool-cases (listed q want)) [
        | inl w ↦ rw (w, e) (subst (λ k. true ≡ listed k want) (sym same) (sym w))
        | inr w ↦
            let out : listed p want ≡ false = subst (λ k. listed k want ≡ false) (sym same) w in
            rw w (ground (arith, listed-pick p all want, out, e))
      ]
  | inr e ↦ elim (Bool-cases (listed q want)) [
    | inl w ↦ rw (w, e) (listed-pick p all want)
    | inr w ↦ rw (w, e) (listed-pick p all want)
  ]
]

wanted_inj : {xs ys : List String} → wanted xs ≡ wanted ys → xs ≡ ys
wanted_inj {xs} e = ap (λ w. elim w [ wanted zs ↦ zs | unknown p ↦ xs ]) e

-- What a step adds to the wanted phases, as a known phase p sees it.
abbrev Adds : String → String → Wanted → List String → Type 0
Adds p t r want =
    (rest : List String) × (r ≡ wanted rest) × (listed p want ≡ (str_eq p t || listed p rest))

also-Adds :
    (p t : String) (r : Wanted) (want : List String) → also t r ≡ wanted want → Adds p t r want
unfolding listed
also-Adds p t (unknown q) want e = cc
also-Adds p t (wanted rest) want e = (rest, refl, ap (λ w. listed p w) (sym (wanted_inj e)))

want_step-Adds :
    (p t : String) (r : Wanted) (want : List String)
    → known_phase p ≡ true
    → want_step t r ≡ wanted want
    → Adds p t r want
unfolding want_step
want_step-Adds p t r want k e = elim (Bool-cases (str_eq t "")) [
  | inl z ↦
      let blank : t ≡ "" = (eq_iff t "").0 z in
      let other : str_eq p t ≡ false = ground (arith, blank, eq_iff p t, no_blank p k) in
      (want, (rw z at e), rw other refl)
  | inr n ↦ elim (Bool-cases (known_phase t)) [
    | inl known ↦ also-Adds p t r want (rw (n, known) at e)
    | inr un ↦ let bad : unknown t ≡ wanted want = (rw (n, un) at e) in cc
  ]
]

module _ (go : Texts) where
  open go use {trim_space}

  -- The wanted phases are those of the selection.
  want_of-listed :
      (p : String) (selected want : List String)
      → known_phase p ≡ true
      → want_of go selected ≡ wanted want
      → listed p want ≡ listed p (map trim_space selected)
  unfolding want_of listed
  want_of-listed p [] want k e = ap (λ w. listed p w) (sym (wanted_inj e))
  want_of-listed p (s ∷ selected) want k e =
      let (rest, r, adds) = want_step-Adds p (trim_space s) (want_of go selected) want k e in
      adds ∙ ap (λ b. str_eq p (trim_space s) || b) (want_of-listed p selected rest k r)

  ordered_inj : {xs ys : List String} → ordered xs ≡ ordered ys → xs ≡ ys
  ordered_inj {xs} e = ap (λ w. elim w [ ordered zs ↦ zs | refused p ↦ xs ]) e

  ordered_of-pick :
      (w : Wanted) (ps : List String)
      → ordered_of go w ≡ ordered ps
      → (want : List String) × (w ≡ wanted want) × (ps ≡ pick object_phases want)
  unfolding ordered_of
  ordered_of-pick (unknown p) ps e = cc
  ordered_of-pick (wanted []) ps e = cc
  ordered_of-pick (wanted (p ∷ want)) ps e = (p ∷ want, refl, sym (ordered_inj e))

  -- The phases that OrderedPhases answers for a selection that is not empty, in the canonical order,
  -- are exactly those known ones that the selection names once trimmed.
  pub ordered_phases-listed :
      (s : String) (selected ps : List String)
      → ordered_phases go (s ∷ selected) ≡ ordered ps
      → (want : List String) × (ps ≡ pick object_phases want)
        × ((p : String) → listed p ps ≡ (known_phase p && listed p (map trim_space (s ∷ selected))))
  unfolding ordered_phases
  ordered_phases-listed s selected ps e =
      let (want, w, picked) = ordered_of-pick (want_of go (s ∷ selected)) ps e in
      (
        want,
        picked,
        λ p. ap (λ l. listed p l) picked ∙ listed-pick p object_phases want ∙ in_selection p want w,
      )
    where
      in_selection :
          (p : String) (want : List String)
          → want_of go (s ∷ selected) ≡ wanted want
          → (known_phase p && listed p want)
            ≡ (known_phase p && listed p (map trim_space (s ∷ selected)))
      in_selection p want w = elim (Bool-cases (known_phase p)) [
        | inl k ↦ ap (λ b. known_phase p && b) (want_of-listed p (s ∷ selected) want k w)
        | inr n ↦ rw n refl
      ]
