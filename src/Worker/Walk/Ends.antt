-- ===== src/Worker/Walk/Ends.antt =====
-- pkg/worker/phases.go, acc.walk: it ends, unless two goroutines store errors of different types.
use io_stress.Common.{
  ℕ, ◌+◌, ◌-◌, ◌*◌, ◌<◌, ◌≡◌, ◌≢◌, refl, sym, ap, subst, ◌∙◌, ◌⊎◌, inl, inr, true, false, List, [],
  ◌∷◌, arith, if◌then◌else◌, length, dec_lt, Bool-cases, Option-cases, ℕ_discrete, List-cases,
}
use io_stress.Worker.Walk.{
  Walk, Fits, Step, cancel, leave, launch, succeed, fail_late, fail_first, store, crash, Reach,
  here, next_step, Waited,
}
use io_stress.Worker.Walk.Counts.{length-middle}

module _ {E : Type 0} (kind : E → ℕ) (end conc : ℕ) where
  -- What is left to do: three steps for an index that has no goroutine yet, two for a goroutine in
  -- its body, one for one with an error, and one for leaving the loop.
  abbrev pub work : Walk kind → ℕ
  work w =
      3 * (end - w.next) + 2 * length w.running + length w.storing + (if w.broken then 0 else 1)

  pub Step-shrinks :
      {w v : Walk kind}
      → Step kind end conc w v
      → (v ≡ record w { canceled = true }) ⊎ (work v < work w)
  Step-shrinks (cancel e) = inl e
  Step-shrinks {w} (leave c b lt e) = inr (rw e (rw b (omega arith)))
  Step-shrinks {w} (launch b lt room e) = inr (rw e (omega arith))
  Step-shrinks {w} (succeed i before after r e) =
      inr (rw e (omega (arith, ap length r, length-middle i before after)))
  Step-shrinks {w} (fail_late i before after old r f e) =
      inr (rw e (omega (arith, ap length r, length-middle i before after)))
  Step-shrinks {w} (fail_first i before after x r f e) =
      inr (rw e (omega (arith, ap length r, length-middle i before after)))
  Step-shrinks {w} (store i x before after s fits e) =
      inr (rw e (omega (arith, ap length s, length-middle (i, x) before after)))
  Step-shrinks {w} (crash i x old before after s f ne e) =
      inr (rw e (omega (arith, ap length s, length-middle (i, x) before after)))

  -- A step that does not cancel.
  abbrev Goes : Walk kind → Type 0
  Goes w = (v : Walk kind) × Step kind end conc w v × (work v < work w)

  stores :
      (w : Walk kind) (i : ℕ) (e : E) (rest : List (ℕ × E)) → w.storing ≡ (i, e) ∷ rest → Goes w
  stores w i e rest s = elim (Option-cases w.first) [
    | inl f ↦ (
      _,
      store i e [] rest s (subst (λ o. Fits kind o e) (sym f) tt) refl,
      omega (arith, ap length s),
    )
    | inr (old, f) ↦ elim (ℕ_discrete (kind old) (kind e)) [
      | yes same ↦ (
        _,
        store i e [] rest s (subst (λ o. Fits kind o e) (sym f) same) refl,
        omega (arith, ap length s),
      )
      | no differ ↦ (_, crash i e old [] rest s f differ refl, omega (arith, ap length s))
    ]
  ]

  -- With no goroutine left: the loop launches one more, or it is over.
  looped : (w : Walk kind) → 0 < conc → w.running ≡ [] → w.storing ≡ [] → Waited kind end w ⊎ Goes w
  looped w room r s = elim (dec_lt w.next end) [
    | no over ↦ inl (record { quiet = r; stored = s; looped = λ lt. absurd (over lt) })
    | yes lt ↦ elim (Bool-cases w.broken) [
      | inl b ↦ inl (record { quiet = r; stored = s; looped = λ _. b })
      | inr b ↦ inr (_, launch b lt (omega (arith, ap length r, ap length s)) refl, omega arith)
    ]
  ]

  goes : (w : Walk kind) → 0 < conc → Waited kind end w ⊎ Goes w
  goes w room = elim (List-cases w.running) [
    | inr (i, rest, r) ↦ inr (_, succeed i [] rest r refl, omega (arith, ap length r))
    | inl r ↦ elim (List-cases w.storing) [
      | inr ((i, e), rest, s) ↦ inr (stores w i e rest s)
      | inl s ↦ looped w room r s
    ]
  ]

-- A walk neither hangs nor runs on: unless it has waited for all, some step other than a cancel can
-- be made, and whatever step is made next either cancels or takes from the work that is left.
pub walk-ends :
    {E : Type 0} (kind : E → ℕ) (end conc : ℕ) (w v : Walk kind)
    → 0 < conc
    → Step kind end conc w v
    → (Waited kind end w
        ⊎ ((u : Walk kind) × Step kind end conc w u
            × (work kind end conc u < work kind end conc w)))
      × ((v ≡ record w { canceled = true }) ⊎ (work kind end conc v < work kind end conc w))
walk-ends kind end conc w v room s = (goes kind end conc w room, Step-shrinks kind end conc s)

-- Two goroutines that fail at the same time with errors of different concrete types can make walk
-- panic: both find no error stored, and the second value is refused.
pub walk-panics :
    {E : Type 0} (kind : E → ℕ) (start end conc : ℕ) (e f : E)
    → start + 1 < end
    → 1 < conc
    → kind e ≢ kind f
    → (w : Walk kind) × Reach kind start end conc w × (w.panicked ≡ true)
walk-panics kind start end conc e f two room differ =
    let r0 = here in
    let r1 = next_step r0 refl (launch refl (omega arith) (omega arith) refl) in
    let r2 = next_step r1 refl (launch refl (omega arith) (omega arith) refl) in
    let r3 = next_step r2 refl (fail_first (start + 1) [] (start ∷ []) e refl refl refl) in
    let r4 = next_step r3 refl (fail_first start [] [] f refl refl refl) in
    let r5 = next_step r4 refl (store (start + 1) e ((start, f) ∷ []) [] refl tt refl) in
    (_, next_step r5 refl (crash start f e [] [] refl refl differ refl), refl)

module _ {E : Type 0} (kind : E → ℕ) (end conc : ℕ) (one : (e f : E) → kind e ≡ kind f) where
  Step-calm : {w v : Walk kind} → Step kind end conc w v → w.panicked ≡ false → v.panicked ≡ false
  Step-calm (cancel e) ok = ap (λ w. w.panicked) e ∙ ok
  Step-calm (leave c b lt e) ok = ap (λ w. w.panicked) e ∙ ok
  Step-calm (launch b lt room e) ok = ap (λ w. w.panicked) e ∙ ok
  Step-calm (succeed i before after r e) ok = ap (λ w. w.panicked) e ∙ ok
  Step-calm (fail_late i before after old r f e) ok = ap (λ w. w.panicked) e ∙ ok
  Step-calm (fail_first i before after x r f e) ok = ap (λ w. w.panicked) e ∙ ok
  Step-calm (store i x before after s fits e) ok = ap (λ w. w.panicked) e ∙ ok
  Step-calm (crash i x old before after s f ne e) ok = absurd (ne (one old x))

-- Where all errors have one concrete type, no goroutine panics.
pub walk-calm :
    {E : Type 0} (kind : E → ℕ) (start end conc : ℕ) (w : Walk kind)
    → ((e f : E) → kind e ≡ kind f)
    → Reach kind start end conc w
    → w.panicked ≡ false
walk-calm kind start end conc w one here = refl
walk-calm kind start end conc w one (next_step r ok s) = Step-calm kind end conc one s ok
