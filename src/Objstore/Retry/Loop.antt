-- ===== src/Objstore/Retry/Loop.antt =====
-- pkg/objstore/client.go, withRetry: which rounds go on, how the loop ends, and what it notes.
use io_stress.Common.{
  ℕ, zero, suc, ◌+◌, ◌≤◌, ◌<◌, ◌≡◌, refl, sym, ap, subst, ◌∙◌, inl, inr, ◌⊎◌, true, false, not,
  ◌||◌, String, Option, none, some, Bool-cases, Option-cases, leb, le→leb, not-le→leb, dec_le,
  ℕ_discrete, arith,
}
use io_stress.Common.Int.{pos}
use io_stress.Objstore.Stats.{Floats, Stats, observe, note_retry, note_error}
use io_stress.Objstore.Retry.{
  Err, Attempt, Ending, returned, panicked, api_code, retryable, backoff, slept, after_failure,
  round, next_of, retry_from, with_retry,
}
use io_stress.Objstore.Retry.Backoff.{backoff-some, backoff-overflow}

module _ (fl : Floats) (show : ℕ → String) (op : String) where
  -- The call fails in a way that is worth a retry.
  pub record Retried (a : Attempt) (e : Err) : Type 0 where
    pub before : a.ended_before ≡ none
    pub failure : a.result ≡ some e
    pub worth : retryable show e ≡ true

  -- The stats after a call, and after the note of its retry.
  abbrev called : Attempt → Stats fl → Stats fl
  called a s = observe fl op a.took s

  abbrev pub noted : Attempt → Err → Stats fl → Stats fl
  noted a e s = note_retry fl (api_code show e) e.request_id (called a s)

  -- How a round ends the loop, with the stats it leaves.
  pub data Ended (max n : ℕ) (a : Attempt) (s : Stats fl) : Ending → Stats fl → Type 0 where
    cut_short : (x : Err) → a.ended_before ≡ some x → Ended max n a s (returned (some x)) s
    succeeded :
        a.ended_before ≡ none → a.result ≡ none → Ended max n a s (returned none) (called a s)
    given_up :
        (e : Err)
        → a.ended_before ≡ none
        → a.result ≡ some e
        → (retryable show e ≡ false) ⊎ (max ≤ n)
        → Ended max n a s
            (returned (some e))
            (note_error fl (api_code show e) e.request_id (called a s))
    cut_waiting :
        (e x : Err) (d : ℕ)
        → Retried a e
        → n < max
        → backoff a.random n ≡ some d
        → a.ended_waiting ≡ some x
        → Ended max n a s (returned (some x)) (noted a e s)
    overflowed :
        (e : Err)
        → Retried a e
        → n < max
        → backoff a.random n ≡ none
        → Ended max n a s panicked (noted a e s)

  -- A round that goes on to the next.
  pub data GoesOn (max n : ℕ) (a : Attempt) (s : Stats fl) : Stats fl → Type 0 where
    waited :
        (e : Err) (d : ℕ)
        → Retried a e
        → n < max
        → backoff a.random n ≡ some d
        → a.ended_waiting ≡ none
        → GoesOn max n a s (noted a e s)

  -- Rounds from n to m, each going on to the next.
  pub data Rounds (max : ℕ) (env : ℕ → Attempt) : ℕ → Stats fl → ℕ → Stats fl → Type 0 where
    here : (n : ℕ) (s : Stats fl) → Rounds max env n s n s
    further :
        (n m : ℕ) (s t u : Stats fl)
        → GoesOn max n (env n) s t
        → Rounds max env (suc n) t m u
        → Rounds max env n s m u

  -- What a round comes to.
  abbrev Outcome : ℕ → ℕ → Attempt → Stats fl → Type 0
  Outcome max n a s =
      ((x : Ending) × (t : Stats fl) × (round fl show op max n a s ≡ (some x, t))
        × Ended max n a s x t)
      ⊎ ((t : Stats fl) × (round fl show op max n a s ≡ (none, t)) × GoesOn max n a s t)

  round_gives_up :
      (max n : ℕ) (a : Attempt) (s : Stats fl) (e : Err)
      → a.ended_before ≡ none
      → a.result ≡ some e
      → (not (retryable show e) || leb max n) ≡ true
      → round fl show op max n a s
        ≡ (some (returned (some e)), note_error fl (api_code show e) e.request_id (called a s))
  unfolding round after_failure
  round_gives_up max n a s e b r t = rw (b, r, t) refl

  round_retries :
      (max n : ℕ) (a : Attempt) (s : Stats fl) (e : Err)
      → Retried a e
      → leb max n ≡ false
      → round fl show op max n a s ≡ (slept (backoff a.random n) a.ended_waiting, noted a e s)
  unfolding round after_failure
  round_retries max n a s e r t = rw (r.before, r.failure, r.worth, t) refl

  round-Retried :
      (max n : ℕ) (a : Attempt) (s : Stats fl) (e : Err) → Retried a e → n < max → Outcome max n a s
  unfolding slept
  round-Retried max n a s e r lt =
      let eq = round_retries max n a s e r (not-le→leb max n (omega arith)) in
      elim (Option-cases (backoff a.random n)) [
        | inl o ↦ inl (panicked, noted a e s, eq ∙ rw o refl, overflowed e r lt o)
        | inr (d, o) ↦ elim (Option-cases a.ended_waiting) [
          | inl w ↦ inr (noted a e s, eq ∙ rw (o, w) refl, waited e d r lt o w)
          | inr (x, w) ↦
              inl (returned (some x), noted a e s, eq ∙ rw (o, w) refl, cut_waiting e x d r lt o w)
        ]
      ]

  round_lem : (max n : ℕ) (a : Attempt) (s : Stats fl) → Outcome max n a s
  unfolding round
  round_lem max n a s = elim (Option-cases a.ended_before) [
    | inr (x, b) ↦ inl (returned (some x), s, rw b refl, cut_short x b)
    | inl b ↦ elim (Option-cases a.result) [
      | inl r ↦ inl (returned none, called a s, rw (b, r) refl, succeeded b r)
      | inr (e, r) ↦ elim (Bool-cases (retryable show e)) [
        | inr vain ↦
            inl (_, _, round_gives_up max n a s e b r (rw vain refl), given_up e b r (inl vain))
        | inl worth ↦ elim (dec_le max n) [
          | yes le ↦ inl (
            _,
            _,
            round_gives_up max n a s e b r (rw (worth, le→leb max n le) refl),
            given_up e b r (inr le),
          )
          | no gt ↦
              round-Retried max n a s e (record { before = b; failure = r; worth = worth })
                (omega arith)
        ]
      ]
    ]
  ]

  -- The rounds before the last, and how that one ends.
  pub record Run (max : ℕ) (env : ℕ → Attempt) (n : ℕ) (s : Stats fl) (x : Ending) (u : Stats fl)
      : Type 0 where
    pub last : ℕ
    pub stats : Stats fl
    pub rounds : Rounds max env n s last stats
    pub at_most : last ≤ max
    pub ending : Ended max last (env last) stats x u

  below_max : {max n : ℕ} {a : Attempt} {s t : Stats fl} → GoesOn max n a s t → n < max
  below_max (waited e d r lt o w) = lt

  retry_from-round :
      (fuel max : ℕ) (env : ℕ → Attempt) (n : ℕ) (s : Stats fl) (m : Option Ending × Stats fl)
      → round fl show op max n (env n) s ≡ m
      → retry_from fl show (suc fuel) op max env n s
        ≡ next_of fl show m (retry_from fl show fuel op max env (suc n) m.1)
  unfolding retry_from
  retry_from-round fuel max env n s m e =
      ap (λ m. next_of fl show m (retry_from fl show fuel op max env (suc n) m.1)) e

  retry_from-Run :
      (fuel max : ℕ) (env : ℕ → Attempt) (n : ℕ) (s : Stats fl)
      → n + fuel ≡ suc max
      → n ≤ max
      → (x : Ending) × (u : Stats fl) × (retry_from fl show fuel op max env n s ≡ some (x, u))
        × Run max env n s x u
  unfolding retry_from next_of
  retry_from-Run zero max env n s e h = absurd (omega arith)
  retry_from-Run (suc fuel) max env n s e h = elim (round_lem max n (env n) s) [
    | inl (x, t, eq, ended) ↦ (
      x,
      t,
      retry_from-round fuel max env n s _ eq,
      record { last = n; stats = s; rounds = here n s; at_most = h; ending = ended },
    )
    | inr (t, eq, on) ↦
        let (x, u, eq', run) = retry_from-Run fuel max env (suc n) t (omega arith) (below_max on) in
        (
          x,
          u,
          retry_from-round fuel max env n s _ eq ∙ eq',
          record {
            last = run.last;
            stats = run.stats;
            rounds = further n run.last s t run.stats on run.rounds;
            at_most = run.at_most;
            ending = run.ending;
          },
        )
  ]

  -- withRetry always ends, whatever the calls return. At most as many rounds as the retries allowed
  -- go on, each after a failure worth a retry, a note of it and a wait. The last round ends the loop:
  -- on a context that is done, on success, on an error not worth a retry or past the last retry,
  -- which is noted as final, or in the panic of a backoff that overflows.
  pub with_retry-Run :
      (max : ℕ) (env : ℕ → Attempt) (s : Stats fl)
      → (x : Ending) × (u : Stats fl) × (with_retry fl show (pos max) op env s ≡ some (x, u))
        × Run max env 0 s x u
  unfolding with_retry
  with_retry-Run max env s = retry_from-Run (suc max) max env 0 s (omega arith) (omega arith)

  at_end_returned :
      {max n : ℕ} {a : Attempt} {s : Stats fl} {x : Ending} {u : Stats fl}
      → n ≤ max
      → max ≤ 36
      → Ended max n a s x u
      → (r : Option Err) × (x ≡ returned r)
  at_end_returned h small (cut_short x b) = (some x, refl)
  at_end_returned h small (succeeded b r) = (none, refl)
  at_end_returned h small (given_up e b r why) = (some e, refl)
  at_end_returned h small (cut_waiting e x d r lt o w) = (some x, refl)
  at_end_returned {n = n} {a = a} h small (overflowed e r lt o) =
      let (d, ok) = backoff-some a.random n (omega arith) in cc

  -- With up to 36 retries withRetry returns: the backoff of none of them panics.
  pub with_retry-returns :
      (max : ℕ) (env : ℕ → Attempt) (s : Stats fl)
      → max ≤ 36
      → (r : Option Err) × (u : Stats fl) × (with_retry fl show (pos max) op env s
          ≡ some (returned r, u))
  with_retry-returns max env s small =
      let (x, u, eq, run) = with_retry-Run max env s in
      let (r, at) = at_end_returned run.at_most small run.ending in (r, u, rw at at eq)

  -- An outage of 37 calls: each of them fails in a way worth a retry, and the context is not done
  -- before any of them, nor in the waits between them. Of the attempts after them nothing is asked.
  pub record Outage (env : ℕ → Attempt) : Type 0 where
    pub err : ℕ → Err
    pub failing : (n : ℕ) → n ≤ 36 → Retried (env n) (err n)
    pub patient : (n : ℕ) → n < 36 → (env n).ended_waiting ≡ none

  retry_from-overflows :
      (fuel max : ℕ) (env : ℕ → Attempt) (n : ℕ) (s : Stats fl)
      → Outage env
      → n ≤ 36
      → 36 < max
      → 36 < n + fuel
      → (u : Stats fl) × (retry_from fl show fuel op max env n s ≡ some (panicked, u))
  unfolding retry_from next_of slept
  retry_from-overflows zero max env n s out h large fuelled = absurd (omega arith)
  retry_from-overflows (suc fuel) max env n s out h large fuelled =
      let r = out.failing n h in
      let eq = round_retries max n (env n) s (out.err n) r (not-le→leb max n (omega arith)) in
      elim (ℕ_discrete n 36) [
        | yes last ↦
            let over : backoff (env n).random n ≡ none =
              subst (λ k. backoff (env n).random k ≡ none) (sym last)
                (backoff-overflow (env n).random) in
            (
              noted (env n) (out.err n) s,
              retry_from-round fuel max env n s (some panicked, noted (env n) (out.err n) s)
                  (eq ∙ rw over refl),
            )
        | no more ↦
            let (d, ok) = backoff-some (env n).random n (omega arith) in
            let (u, rest) =
              retry_from-overflows fuel max env (suc n) (noted (env n) (out.err n) s) out
                (omega arith) large (omega arith) in
            (
              u,
              retry_from-round fuel max env n s (none, noted (env n) (out.err n) s)
                    (eq ∙ rw (ok, out.patient n (omega arith)) refl)
                  ∙ rest,
            )
      ]

  -- With more than 36 retries, an outage that lasts for 37 calls makes withRetry panic, whatever
  -- comes after it: the shifted delay of attempt 36 is negative as an int64.
  pub with_retry-panics :
      (max : ℕ) (env : ℕ → Attempt) (s : Stats fl)
      → 36 < max
      → Outage env
      → (u : Stats fl) × (with_retry fl show (pos max) op env s ≡ some (panicked, u))
  unfolding with_retry
  with_retry-panics max env s large out =
      retry_from-overflows (suc max) max env 0 s out (omega arith) large (omega arith)
