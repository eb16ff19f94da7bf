-- ===== src/Worker/Acc/Sound.antt =====
-- pkg/worker/run.go, acc: what holds after any calls, in any order.
use Prim.Native.String.{◌++◌}
use text.Mathlib.TextLemmas.{append-eq-nil_iff}
use mathlib.Core.List.{◌++◌ as append}
use io_stress.Common.{
  ℕ, suc, ◌+◌, ◌≤◌, ◌<◌, ◌≡◌, ◌≢◌, ◌↔◌, refl, subst, true, String, List, [], ◌∷◌, str_eq, eq_iff,
  arith, ltb, ◌==◌, if◌then◌else◌, length, length-append, if_both, dec_lt, lt→ltb, not-lt→ltb, u64,
  u64_mod,
}
use io_stress.Objstore.Retry.{Err, is_capacity}
use io_stress.Worker.Acc.{
  Mismatch, Acc, new_acc, ok, first_error, mismatch_limit, described, capacity_stop, fail, mismatch,
  skip, Event, succeeds, fails, differs, skips, event, events,
}

append-ne_left : (s t : String) → s ≢ "" → s ++ t ≢ ""
append-ne_left s t h e = h (append-eq-nil_iff.0 e).0

append-ne_right : (s t : String) → t ≢ "" → s ++ t ≢ ""
append-ne_right s t h e = h (append-eq-nil_iff.0 e).1

first_error-ne : (old new : String) → new ≢ "" → first_error old new ≢ ""
first_error-ne old new h = ground (arith, eq_iff old "", h)

-- After n calls.
pub record Sound (n : ℕ) (a : Acc) : Type 0 where
  pub few : a.res.objects_fail ≤ n
  pub bounded : length a.res.mismatches ≤ mismatch_limit
  pub full : 0 < a.res.mismatch_more → length a.res.mismatches ≡ mismatch_limit
  pub counted : length a.res.mismatches + a.res.mismatch_more ≤ a.res.objects_fail
  pub told : (a.res.objects_fail ≡ 0) ↔ (a.res.error ≡ "")
  pub stop : a.stopped ≡ true → (0 < a.res.objects_fail) × (a.canceled ≡ true)

Sound-later : {n : ℕ} {a : Acc} → Sound n a → Sound (suc n) a
Sound-later {n} {a} s = record {
  few = omega (arith, s.few);
  bounded = s.bounded;
  full = s.full;
  counted = s.counted;
  told = s.told;
  stop = s.stop;
}

Sound-ok : (m bytes n : ℕ) (a : Acc) → Sound n a → Sound (suc n) (ok m bytes a)
unfolding ok
Sound-ok m bytes n a s = record {
  few = omega (arith, s.few);
  bounded = s.bounded;
  full = s.full;
  counted = s.counted;
  told = s.told;
  stop = s.stop;
}

Sound-skip : (reason : String) (n : ℕ) (a : Acc) → Sound n a → Sound (suc n) (skip reason a)
unfolding skip
Sound-skip reason n a s = if_both (Sound (suc n)) (str_eq reason "") (Sound-later s) (record {
  few = omega (arith, s.few);
  bounded = s.bounded;
  full = s.full;
  counted = s.counted;
  told = s.told;
  stop = s.stop;
})

-- Where a mismatch goes.
roomy :
    (ms : List Mismatch) (more : ℕ) (m : Mismatch)
    → length ms ≤ mismatch_limit
    → (0 < more → length ms ≡ mismatch_limit)
    → more + 1 < u64_mod
    → let room = ltb (length ms) mismatch_limit in
      let kept = if room then append ms (m ∷ []) else ms in
      let more' = if room then more else u64 (more + 1) in
      (length kept ≤ mismatch_limit)
      × (0 < more' → length kept ≡ mismatch_limit)
      × (length kept + more' ≡ length ms + more + 1)
roomy ms more m h full small =
    let grown : length (append ms (m ∷ [])) ≡ length ms + 1 = length-append ms (m ∷ []) in
    elim (dec_lt (length ms) mismatch_limit) [
      | yes lt ↦
          rw (lt→ltb (length ms) mismatch_limit lt)
            (omega arith, λ p. absurd (omega (arith, full p)), omega arith)
      | no ge ↦ rw (not-lt→ltb (length ms) mismatch_limit ge) (h, λ p. omega arith, omega arith)
    ]

module _ (show : ℕ → String) where
  described-ne : (e : Err) → described show e ≢ ""
  described-ne e =
      append-ne_right e.text _ (append-ne_left " (code=" _ (ground (arith, eq_iff " (code=" "")))

  Sound-capacity_stop :
      (e : Err) (n : ℕ) (a : Acc) → Sound n a → Sound (suc n) (capacity_stop show e a)
  unfolding capacity_stop
  Sound-capacity_stop e n a s =
      let f = if a.res.objects_fail == 0 then 1 else a.res.objects_fail in
      let more : (0 < f) × (a.res.objects_fail ≤ f) × (f ≤ suc n) = ground (arith, s.few) in
      let said : "capacity stop: " ++ e.text ≢ "" =
        append-ne_left "capacity stop: " e.text (ground (arith, eq_iff "capacity stop: " "")) in
      if_both (Sound (suc n)) a.stopped
        (record {
          few = omega (arith, s.few);
          bounded = s.bounded;
          full = s.full;
          counted = s.counted;
          told = s.told;
          stop = λ h. ((s.stop h).0, refl);
        })
        (record {
          few = more.2;
          bounded = s.bounded;
          full = s.full;
          counted = omega (arith, s.counted, more.1);
          told = (λ h. absurd (omega arith), λ h. absurd (said h));
          stop = λ h. (more.0, refl);
        })

  Sound-fail :
      (e : Err) (n : ℕ) (a : Acc) → suc n < u64_mod → Sound n a → Sound (suc n) (fail show e a)
  unfolding fail
  Sound-fail e n a small s =
      if_both (Sound (suc n)) (is_capacity show e) (Sound-capacity_stop e n a s) (
        if_both (Sound (suc n)) e.canceled (Sound-later s) (
          if_both (Sound (suc n)) a.stopped (Sound-later s) (record {
            few = omega (arith, s.few);
            bounded = s.bounded;
            full = s.full;
            counted = omega (arith, s.counted, s.few);
            told = (
              λ h. absurd (omega (arith, s.few)),
              λ h. absurd (first_error-ne a.res.error (described show e) (described-ne e) h),
            );
            stop = λ h. (omega (arith, s.few), (s.stop h).1);
          })))

  Sound-mismatch :
      (m : Mismatch) (n : ℕ) (a : Acc)
      → suc n < u64_mod
      → Sound n a
      → Sound (suc n) (mismatch show m a)
  unfolding mismatch
  Sound-mismatch m n a small s =
      let (fewer, filled, one) =
        roomy a.res.mismatches a.res.mismatch_more m s.bounded s.full
          (omega (arith, s.counted, s.few)) in
      record {
        few = omega (arith, s.few);
        bounded = fewer;
        full = filled;
        counted = omega (arith, s.counted, s.few, one);
        told = (
          λ h. absurd (omega (arith, s.few)),
          λ h. absurd (
              first_error-ne a.res.error _
                (append-ne_left "verification mismatch bucket=" _
                  (ground (arith, eq_iff "verification mismatch bucket=" "")))
                h),
        );
        stop = λ h. (omega (arith, s.few), (s.stop h).1);
      }

  Sound-event :
      (e : Event) (n : ℕ) (a : Acc) → suc n < u64_mod → Sound n a → Sound (suc n) (event show e a)
  unfolding event
  Sound-event (succeeds m bytes) n a small s = Sound-ok m bytes n a s
  Sound-event (fails e) n a small s = Sound-fail e n a small s
  Sound-event (differs m) n a small s = Sound-mismatch m n a small s
  Sound-event (skips reason) n a small s = Sound-skip reason n a s

  Sound-events :
      (es : List Event) (n : ℕ) (a : Acc)
      → n + length es < u64_mod
      → Sound n a
      → Sound (n + length es) (events show es a)
  unfolding events
  Sound-events [] n a small s = subst (λ k. Sound k a) (omega arith) s
  Sound-events (e ∷ es) n a small s =
      subst (λ k. Sound k (events show es (event show e a))) (omega arith)
        (Sound-events es (suc n) (event show e a) (omega arith) (Sound-event e n a (omega arith) s))

  -- After fewer than 2 ^ 64 calls on a new accumulator, in any order: it has an error text exactly if
  -- a failure was counted; at most 100 mismatches are kept, all places are taken before one is only
  -- counted, and each is counted as a failure; a capacity stop has a failure and has canceled the run.
  pub events-new_acc-Sound :
      (bucket : String) (es : List Event)
      → length es < u64_mod
      → Sound (length es) (events show es (new_acc bucket))
  events-new_acc-Sound bucket es small =
      subst (λ k. Sound k (events show es (new_acc bucket))) (omega arith)
        (Sound-events es 0 (new_acc bucket) (omega arith) (record {
          few = omega arith;
          bounded = omega arith;
          full = λ h. absurd (omega arith);
          counted = omega arith;
          told = (λ h. refl, λ h. refl);
          stop = λ h. absurd (cc);
        }))
