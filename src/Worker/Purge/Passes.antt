-- ===== src/Worker/Purge/Passes.antt =====
-- pkg/worker/phases.go, purgeBucket and assertBucket: how much the passes delete, and what the checks
-- behind them say.
use io_stress.Common.{
  ℕ, zero, suc, ◌*◌, ◌≤◌, ◌<◌, ◌≡◌, refl, sym, ap, ◌∙◌, inl, inr, ◌⊎◌, Bool, true, false, not, ◌&&◌,
  Option, none, some, String, List, [], ◌∷◌, map, arith, ◌==◌, length, length-take, length-map,
  length-drop, take, drop, drop-nil, drop-drop, drop_of_le, if_both,
}
use io_stress.Objstore.Retry.{is_unsupported, one_of, api_code}
use io_stress.Worker.Acc.{Acc, ok, fail}
use io_stress.Objstore.Calls.{ObjectId, VersionInfo, Result, good, Client}
use io_stress.Worker.Spec.{BucketSpec, supported}
use io_stress.Worker.Purge.{
  made_up, pass_limit, after_batch, note_key_errors, delete_ids, deleted_of, versions_pass,
  delete_pass, after_pass, passes, versions_left, objects_left, after_passes, purge_from,
  purge_bucket, assert_versions, assert_objects, assert_bucket, count_objects,
}
use io_stress.Worker.Purge.Pages.{
  Store, Some, count_versions-Some, count_versions-none, count_objects-none, count_objects-made_up,
}

module _ (c : Client) (show : ℕ → String) (store : Store c) where
  open c use {Server, delete_keys}

  -- The bucket is versioned, and the calls are supported.
  pub record Capable (b : BucketSpec) : Type 0 where
    pub versions : b.versioned ≡ true
    pub listing : supported b "list-object-versions" ≡ true
    pub batches : supported b "batch-delete" ≡ true

  delete_ids-all :
      (b : BucketSpec) (ids : List ObjectId) (a : Acc) (s t : Server)
      → supported b "batch-delete" ≡ true
      → 0 < length ids
      → delete_keys ids s ≡ (good [], t)
      → delete_ids c show b ids a s ≡ (none, a, t)
  unfolding delete_ids after_batch note_key_errors
  delete_ids-all b [] a s t h p e = absurd (omega arith)
  delete_ids-all b (id ∷ ids) a s t h p e = rw (h, e) refl

  -- A pass on what is held takes the first 1000 away, and says how many.
  delete_pass-full :
      (b : BucketSpec) (a : Acc) (s : Server)
      → Capable b
      → 0 < length (store.held s)
      → (n : ℕ) × (t : Server) × (0 < n)
        × (delete_pass c show b true a s ≡ (some n, a, t))
        × (store.held t ≡ drop 1000 (store.held s))
  unfolding delete_pass versions_pass
  delete_pass-full b a s can h =
      let (page, e, listed, z) = store.first_page s in
      let (t, removed, rest) = store.removes s in
      let ids = map (λ v. v.id) page.versions in
      let gone : delete_keys ids s ≡ (good [], t) =
        ap (λ vs. delete_keys (map (λ v. v.id) vs) s) listed ∙ removed in
      let many : 0 < length ids = omega (
        arith,
        length-map page.versions (λ v. v.id),
        ap length listed,
        length-take 1000 (store.held s),
      ) in
      (
        length ids,
        t,
        many,
        rw e (
            ap (λ r. deleted_of c show (length ids) r)
              (delete_ids-all b ids a s t can.batches many gone)),
        rest,
      )

  delete_pass-empty :
      (b : BucketSpec) (a : Acc) (s : Server)
      → store.held s ≡ []
      → delete_pass c show b true a s ≡ (some 0, a, s)
  unfolding delete_pass versions_pass delete_ids deleted_of
  delete_pass-empty b a s h =
      let (page, e, listed, z) = store.first_page s in
      let nothing : page.versions ≡ [] = listed ∙ ap (λ t. take 1000 t) h in rw (e, nothing) refl

  passes-after :
      (left : ℕ) (b : BucketSpec) (a : Acc) (s : Server) (m : Option ℕ × Acc × Server)
      → delete_pass c show b true a s ≡ m
      → passes c show (suc left) b true a s
        ≡ after_pass c show m (passes c show left b true m.1 m.2)
  unfolding passes
  passes-after left b a s m e =
      ap (λ (m : Option ℕ × Acc × Server). after_pass c show m (passes c show left b true m.1 m.2))
        e

  after_pass-more :
      (n : ℕ) (a : Acc) (t : Server) (rest : Bool × Acc × Server)
      → 0 < n
      → after_pass c show (some n, a, t) rest ≡ rest
  unfolding after_pass
  after_pass-more n a t rest h = let e : (n == 0) ≡ false = ground arith in rw e refl

  empty_or_not : (vs : List VersionInfo) → (vs ≡ []) ⊎ (0 < length vs)
  empty_or_not [] = inl refl
  empty_or_not (v ∷ vs) = inr (omega arith)

  passes-drop :
      (left : ℕ) (b : BucketSpec) (a : Acc) (s : Server)
      → Capable b
      → (t : Server) × (passes c show left b true a s ≡ (true, a, t))
        × (store.held t ≡ drop (left * 1000) (store.held s))
  unfolding after_pass
  passes-drop zero b a s can = (s, unfold passes in refl, refl)
  passes-drop (suc left) b a s can = elim (empty_or_not (store.held s)) [
    | inl h ↦ (
      s,
      passes-after left b a s (some 0, a, s) (delete_pass-empty b a s h),
      h ∙ sym (ap (λ vs. drop (suc left * 1000) vs) h ∙ drop-nil (suc left * 1000)),
    )
    | inr h ↦
        let (n, t, pos, step, first) = delete_pass-full b a s can h in
        let (u, rest, left_over) = passes-drop left b a t can in
        (
          u,
          passes-after left b a s (some n, a, t) step ∙ after_pass-more n a t _ pos ∙ rest,
          left_over
              ∙ ap (λ vs. drop (left * 1000) vs) first
              ∙ drop-drop 1000 (left * 1000) (store.held s)
              ∙ ap (λ k. drop k (store.held s)) (omega arith),
        )
  ]

  -- The checks behind the passes, on an empty bucket and on one that still holds something.
  objects_left-none :
      (a : Acc) (t : Server)
      → store.held t ≡ []
      → objects_left c show true a (count_objects c show "" t) ≡ (ok 1 0 a, t)
  unfolding objects_left versions_left
  objects_left-none a t h =
      rw (count_objects-none c show store t h, count_versions-none c show store t h) refl

  versions_left-Some :
      (a : Acc) (t : Server) (r : Result (ℕ × ℕ) × Server)
      → Some c show store t r
      → versions_left c show a r ≡ (fail show made_up a, t)
  unfolding versions_left
  versions_left-Some a t r (inr e) = rw e refl
  versions_left-Some a t r (inl ((v, m), h, e)) =
      let z : (v == 0 && m == 0) ≡ false = ground (arith, h) in rw (e, z) refl

  objects_left-some :
      (a : Acc) (t : Server)
      → 0 < length (store.held t)
      → objects_left c show true a (count_objects c show "" t) ≡ (fail show made_up a, t)
  unfolding objects_left
  objects_left-some a t h = elim (count_objects-made_up c show store t) [
    | inr e ↦ rw e refl
    | inl (k, e) ↦ rw e (
        if_both (λ r. r ≡ (fail show made_up a, t)) (not (k == 0)) refl
          (versions_left-Some a t _ (count_versions-Some c show store t h)))
  ]

  purge_bucket-guards :
      (b : BucketSpec) (a : Acc) (s : Server)
      → Capable b
      → purge_bucket c show 0 b a s ≡ purge_from c show pass_limit true b a s
  unfolding purge_bucket
  purge_bucket-guards b a s can = rw (can.listing, can.versions) refl

  purge_from-passes :
      (n : ℕ) (b : BucketSpec) (a : Acc) (s t : Server)
      → passes c show n b true a s ≡ (true, a, t)
      → purge_from c show n true b a s ≡ objects_left c show true a (count_objects c show "" t)
  unfolding purge_from after_passes
  purge_from-passes n b a s t e = ap (λ w. after_passes c show true w) e

  -- A purge of a versioned bucket that holds at most 64000 versions and delete markers deletes them
  -- all and succeeds, where the calls are supported and the server answers them all.
  pub purge_bucket-clears :
      (b : BucketSpec) (a : Acc) (s : Server)
      → Capable b
      → length (store.held s) ≤ 64000
      → (t : Server) × (store.held t ≡ []) × (purge_bucket c show 0 b a s ≡ (ok 1 0 a, t))
  purge_bucket-clears b a s can h =
      let (t, all, rest) = passes-drop pass_limit b a s can in
      let none_left = rest ∙ drop_of_le 64000 (store.held s) h in
      (
        t,
        none_left,
        purge_bucket-guards b a s can
            ∙ purge_from-passes pass_limit b a s t all
            ∙ objects_left-none a t none_left,
      )

  -- A purge of a larger versioned bucket deletes the first 64000 versions and delete markers, leaves
  -- the rest, and is a failure, although the server answers every call.
  pub purge_bucket-overflows :
      (b : BucketSpec) (a : Acc) (s : Server)
      → Capable b
      → 64000 < length (store.held s)
      → (t : Server) × (store.held t ≡ drop 64000 (store.held s))
        × (purge_bucket c show 0 b a s ≡ (fail show made_up a, t))
  purge_bucket-overflows b a s can h =
      let (t, all, rest) = passes-drop pass_limit b a s can in
      (
        t,
        rest,
        purge_bucket-guards b a s can
            ∙ purge_from-passes pass_limit b a s t all
            ∙ objects_left-some a t
                (omega (arith, ap length rest, length-drop 64000 (store.held s))),
      )

  assert_versions-Some :
      (a : Acc) (t : Server) (r : Result (ℕ × ℕ) × Server)
      → Some c show store t r
      → assert_versions c show a r ≡ (fail show made_up a, t)
  unfolding assert_versions is_unsupported one_of api_code
  assert_versions-Some a t r (inr e) = rw e refl
  assert_versions-Some a t r (inl ((v, m), h, e)) =
      let z : (v == 0 && m == 0) ≡ false = ground (arith, h) in rw (e, z) refl

  assert_objects-none :
      (a : Acc) (t : Server)
      → store.held t ≡ []
      → assert_objects c show true a (count_objects c show "" t) ≡ (ok 1 0 a, t)
  unfolding assert_objects assert_versions
  assert_objects-none a t h =
      rw (count_objects-none c show store t h, count_versions-none c show store t h) refl

  assert_objects-some :
      (a : Acc) (t : Server)
      → 0 < length (store.held t)
      → assert_objects c show true a (count_objects c show "" t) ≡ (fail show made_up a, t)
  unfolding assert_objects
  assert_objects-some a t h = elim (count_objects-made_up c show store t) [
    | inr e ↦ rw e refl
    | inl (k, e) ↦ rw e (
        if_both (λ r. r ≡ (fail show made_up a, t)) (not (k == 0)) refl
          (assert_versions-Some a t _ (count_versions-Some c show store t h)))
  ]

  assert_bucket-guards :
      (b : BucketSpec) (a : Acc) (s : Server)
      → Capable b
      → assert_bucket c show 0 b a s ≡ assert_objects c show true a (count_objects c show "" s)
  unfolding assert_bucket
  assert_bucket-guards b a s can = rw (can.listing, can.versions) refl

  -- The assertion that a versioned bucket is empty succeeds where nothing is held.
  pub assert_bucket-empty :
      (b : BucketSpec) (a : Acc) (s : Server)
      → Capable b
      → store.held s ≡ []
      → assert_bucket c show 0 b a s ≡ (ok 1 0 a, s)
  assert_bucket-empty b a s can h = assert_bucket-guards b a s can ∙ assert_objects-none a s h

  -- The assertion that a versioned bucket is empty fails while anything is held, even if all of it
  -- is delete markers and old versions that a plain listing does not show.
  pub assert_bucket-held :
      (b : BucketSpec) (a : Acc) (s : Server)
      → Capable b
      → 0 < length (store.held s)
      → assert_bucket c show 0 b a s ≡ (fail show made_up a, s)
  assert_bucket-held b a s can h = assert_bucket-guards b a s can ∙ assert_objects-some a s h
