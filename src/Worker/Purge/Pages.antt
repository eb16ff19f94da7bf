-- ===== src/Worker/Purge/Pages.antt =====
-- pkg/worker/phases.go, countObjects and countVersions, on a store that answers every call.
use io_stress.Common.{
  ℕ, zero, suc, ◌+◌, ◌≤◌, ◌<◌, ◌≡◌, refl, ap, ◌∙◌, inl, inr, ◌⊎◌, false, not, ◌||◌, String, List,
  [], ◌∷◌, map, str_eq, arith, if◌then◌else◌, if_both, length, take, drop, length-take,
}
use io_stress.Objstore.Calls.{VersionInfo, ListPage, VersionPage, Result, good, bad, Client}
use io_stress.Worker.Purge.{
  made_up, page_limit, tally, after_page, count_from, count_objects, after_versions, versions_from,
  count_versions,
}

-- A server whose calls all succeed. `held` is what a listing of versions goes through; it starts
-- with a page of up to 1000, and a batch of that page's ids takes just those away.
pub record Store (c : Client) : Type 0 where
  pub held : c.Server → List VersionInfo
  pub first_page :
      (s : c.Server)
      → (page : VersionPage) × (c.list_versions "" "" "" s ≡ (good page, s))
        × (page.versions ≡ take 1000 (held s))
        × (length (held s) ≤ 1000 → page.truncated ≡ false)
  pub later_pages :
      (prefix k v : String) (s : c.Server)
      → (page : VersionPage) × (c.list_versions prefix k v s ≡ (good page, s))
  pub object_pages :
      (prefix token : String) (s : c.Server)
      → (page : ListPage) × (c.list_objects prefix token s ≡ (good page, s))
        × (held s ≡ [] → (page.objects ≡ []) × (page.truncated ≡ false))
  pub removes :
      (s : c.Server)
      → (t : c.Server) × (c.delete_keys (map (λ v. v.id) (take 1000 (held s))) s ≡ (good [], t))
        × (held t ≡ drop 1000 (held s))

abbrev pub both : ℕ × ℕ → ℕ
both (a, b) = a + b

both-tally : (vs : List VersionInfo) (seen : ℕ × ℕ) → both (tally vs seen) ≡ length vs + both seen
unfolding tally
both-tally [] (a, b) = omega arith
both-tally (v ∷ vs) (a, b) =
    both-tally vs (if v.delete_marker then (a, suc b) else (suc a, b)) ∙ ground arith

module _ (c : Client) (show : ℕ → String) (store : Store c) where
  open c use {Server}

  count_from-made_up :
      (pages : ℕ) (token : String) (n : ℕ) (s : Server)
      → ((k : ℕ) × (count_from c show pages "" token n s ≡ (good k, s)))
        ⊎ (count_from c show pages "" token n s ≡ (bad made_up, s))
  unfolding count_from after_page
  count_from-made_up zero token n s = inr refl
  count_from-made_up (suc pages) token n s =
      let (page, e, z) = store.object_pages "" token s in
      rw e (
        if_both (λ r. ((k : ℕ) × (r ≡ (good k, s))) ⊎ (r ≡ (bad made_up, s)))
          (not page.truncated || str_eq page.next_token "") (inl (n + length page.objects, refl))
          (count_from-made_up pages page.next_token (n + length page.objects) s))

  -- What a count of versions comes to that has seen some: a number that is not 0, or the error of a
  -- listing that does not end.
  abbrev pub Some : Server → Result (ℕ × ℕ) × Server → Type 0
  Some s r = ((seen : ℕ × ℕ) × (0 < both seen) × (r ≡ (good seen, s))) ⊎ (r ≡ (bad made_up, s))

  versions_from-Some :
      (pages : ℕ) (k v : String) (seen : ℕ × ℕ) (s : Server)
      → 0 < both seen
      → Some s (versions_from c show pages "" k v seen s)
  unfolding versions_from after_versions
  versions_from-Some zero k v seen s h = inr refl
  versions_from-Some (suc pages) k v seen s h =
      let (page, e) = store.later_pages "" k v s in
      let more : 0 < both (tally page.versions seen) =
        omega (arith, both-tally page.versions seen) in
      rw e (
        if_both (Some s) (not page.truncated) (inl (tally page.versions seen, more, refl))
          (versions_from-Some pages page.next_key page.next_ver (tally page.versions seen) s more))

  -- The first page decides; here for any number of pages to come.
  first_versions-Some :
      (pages : ℕ) (s : Server)
      → 0 < length (store.held s)
      → Some s (versions_from c show (suc pages) "" "" "" (0, 0) s)
  unfolding versions_from after_versions
  first_versions-Some pages s h =
      let (page, e, listed, z) = store.first_page s in
      let seen = tally page.versions (0, 0) in
      let more : 0 < both seen = omega (
        arith,
        both-tally page.versions (0, 0),
        ap length listed,
        length-take 1000 (store.held s),
      ) in
      rw e (
        if_both (Some s) (not page.truncated) (inl (seen, more, refl))
          (versions_from-Some pages page.next_key page.next_ver seen s more))

  first_versions-none :
      (pages : ℕ) (s : Server)
      → store.held s ≡ []
      → versions_from c show (suc pages) "" "" "" (0, 0) s ≡ (good (0, 0), s)
  unfolding versions_from after_versions tally
  first_versions-none pages s h =
      let (page, e, listed, z) = store.first_page s in
      let nothing : page.versions ≡ [] = listed ∙ ap (λ t. take 1000 t) h in
      let short : length (store.held s) ≤ 1000 = omega (arith, ap length h) in
      rw (e, z short, nothing) refl

  first_objects-none :
      (pages : ℕ) (s : Server)
      → store.held s ≡ []
      → count_from c show (suc pages) "" "" 0 s ≡ (good 0, s)
  unfolding count_from after_page
  first_objects-none pages s h =
      let (page, e, z) = store.object_pages "" "" s in rw (e, (z h).1, (z h).0) refl

  pub count_versions-Some :
      (s : Server) → 0 < length (store.held s) → Some s (count_versions c show "" s)
  unfolding count_versions
  count_versions-Some s h = first_versions-Some 999999 s h

  pub count_versions-none :
      (s : Server) → store.held s ≡ [] → count_versions c show "" s ≡ (good (0, 0), s)
  unfolding count_versions
  count_versions-none s h = first_versions-none 999999 s h

  pub count_objects-none :
      (s : Server) → store.held s ≡ [] → count_objects c show "" s ≡ (good 0, s)
  unfolding count_objects
  count_objects-none s h = first_objects-none 999999 s h

  pub count_objects-made_up :
      (s : Server)
      → ((k : ℕ) × (count_objects c show "" s ≡ (good k, s)))
        ⊎ (count_objects c show "" s ≡ (bad made_up, s))
  unfolding count_objects
  count_objects-made_up s = count_from-made_up page_limit "" 0 s
