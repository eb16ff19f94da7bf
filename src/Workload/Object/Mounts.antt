-- ===== src/Workload/Object/Mounts.antt =====
-- pkg/workload/object.go, credMounts: each bucket's directory holds its own credentials.
use Prim.Native.String.{◌++◌ as join}
use io_stress.Common.{
  ℕ, ◌≤◌, ◌≡◌, refl, subst, inl, inr, true, false, String, List, [], ◌∷◌, ◌++◌, none, some,
  Option-cases, arith, length,
}
use io_stress.Common.Int.{ℤ, eq_ℤ}
use io_stress.Common.Dict.{lookup, insert}
use io_stress.Workload.Object.{BucketBind}
use io_stress.Workload.Object.Spec.{
  CredMount, Mounts, no_mounts, set_dir, mount_bucket, mounts_from, cred_mounts, cred_path,
}
use io_stress.Workload.Object.Mounted.{
  mounted_at, mounted, fresh, mounted_at-append, eq_ℤ_self, Right, mounted_at-le-mounted, added,
  added-once, added-unseen, added-at, added-seen_at,
}

module _ (show : ℤ → String) (show_ℕ : ℕ → String) where
  abbrev new : BucketBind → Mounts → CredMount
  new b m = record {
    volume = join "cred-" (show_ℕ (length m.mounts));
    secret = b.secret;
    mount_path = cred_path show show_ℕ b.ordinal;
  }

  abbrev old_dir : BucketBind → Mounts → String → Mounts
  old_dir b m path = record m { dirs = set_dir b.ordinal path m.dirs }

  abbrev new_dir : BucketBind → Mounts → Mounts
  new_dir b m = added m (new b m) (set_dir b.ordinal (cred_path show show_ℕ b.ordinal) m.dirs)

  mount_bucket-seen :
      (b : BucketBind) (m : Mounts) (path : String)
      → lookup b.secret m.seen ≡ some path
      → mount_bucket show show_ℕ b m ≡ old_dir b m path
  unfolding mount_bucket
  mount_bucket-seen b m path e = rw (mount_bucket, e) refl

  mount_bucket-new :
      (b : BucketBind) (m : Mounts)
      → lookup b.secret m.seen ≡ none
      → mount_bucket show show_ℕ b m ≡ new_dir b m
  unfolding mount_bucket insert
  mount_bucket-new b m e = rw (mount_bucket, e) refl

  mount_bucket-Right :
      (b : BucketBind) (m : Mounts) → Right m → Right (mount_bucket show show_ℕ b m)
  mount_bucket-Right b m r = elim (Option-cases (lookup b.secret m.seen)) [
    | inr (path, e) ↦
        rw (mount_bucket-seen b m path e)
          (record { once = r.once; unseen = r.unseen; seen_at = r.seen_at })
    | inl e ↦ rw (mount_bucket-new b m e) (record {
      once = λ s. added-once m (new b m) m.dirs s r e;
      unseen = λ s n. added-unseen m (new b m) m.dirs s r n;
      seen_at = λ s path h. added-seen_at m (new b m) m.dirs s path r e h;
    })
  ]

  -- Whether a secret's one mount is at the directory of an ordinal
  abbrev Held : String → ℤ → Mounts → Type 0
  Held s i m = mounted_at s (m.dirs i) m.mounts ≡ 1

  mount_bucket-Held :
      (b : BucketBind) (m : Mounts)
      → Right m
      → Held b.secret b.ordinal (mount_bucket show show_ℕ b m)
  mount_bucket-Held b m r = elim (Option-cases (lookup b.secret m.seen)) [
    | inr (path, e) ↦
        rw (mount_bucket-seen b m path e, eq_ℤ_self b.ordinal) (r.seen_at b.secret path e)
    | inl e ↦ rw (mount_bucket-new b m e, eq_ℤ_self b.ordinal) (added-at m (new b m) m.dirs r e)
  ]

  -- Another bucket's mount leaves it alone.
  mount_bucket-keeps :
      (b : BucketBind) (m : Mounts) (s : String) (i : ℤ)
      → Right m
      → eq_ℤ b.ordinal i ≡ false
      → Held s i m
      → Held s i (mount_bucket show show_ℕ b m)
  mount_bucket-keeps b m s i r other h = elim (Option-cases (lookup b.secret m.seen)) [
    | inr (path, e) ↦ rw (mount_bucket-seen b m path e, other) h
    | inl e ↦
        let after : Right (new_dir b m) =
          subst (λ x. Right x) (mount_bucket-new b m e) (mount_bucket-Right b m r) in
        let all = mounted_at-append s (m.dirs i) m.mounts (new b m ∷ []) in
        let few = mounted_at-le-mounted s (m.dirs i) (new_dir b m).mounts in
        let once = after.once s in
        rw (mount_bucket-new b m e, other) (ground (arith, all, few, once, h))
  ]

  mounts_from-keeps :
      (bs : List BucketBind) (m : Mounts) (s : String) (i : ℤ)
      → Right m
      → fresh i bs ≡ true
      → Held s i m
      → Held s i (mounts_from show show_ℕ bs m)
  unfolding mounts_from
  mounts_from-keeps [] m s i r f h = h
  mounts_from-keeps (b ∷ bs) m s i r f h =
      let other : eq_ℤ b.ordinal i ≡ false = ground (arith, f) in
      mounts_from-keeps bs _ s i (mount_bucket-Right b m r) (ground (arith, f))
        (mount_bucket-keeps b m s i r other h)

  mounts_from-Right :
      (bs : List BucketBind) (m : Mounts) → Right m → Right (mounts_from show show_ℕ bs m)
  unfolding mounts_from
  mounts_from-Right [] m r = r
  mounts_from-Right (b ∷ bs) m r = mounts_from-Right bs _ (mount_bucket-Right b m r)

  mounts_from-Held :
      (before : List BucketBind) (b : BucketBind) (after : List BucketBind) (m : Mounts)
      → Right m
      → fresh b.ordinal after ≡ true
      → Held b.secret b.ordinal (mounts_from show show_ℕ (before ++ b ∷ after) m)
  unfolding mounts_from
  mounts_from-Held [] b after m r f =
      mounts_from-keeps after _ b.secret b.ordinal (mount_bucket-Right b m r) f
        (mount_bucket-Held b m r)
  mounts_from-Held (a ∷ before) b after m r f =
      mounts_from-Held before b after _ (mount_bucket-Right a m r) f

  no_mounts-Right : Right no_mounts
  unfolding lookup
  no_mounts-Right = record {
    once = λ s. omega arith;
    unseen = λ s n. refl;
    seen_at = λ s path h. absurd (cc);
  }

  -- In the mounts of a worker pod each secret stands at most once, and each bucket whose ordinal no
  -- later bucket has finds its own secret in its directory: exactly one mount has that secret and
  -- that directory's path.
  pub cred_mounts-Held :
      (before : List BucketBind) (b : BucketBind) (after : List BucketBind)
      → fresh b.ordinal after ≡ true
      → let m = cred_mounts show show_ℕ (before ++ b ∷ after) in
        ((s : String) → mounted s m.mounts ≤ 1)
        × (mounted_at b.secret (m.dirs b.ordinal) m.mounts ≡ 1)
  unfolding cred_mounts
  cred_mounts-Held before b after f = (
    (mounts_from-Right (before ++ b ∷ after) no_mounts no_mounts-Right).once,
    mounts_from-Held before b after no_mounts no_mounts-Right f,
  )
