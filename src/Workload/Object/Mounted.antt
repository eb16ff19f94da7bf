-- ===== src/Workload/Object/Mounted.antt =====
-- pkg/workload/object.go, credMounts: mounts counted by secret, and one mount more.
use io_stress.Common.{
  ℕ, suc, ◌+◌, ◌≤◌, ◌≡◌, refl, sym, subst, ◌∙◌, inl, inr, Bool, true, not, ◌&&◌, String, List, [],
  ◌∷◌, ◌++◌, none, some, some_inj, if◌then◌else◌, Bool-cases, arith, str_eq, str_eq_self, eq_iff,
}
use io_stress.Common.Int.{ℤ, pos, negsuc, eq_ℤ}
use io_stress.Common.Dict.{lookup, insert, lookup-insert}
use io_stress.Workload.Object.{BucketBind}
use io_stress.Workload.Object.Spec.{CredMount, Mounts}

-- How often a secret is mounted at a path.
abbrev pub mounted_at : String → String → List CredMount → ℕ
mounted_at s path [] = 0
mounted_at s path (m ∷ ms) =
    if str_eq m.secret s && str_eq m.mount_path path
    then suc (mounted_at s path ms)
    else mounted_at s path ms

-- How often a secret is mounted.
abbrev pub mounted : String → List CredMount → ℕ
mounted s [] = 0
mounted s (m ∷ ms) = if str_eq m.secret s then suc (mounted s ms) else mounted s ms

-- Whether none of the buckets has the ordinal i.
abbrev pub fresh : ℤ → List BucketBind → Bool
fresh i [] = true
fresh i (b ∷ bs) = not (eq_ℤ b.ordinal i) && fresh i bs

pub mounted_at-append :
    (s path : String) (xs ys : List CredMount)
    → mounted_at s path (xs ++ ys) ≡ mounted_at s path xs + mounted_at s path ys
mounted_at-append s path [] ys = omega arith
mounted_at-append s path (x ∷ xs) ys = ground (arith, mounted_at-append s path xs ys)

mounted-append :
    (s : String) (xs ys : List CredMount) → mounted s (xs ++ ys) ≡ mounted s xs + mounted s ys
mounted-append s [] ys = omega arith
mounted-append s (x ∷ xs) ys = ground (arith, mounted-append s xs ys)

pub eq_ℤ_self : (i : ℤ) → eq_ℤ i i ≡ true
eq_ℤ_self (pos n) = ground arith
eq_ℤ_self (negsuc n) = ground arith

-- `seen` is right about the mounts, and no secret is mounted twice.
pub record Right (m : Mounts) : Type 0 where
  pub once : (s : String) → mounted s m.mounts ≤ 1
  pub unseen : (s : String) → lookup s m.seen ≡ none → mounted s m.mounts ≡ 0
  pub seen_at : (s path : String) → lookup s m.seen ≡ some path → mounted_at s path m.mounts ≡ 1

pub mounted_at-le-mounted :
    (s path : String) (ms : List CredMount) → mounted_at s path ms ≤ mounted s ms
mounted_at-le-mounted s path [] = omega arith
mounted_at-le-mounted s path (m ∷ ms) = ground (arith, mounted_at-le-mounted s path ms)

abbrev pub added : Mounts → CredMount → (ℤ → String) → Mounts
added m mount dirs = record {
  seen = insert mount.secret mount.mount_path m.seen;
  mounts = m.mounts ++ mount ∷ [];
  dirs = dirs;
}

unseen_before :
    (m : Mounts) (mount : CredMount) (s : String)
    → Right m
    → lookup mount.secret m.seen ≡ none
    → str_eq mount.secret s ≡ true
    → mounted s m.mounts ≡ 0
unseen_before m mount s r n e =
    r.unseen s (subst (λ t. lookup t m.seen ≡ none) ((eq_iff mount.secret s).0 e) n)

pub added-once :
    (m : Mounts) (mount : CredMount) (dirs : ℤ → String) (s : String)
    → Right m
    → lookup mount.secret m.seen ≡ none
    → mounted s (added m mount dirs).mounts ≤ 1
added-once m mount dirs s r n =
    let all = mounted-append s m.mounts (mount ∷ []) in
    let before = unseen_before m mount s r n in
    let once = r.once s in ground (arith, all, before, once)

pub added-unseen :
    (m : Mounts) (mount : CredMount) (dirs : ℤ → String) (s : String)
    → Right m
    → lookup s (added m mount dirs).seen ≡ none
    → mounted s (added m mount dirs).mounts ≡ 0
added-unseen m mount dirs s r n = elim (Bool-cases (str_eq mount.secret s)) [
  | inl e ↦
      let now : lookup s (added m mount dirs).seen ≡ some mount.mount_path =
        lookup-insert mount.secret s mount.mount_path m.seen ∙ rw e refl in
      absurd (cc)
  | inr e ↦
      let all = mounted-append s m.mounts (mount ∷ []) in
      let before =
        r.unseen s (sym (lookup-insert mount.secret s mount.mount_path m.seen ∙ rw e refl) ∙ n) in
      ground (arith, all, before, e)
]

pub added-at :
    (m : Mounts) (mount : CredMount) (dirs : ℤ → String)
    → Right m
    → lookup mount.secret m.seen ≡ none
    → mounted_at mount.secret mount.mount_path (added m mount dirs).mounts ≡ 1
added-at m mount dirs r n =
    let all = mounted_at-append mount.secret mount.mount_path m.mounts (mount ∷ []) in
    let few = mounted_at-le-mounted mount.secret mount.mount_path m.mounts in
    let before = r.unseen mount.secret n in
    let e = str_eq_self mount.secret in
    let e' = str_eq_self mount.mount_path in ground (arith, all, few, before, e, e')

pub added-seen_at :
    (m : Mounts) (mount : CredMount) (dirs : ℤ → String) (s path : String)
    → Right m
    → lookup mount.secret m.seen ≡ none
    → lookup s (added m mount dirs).seen ≡ some path
    → mounted_at s path (added m mount dirs).mounts ≡ 1
added-seen_at m mount dirs s path r n h = elim (Bool-cases (str_eq mount.secret s)) [
  | inl e ↦
      let same : mount.secret ≡ s = (eq_iff mount.secret s).0 e in
      let at : mount.mount_path ≡ path =
        some_inj (sym (lookup-insert mount.secret s mount.mount_path m.seen ∙ rw e refl) ∙ h) in
      subst (λ t. mounted_at t path (added m mount dirs).mounts ≡ 1) same
        (subst (λ q. mounted_at mount.secret q (added m mount dirs).mounts ≡ 1) at
          (added-at m mount dirs r n))
  | inr e ↦
      let old =
        r.seen_at s path
          (sym (lookup-insert mount.secret s mount.mount_path m.seen ∙ rw e refl) ∙ h) in
      let all = mounted_at-append s path m.mounts (mount ∷ []) in ground (arith, all, old, e)
]
