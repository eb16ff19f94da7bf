-- ===== src/Config/Profiles/Kept.antt =====
-- pkg/config/object_profiles.go, ApplyObjectProfile: what a profile changes.
use io_stress.Common.{
  ◌≡◌, ◌≢◌, refl, sym, ap, subst, ◌∙◌, inl, inr, String, Option, none, some, str_eq, eq_iff,
  Bool-cases, ne→str_eq, some_inj,
}
use io_stress.Config.Object.{Texts, ObjectConfig}
use io_stress.Config.Profiles.{object_profile, keep_mode, expand, apply_object_profile}

module _ (go : Texts) where
  -- The fields of the run's mode.
  pub record SameMode (a b : ObjectConfig go) : Type 0 where
    pub enabled : a.enabled ≡ b.enabled
    pub only : a.only ≡ b.only
    pub resume : a.resume ≡ b.resume
    pub force : a.force ≡ b.force
    pub seed : a.seed ≡ b.seed
    pub backend : a.backend ≡ b.backend

  apply-custom :
      (obj : ObjectConfig go)
      → apply_object_profile go obj "custom" ≡ some (record obj { profile = "custom" })
  unfolding apply_object_profile
  apply-custom obj = refl

  apply-named :
      (obj : ObjectConfig go) (name : String)
      → name ≢ "custom"
      → apply_object_profile go obj name ≡ expand go name obj (object_profile go name)
  unfolding apply_object_profile
  apply-named obj name ne = rw (ne→str_eq name "custom" ne) refl

  keep_mode-SameMode :
      (obj next : ObjectConfig go) (name : String) → SameMode (keep_mode go name obj next) obj
  unfolding keep_mode
  keep_mode-SameMode obj next name = record {
    enabled = refl;
    only = refl;
    resume = refl;
    force = refl;
    seed = refl;
    backend = refl;
  }

  expand-SameMode :
      (obj out : ObjectConfig go) (name : String) (next : Option (ObjectConfig go))
      → expand go name obj next ≡ some out
      → SameMode out obj × (out.profile ≡ name)
  unfolding expand keep_mode
  expand-SameMode obj out name none e = cc
  expand-SameMode obj out name (some next) e =
      subst (λ z. SameMode z obj × (z.profile ≡ name)) (some_inj e)
        (keep_mode-SameMode obj next name, refl)

  -- A profile that is applied keeps the fields of the run's mode, and is the configuration's profile.
  pub apply_object_profile-SameMode :
      (obj out : ObjectConfig go) (name : String)
      → apply_object_profile go obj name ≡ some out
      → SameMode out obj × (out.profile ≡ name)
  apply_object_profile-SameMode obj out name e = elim (Bool-cases (str_eq name "custom")) [
    | inl c ↦
        let same : name ≡ "custom" = (eq_iff name "custom").0 c in
        let kept : some (record obj { profile = "custom" }) ≡ some out =
          sym (apply-custom obj) ∙ ap (λ n. apply_object_profile go obj n) (sym same) ∙ e in
        subst (λ z. SameMode z obj × (z.profile ≡ name)) (some_inj kept)
          (
            record {
              enabled = refl;
              only = refl;
              resume = refl;
              force = refl;
              seed = refl;
              backend = refl;
            },
            sym same,
          )
    | inr c ↦
        expand-SameMode obj out name (object_profile go name)
          (sym (apply-named obj name (λ s. absurd (cc (c, (eq_iff name "custom").1 s)))) ∙ e)
  ]

  expand-cong :
      (mid obj : ObjectConfig go) (name : String) (next : Option (ObjectConfig go))
      → SameMode mid obj
      → expand go name mid next ≡ expand go name obj next
  unfolding expand keep_mode
  expand-cong mid obj name none s = refl
  expand-cong mid obj name (some next) s =
      cc (s.enabled, s.only, s.resume, s.force, s.seed, s.backend)

  -- A profile other than `custom` that is applied after another one leaves nothing of that one.
  pub apply_object_profile-last :
      (obj mid : ObjectConfig go) (earlier name : String)
      → name ≢ "custom"
      → apply_object_profile go obj earlier ≡ some mid
      → apply_object_profile go mid name ≡ apply_object_profile go obj name
  apply_object_profile-last obj mid earlier name ne e =
      apply-named mid name ne
      ∙ expand-cong mid obj name (object_profile go name)
          (apply_object_profile-SameMode obj mid earlier e).0
      ∙ sym (apply-named obj name ne)
