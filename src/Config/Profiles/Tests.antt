-- ===== src/Config/Profiles/Tests.antt =====
-- pkg/config/object.go and object_profiles.go at concrete configurations.
use io_stress.Common.{
  ℕ, ◌≡◌, refl, true, ◌&&◌, String, none, some, List, [], ◌∷◌, arith, eq_iff, leb,
}
use io_stress.Config.Object.{
  Texts, ObjectConfig, ordered, object_phases, known_phase, listed, pick, want_step, want_of,
  ordered_of, ordered_phases, first_of, size_checks, quantity_checks, late_checks, validate_enabled,
  validate_normal,
}
use io_stress.Config.Object.Checks.{Runnable, validate_normal-Runnable}
use io_stress.Config.Object.Phases.{ordered_phases-listed}
use io_stress.Config.Profiles.{
  standard_object, smoke_object, scale_object, object_profile, keep_mode, expand,
  apply_object_profile,
}
use io_stress.Config.Profiles.Kept.{
  SameMode, apply_object_profile-SameMode, apply_object_profile-last,
}

-- Percentages are whole, and every size and quantity is taken for a good one.
abbrev go : Texts
go = record {
  F = ℕ;
  percent = λ n. leb n 100;
  of_int = λ n. n;
  trim_space = λ s. s;
  is_size = λ s. true;
  is_quantity = λ s. true;
  is_seed = λ s. true;
  key_prefix = λ s. true;
}

-- The profile `scale`, turned on and normalized.
abbrev scale : ObjectConfig go
scale = record (scale_object go) {
  enabled = true;
  backend = "noobaa";
  odf_namespace = "openshift-storage";
}

scale-valid : validate_normal go scale ≡ none
unfolding validate_normal validate_enabled first_of size_checks quantity_checks late_checks
    ordered_phases listed scale_object standard_object
scale-valid = refl

validate_normal-Runnable_example : Runnable go scale
validate_normal-Runnable_example = validate_normal-Runnable go scale refl scale-valid

two_phases : ordered_phases go ("delete" ∷ "write" ∷ []) ≡ ordered ("write" ∷ "delete" ∷ [])
unfolding ordered_phases want_of want_step ordered_of pick listed
two_phases = refl

ordered_phases-listed_example :
    (want : List String) × (("write" ∷ "delete" ∷ []) ≡ pick object_phases want)
    × ((p : String)
        → listed p ("write" ∷ "delete" ∷ [])
          ≡ (known_phase p && listed p ("delete" ∷ "write" ∷ [])))
ordered_phases-listed_example =
    ordered_phases-listed go "delete" ("write" ∷ []) ("write" ∷ "delete" ∷ []) two_phases

abbrev forced : ObjectConfig go
forced = record scale { force = true; seed = "07" }

abbrev small : ObjectConfig go
small = keep_mode go "smoke" forced (smoke_object go)

forced-small : apply_object_profile go forced "smoke" ≡ some small
unfolding apply_object_profile expand object_profile
forced-small = refl

apply_object_profile-SameMode_run : SameMode go small forced × (small.profile ≡ "smoke")
apply_object_profile-SameMode_run =
    apply_object_profile-SameMode go forced small "smoke" forced-small

profile_last_run : apply_object_profile go small "large" ≡ apply_object_profile go forced "large"
profile_last_run =
    apply_object_profile-last go forced small "smoke" "large"
      (ground (arith, eq_iff "large" "custom")) forced-small
