-- ===== src/Fusion/Normalize/Labels.antt =====
-- normalize.go, `familyFromEvidence`: the label against the order in which Go ranges over the map.
use shell_sight.Common.{◌&&◌, Bool, true, false, String, ◌≡◌, ◌≢◌, arith}
use mathlib.Core.Bool.{false≢true}
use shell_sight.Common.Text.{contains_lower, str_eq_iff}
use shell_sight.Finding.{Finding}
use shell_sight.Fusion.Normalize.{
  behinder_first, godzilla_first, behinder_key, godzilla_key, family_from_evidence,
}

-- The evidence holds the key of both families.
abbrev pub holds_both : Finding → Bool
holds_both f =
    contains_lower f.detection.evidence behinder_key
    && contains_lower f.detection.evidence godzilla_key

family_ne : ◌≢◌ {A = String} "Behinder" "Godzilla"
family_ne e = false≢true ((str_eq_iff "Behinder" "Godzilla").1 e)

-- The family read from the evidence is the same in both orders of the map exactly when the evidence
-- does not hold the keys of both families.
pub family_from_evidence-order :
    (f : Finding)
    → (holds_both f ≡ false
        → family_from_evidence behinder_first f ≡ family_from_evidence godzilla_first f)
      × (holds_both f ≡ true
          → family_from_evidence behinder_first f ≢ family_from_evidence godzilla_first f)
unfolding family_from_evidence
family_from_evidence-order f = (λ h. ground arith, λ h e. ground (arith, family_ne))
