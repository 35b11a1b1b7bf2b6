-- ===== src/Fusion/Score.antt =====
-- shellsight/internal/fusion/fusion.go: which findings corroborate another, and the tier and score
-- of one finding.
pub mod Bands
pub mod Peers
use shell_sight.Common.{
  ℕ, suc, String, Bool, true, false, not, ◌&&◌, Option, none, some, List, [], ◌∷◌, ◌==◌, get_elem?,
  if◌then◌else◌,
}
use shell_sight.Common.Int.{ℤ, pos, ltb_ℤ, leb_ℤ}
use shell_sight.Common.Text.{str_eq, one_of}
use shell_sight.Finding.{Tier, clean, suspicious, likely, confirmed, unset, Finding}
use shell_sight.Fusion.Normalize.{target_key}

pub family_set : Option String → Bool
family_set none = false
family_set (some s) = not (str_eq s "")

-- The keys of the map `attributedFamilies`.
pub attributed_families : List String
attributed_families = "Behinder" ∷ "Godzilla" ∷ "AntSword" ∷ "ChinaChopper" ∷ "IceScorpion" ∷ []

attributed_label : Option String → Bool
attributed_label none = false
attributed_label (some s) = one_of s attributed_families

unfoldable pub attributed_family : Finding → Bool
unfolding family_set attributed_label
attributed_family f = family_set f.classification.family && attributed_label f.classification.family

unfoldable pub credible_bases : List String
credible_bases =
    "signature" ∷ "structural-heuristic" ∷ "behavioral" ∷ "provenance-anomaly"
    ∷ "memory-region-anomaly" ∷ "etw-dynamic-load" ∷ "reachability-dispatch" ∷ []

unfoldable pub is_credible_signal : Finding → Bool
is_credible_signal g =
    if g.detection.allowlisted
    then false
    else if attributed_family g
    then true
    else one_of g.detection.basis credible_bases

-- One round of the loop of `corroborated`, for a peer at another index.
unfoldable pub corroborates : Finding → Finding → Bool
corroborates f g =
    if not (str_eq g.host f.host)
    then false
    else if not (is_credible_signal g)
    then false
    else if not (str_eq g.view f.view)
    then true
    else attributed_family g && str_eq (target_key g) (target_key f)

-- The rounds from index `j` on.
unfoldable pub corroborated_from : Finding → ℕ → ℕ → List Finding → Bool
corroborated_from f i j [] = false
corroborated_from f i j (g ∷ gs) =
    let rest = corroborated_from f i (suc j) gs in
    if j == i then rest else if corroborates f g then true else rest

-- `corroborated(i, all)`, with `f` for `all[i]`.
unfoldable pub corroborated : Finding → ℕ → List Finding → Bool
unfolding corroborated_from
corroborated f i all = corroborated_from f i 0 all

pub at_least : ℤ → ℤ → ℤ
at_least score floor = if ltb_ℤ floor score then score else floor

unfoldable pub tier_for_score : ℤ → Tier
tier_for_score score =
    if leb_ℤ (pos 85) score
    then confirmed
    else if leb_ℤ (pos 60) score
    then likely
    else if leb_ℤ (pos 40) score
    then suspicious
    else clean

-- The cases of the `switch` on `f.Detection.Basis`.
pub data BasisClass : Type 0 where
  disk_verdict memory_anomaly behavioral behavioral_context other_basis : BasisClass

unfoldable pub basis_class : String → BasisClass
basis_class b =
    if one_of b ("signature" ∷ "heuristic" ∷ "taint" ∷ [])
    then disk_verdict
    else if one_of b (
        "structural-heuristic" ∷ "provenance-anomaly" ∷ "memory-region-anomaly" ∷ "etw-dynamic-load"
        ∷ "reachability-dispatch" ∷ "stomp-diff" ∷ [])
    then memory_anomaly
    else if str_eq b "behavioral"
    then behavioral
    else if str_eq b "behavioral-context"
    then behavioral_context
    else other_basis

abbrev pub is_confirmed : Tier → Bool
is_confirmed confirmed = true
is_confirmed _ = false

abbrev pub is_likely : Tier → Bool
is_likely likely = true
is_likely _ = false

abbrev pub is_unset : Tier → Bool
is_unset unset = true
is_unset _ = false

pub score_disk : Tier → ℤ → Bool → Tier × ℤ
unfolding at_least tier_for_score
score_disk tier score corr =
    if is_confirmed tier
    then (confirmed, score)
    else if corr && is_likely tier
    then (confirmed, at_least score (pos 90))
    else if ltb_ℤ (pos 0) score
    then if is_unset tier then (tier_for_score score, score) else (tier, score)
    else if not (is_unset tier)
    then (tier, score)
    else (likely, pos 70)

pub score_memory : Tier → ℤ → Bool → Tier × ℤ
unfolding at_least
score_memory tier score corr =
    if is_confirmed tier
    then (confirmed, at_least score (pos 85))
    else if is_likely tier
    then if corr
      then (confirmed, at_least score (pos 95))
      else (likely, if ltb_ℤ score (pos 80) then pos 80 else score)
    else if corr
    then (likely, pos 75)
    else (suspicious, pos 50)

pub score_by_basis : BasisClass → Tier → ℤ → Bool → Tier × ℤ
unfolding score_disk score_memory
score_by_basis disk_verdict tier score corr = score_disk tier score corr
score_by_basis memory_anomaly tier score corr = score_memory tier score corr
score_by_basis behavioral tier score corr = if corr then (likely, pos 75) else (suspicious, pos 50)
score_by_basis behavioral_context tier score corr = (clean, pos 10)
score_by_basis other_basis tier score corr = (suspicious, pos 45)

pub score_attributed : Tier → ℤ → Bool → Tier × ℤ
unfolding at_least
score_attributed tier score corr =
    if corr
    then (confirmed, at_least score (pos 95))
    else if is_confirmed tier
    then (confirmed, score)
    else (likely, at_least score (pos 80))

-- The body of `scoreFinding` once `f := all[i]` and `corr` are known.
unfoldable pub score_body : Finding → Bool → Tier × ℤ
unfolding score_attributed score_by_basis
score_body f corr =
    if attributed_family f
    then score_attributed f.tier f.score corr
    else score_by_basis (basis_class f.detection.basis) f.tier f.score corr

-- `scoreFinding`; `none` is the panic of an index out of range.
unfoldable pub score_finding : ℕ → List Finding → Option (Tier × ℤ)
score_finding i all = elim (get_elem? all i) [
  | none ↦ none
  | some f ↦ some (score_body f (corroborated f i all))
]
