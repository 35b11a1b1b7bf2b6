-- ===== src/Fusion/Score/Bands.antt =====
-- fusion.go, `scoreFinding`: what the tier and the score of one finding can be.
use shell_sight.Common.{Bool, true, false, Bool-cases, inl, inr, ◌≡◌, ◌⊎◌, ◌≤◌, arith}
use shell_sight.Common.Int.{ℤ, pos, ◌≤ℤ◌}
use shell_sight.Finding.{Tier, confirmed, unset, rank, Finding}
use shell_sight.Fusion.Score.{
  tier_for_score, BasisClass, disk_verdict, memory_anomaly, basis_class, score_by_basis,
  score_attributed, score_body, attributed_family,
}

abbrev pub IsCalibrated : Finding → Type 0
IsCalibrated f = tier_for_score f.score ≡ f.tier

score_by_basis-band :
    (b : BasisClass) (t : Tier) (s : ℤ) (corr : Bool)
    → tier_for_score s ≡ t
    → tier_for_score (score_by_basis b t s corr).1 ≡ (score_by_basis b t s corr).0
unfolding score_by_basis
score_by_basis-band disk_verdict t s corr h = ground arith
score_by_basis-band memory_anomaly t s corr h = ground arith
score_by_basis-band _ t s corr h = ground arith

score_attributed-band :
    (t : Tier) (s : ℤ) (corr : Bool)
    → tier_for_score s ≡ t
    → tier_for_score (score_attributed t s corr).1 ≡ (score_attributed t s corr).0
unfolding score_attributed tier_for_score
score_attributed-band t s corr h = ground arith

-- Where the tier that a probe reports is the band of the score that it reports, the tier and the
-- score that fusion gives agree in the same way, with and without a corroborating peer.
pub score_body-IsCalibrated :
    (f : Finding) (corr : Bool)
    → IsCalibrated f
    → tier_for_score (score_body f corr).1 ≡ (score_body f corr).0
unfolding score_body
score_body-IsCalibrated f corr h = elim (Bool-cases (attributed_family f)) [
  | inl yes_family ↦ rw yes_family (score_attributed-band f.tier f.score corr h)
  | inr no_family ↦ rw no_family (score_by_basis-band _ f.tier f.score corr h)
]

-- `r` reads no lower than `q` does.
abbrev pub IsAtMost : Tier × ℤ → Tier × ℤ → Type 0
IsAtMost q r = (rank q.0 ≤ rank r.0) × (q.1 ≤ℤ r.1)

score_by_basis_mono :
    (b : BasisClass) (t : Tier) (s : ℤ)
    → IsAtMost (score_by_basis b t s false) (score_by_basis b t s true)
unfolding score_by_basis rank
score_by_basis_mono disk_verdict t s = ground arith
score_by_basis_mono memory_anomaly t s = ground arith
score_by_basis_mono _ t s = ground arith

score_attributed_mono :
    (t : Tier) (s : ℤ) → IsAtMost (score_attributed t s false) (score_attributed t s true)
unfolding score_attributed rank
score_attributed_mono t s = ground arith

-- A corroborating peer never lowers the tier or the score of a finding.
pub score_body_mono : (f : Finding) → IsAtMost (score_body f false) (score_body f true)
unfolding score_body
score_body_mono f = elim (Bool-cases (attributed_family f)) [
  | inl yes_family ↦ rw yes_family (score_attributed_mono f.tier f.score)
  | inr no_family ↦ rw no_family (score_by_basis_mono _ f.tier f.score)
]

-- What a finding on its own needs to be read as confirmed.
abbrev pub MayConfirmAlone : Finding → Type 0
MayConfirmAlone f =
    (f.tier ≡ confirmed)
    ⊎ ((basis_class f.detection.basis ≡ disk_verdict) × (f.tier ≡ unset) × (pos 85 ≤ℤ f.score))

score_by_basis-confirmed :
    (b : BasisClass) (t : Tier) (s : ℤ)
    → (score_by_basis b t s false).0 ≡ confirmed
    → (t ≡ confirmed) ⊎ ((b ≡ disk_verdict) × (t ≡ unset) × (pos 85 ≤ℤ s))
unfolding score_by_basis
score_by_basis-confirmed disk_verdict t s h = ground arith
score_by_basis-confirmed memory_anomaly t s h = ground arith
score_by_basis-confirmed _ t s h = ground arith

score_attributed-confirmed :
    (t : Tier) (s : ℤ) → (score_attributed t s false).0 ≡ confirmed → t ≡ confirmed
unfolding score_attributed
score_attributed-confirmed t s h = ground arith

-- A finding that no peer corroborates is confirmed only if the probe said so, or if it is a disk
-- finding that came with no tier and with a score of 85 at least.
pub score_body-MayConfirmAlone :
    (f : Finding) → (score_body f false).0 ≡ confirmed → MayConfirmAlone f
unfolding score_body
score_body-MayConfirmAlone f h = elim (Bool-cases (attributed_family f)) [
  | inl yes_family ↦ inl (score_attributed-confirmed f.tier f.score (rw yes_family at h))
  | inr no_family ↦ score_by_basis-confirmed _ f.tier f.score (rw no_family at h)
]
