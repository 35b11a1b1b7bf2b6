-- ===== src/Fusion.antt =====
-- shellsight/internal/fusion/fusion.go: `Assess`, one definition for each of its numbered steps.
pub mod Normalize
pub mod Score
pub mod Dedup
pub mod InPlace
pub mod Verdicts
pub mod Assess
use shell_sight.Common.{
  ℕ, zero, suc, ◌+◌, String, Bool, true, false, not, ◌&&◌, ◌||◌, Option, none, some, List, [], ◌∷◌,
  ◌++◌, map, length, if◌then◌else◌, ltb,
}
use shell_sight.Common.Int.{ℤ, pos, ltb_ℤ}
use shell_sight.Common.Text.{str_eq, concat}
use shell_sight.Finding.{
  Tier, clean, unknown, rank, Classification, Finding, Verdict, Coverage, cov_failed,
}
use Normalize.{MapOrder, mitre_for, family_from_evidence, fingerprint}
use Score.{family_set, score_finding}

-- 1) Correlation.
unfoldable pub correlate : Finding → Finding
correlate f =
    let host = if str_eq f.host "" then "unknown" else f.host in
    record f { correlation_id = concat ("incident-" ∷ host ∷ []) }

-- 1b) Normalisation of one finding: the family label, the tags, then the fingerprint.
set_family : Finding → String → Finding
set_family f fam = record f { classification = record (f.classification) { family = some fam } }

label_family : MapOrder → Finding → Finding
unfolding set_family
label_family order f =
    if family_set f.classification.family
    then f
    else let fam = family_from_evidence order f in if str_eq fam "" then f else set_family f fam

unfoldable pub normalize : (String → String) → MapOrder → Finding → Finding
unfolding label_family
normalize digest order f =
    let labelled = label_family order f in
    let tagged = record labelled { mitre = mitre_for labelled } in
    record tagged { fingerprint = fingerprint digest tagged }

-- The loop over `out`; each round ranges over the fingerprint map in an order of its own.
unfoldable pub normalize_all : (String → String) → (ℕ → MapOrder) → ℕ → List Finding → List Finding
normalize_all digest order i [] = []
normalize_all digest order i (f ∷ fs) =
    normalize digest (order i) f ∷ normalize_all digest order (suc i) fs

-- 1c) Deduplication: `seen` maps a fingerprint to its index in `deduped`.
pub record DedupState : Type 0 where
  pub seen : List (String × ℕ)
  pub deduped : List Finding

unfoldable pub lookup : String → List (String × ℕ) → Option ℕ
lookup k [] = none
lookup k ((j, v) ∷ m) = if str_eq j k then some v else lookup k m

unfoldable pub modify : List Finding → ℕ → (Finding → Finding) → List Finding
modify [] i update = []
modify (x ∷ xs) zero update = update x ∷ xs
modify (x ∷ xs) (suc i) update = x ∷ modify xs i update

unfoldable pub keep_better : Finding → Finding → Finding
keep_better f g = if ltb_ℤ g.score f.score then f else g

unfoldable pub dedup_step : Finding → DedupState → DedupState
dedup_step f s = elim (lookup f.fingerprint s.seen) [
  | some idx ↦ record s { deduped = modify s.deduped idx (keep_better f) }
  | none ↦ record {
    seen = (f.fingerprint, length s.deduped) ∷ s.seen;
    deduped = s.deduped ++ f ∷ [];
  }
]

unfoldable pub dedup_from : List Finding → DedupState → DedupState
dedup_from [] s = s
dedup_from (f ∷ fs) s = dedup_from fs (dedup_step f s)

unfoldable pub dedup : List Finding → List Finding
dedup fs = (dedup_from fs (record { seen = []; deduped = [] })).deduped

-- 2) Scoring, in place: a round sees what earlier rounds have written.
unfoldable pub set_score : Tier × ℤ → Finding → Finding
set_score r f = record f { tier = r.0; score = r.1 }

unfoldable pub score_from : ℕ → ℕ → List Finding → Option (List Finding)
unfolding set_score
score_from zero i out = some out
score_from (suc rounds) i out = elim (score_finding i out) [
  | none ↦ none
  | some r ↦ score_from rounds (suc i) (modify out i (set_score r))
]

unfoldable pub score_all : List Finding → Option (List Finding)
score_all out = score_from (length out) 0 out

-- 3) Verdict.
unfoldable pub worst_tier : Tier → List Finding → Tier
worst_tier t [] = t
worst_tier t (f ∷ fs) = worst_tier (if ltb (rank t) (rank f.tier) then f.tier else t) fs

unfoldable pub max_score : ℤ → List Finding → ℤ
max_score s [] = s
max_score s (f ∷ fs) = max_score (if ltb_ℤ s f.score then f.score else s) fs

unfoldable pub any_incomplete : Bool → List Coverage → Bool
any_incomplete b [] = b
any_incomplete b (c ∷ cs) =
    any_incomplete (if str_eq c.status cov_failed || c.truncated then true else b) cs

abbrev pub is_clean : Tier → Bool
is_clean clean = true
is_clean _ = false

unfoldable pub rollup : List Finding → List Coverage → Verdict
rollup out coverage =
    let tier = worst_tier clean out in
    let incomplete = any_incomplete false coverage in
    record {
      tier = if incomplete && is_clean tier then unknown else tier;
      score = max_score (pos 0) out;
      incomplete = incomplete;
    }

-- `Assess`. The digest and the orders of the map are arguments; `none` is an index panic.
unfoldable pub assess :
    (String → String)
    → (ℕ → MapOrder)
    → List Finding
    → List Coverage
    → Option (Verdict × List Finding)
assess digest order findings coverage =
    let normalized = normalize_all digest order 0 (map correlate findings) in
    elim (score_all (dedup normalized)) [ none ↦ none | some out ↦ some (rollup out coverage, out) ]
