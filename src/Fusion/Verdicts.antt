-- ===== src/Fusion/Verdicts.antt =====
-- fusion.go, step 3 of `Assess`, and what the verdict of a whole assessment says.
use shell_sight.Common.{
  ℕ, ◌≤◌, Bool, true, false, Bool-cases, List, [], ◌∷◌, ◌≡◌, ◌≢◌, ◌⊎◌, refl, sym, arith,
  if◌then◌else◌, inl, inr, All, Any, ltb, ◌||◌,
}
use shell_sight.Common.Int.{ℤ, pos, ◌≤ℤ◌, ltb_ℤ}
use shell_sight.Common.Text.{str_eq, str_eq_iff}
use shell_sight.Finding.{Tier, clean, unknown, rank, Finding, Verdict, Coverage, cov_failed}
use shell_sight.Fusion.{worst_tier, max_score, any_incomplete, rollup}

-- The view was examined as far as its record can say: it did not fail and did not stop early.
abbrev pub IsCovered : Coverage → Type 0
IsCovered c = (c.status ≢ cov_failed) × (c.truncated ≡ false)

any_incomplete_sound :
    (cs : List Coverage) (b : Bool) → any_incomplete b cs ≡ false → (b ≡ false) × All IsCovered cs
unfolding any_incomplete
any_incomplete_sound [] b h = (h, tt)
any_incomplete_sound (c ∷ cs) b h =
    let test = str_eq c.status cov_failed || c.truncated in
    let (here, rest) = any_incomplete_sound cs (if test then true else b) h in
    (
      ground (arith, here),
      ((λ e. ground (arith, here, e, str_eq_iff c.status cov_failed), ground (arith, here)), rest),
    )

any_incomplete_complete :
    (cs : List Coverage) (b : Bool) → b ≡ false → All IsCovered cs → any_incomplete b cs ≡ false
unfolding any_incomplete
any_incomplete_complete [] b e h = e
any_incomplete_complete (c ∷ cs) b e h =
    any_incomplete_complete cs (if str_eq c.status cov_failed || c.truncated then true else b)
      (ground (arith, str_eq_iff c.status cov_failed)) h.1

pub worst_tier-bound :
    (fs : List Finding) (t : Tier)
    → (rank t ≤ rank (worst_tier t fs)) × All (λ f. rank f.tier ≤ rank (worst_tier t fs)) fs
unfolding worst_tier
worst_tier-bound [] t = (omega arith, tt)
worst_tier-bound (f ∷ fs) t =
    let (here, rest) = worst_tier-bound fs (if ltb (rank t) (rank f.tier) then f.tier else t) in
    (ground (arith, here), (ground (arith, here), rest))

pub max_score-bound :
    (fs : List Finding) (s : ℤ) → (s ≤ℤ max_score s fs) × All (λ f. f.score ≤ℤ max_score s fs) fs
unfolding max_score
max_score-bound [] s = (omega arith, tt)
max_score-bound (f ∷ fs) s =
    let (here, rest) = max_score-bound fs (if ltb_ℤ s f.score then f.score else s) in
    (ground (arith, here), (ground (arith, here), rest))

-- The worst tier stays clean over findings of rank 0, and over no others.
worst_tier-clean : (fs : List Finding) → All (λ f. rank f.tier ≡ 0) fs → worst_tier clean fs ≡ clean
unfolding worst_tier rank
worst_tier-clean [] h = refl
worst_tier-clean (f ∷ fs) h = ground (arith, worst_tier-clean fs h.1, h.0)

ranks_zero :
    (fs : List Finding) (n : ℕ)
    → n ≡ 0
    → All (λ f. rank f.tier ≤ n) fs
    → All (λ f. rank f.tier ≡ 0) fs
ranks_zero [] n e h = tt
ranks_zero (f ∷ fs) n e h = (omega arith, ranks_zero fs n e h.1)

-- All that makes an all-clear: every view covered, and nothing of a reportable tier.
abbrev pub IsAllClear : List Finding → List Coverage → Type 0
IsAllClear out coverage = All (λ f. rank f.tier ≡ 0) out × All IsCovered coverage

pub rollup-clean :
    (out : List Finding) (cs : List Coverage)
    → ((rollup out cs).tier ≡ clean → IsAllClear out cs)
      × (IsAllClear out cs → (rollup out cs).tier ≡ clean)
unfolding rollup
rollup-clean out cs = (
  λ h.
      let covered : any_incomplete false cs ≡ false = ground (arith, h) in
      let tier : worst_tier clean out ≡ clean = ground (arith, h, covered) in
      (
        ranks_zero out (rank (worst_tier clean out)) (rw tier (unfold rank in refl))
            (worst_tier-bound out clean).1,
        (any_incomplete_sound cs false covered).1,
      ),
  λ c. rw (any_incomplete_complete cs false refl c.1, worst_tier-clean out c.0),
)

worst_tier-attained :
    (fs : List Finding) (t w : Tier) → worst_tier t fs ≡ w → (w ≡ t) ⊎ Any (λ f. f.tier ≡ w) fs
unfolding worst_tier
worst_tier-attained [] t w h = inl (sym h)
worst_tier-attained (f ∷ fs) t w h =
    let worse = ltb (rank t) (rank f.tier) in
    elim (worst_tier-attained fs (if worse then f.tier else t) w h) [
      | inl e ↦ elim (Bool-cases worse) [
        | inl b ↦ inr (inl (sym (rw b at e)))
        | inr b ↦ inl (rw b at e)
      ]
      | inr later ↦ inr (inr later)
    ]

max_score-attained :
    (fs : List Finding) (s m : ℤ) → max_score s fs ≡ m → (m ≡ s) ⊎ Any (λ f. f.score ≡ m) fs
unfolding max_score
max_score-attained [] s m h = inl (sym h)
max_score-attained (f ∷ fs) s m h =
    let more = ltb_ℤ s f.score in
    elim (max_score-attained fs (if more then f.score else s) m h) [
      | inl e ↦ elim (Bool-cases more) [
        | inl b ↦ inr (inl (sym (rw b at e)))
        | inr b ↦ inl (rw b at e)
      ]
      | inr later ↦ inr (inr later)
    ]

-- The verdict is the worst that the findings say: no finding has a higher rank or a higher score, and
-- the tier and the score are those of some finding, or are clean or unknown, and 0.
pub record IsWorst (v : Verdict) (out : List Finding) : Type 0 where
  pub ranks : All (λ f. rank f.tier ≤ rank v.tier) out
  pub scores : All (λ f. f.score ≤ℤ v.score) out
  pub tier_is : (v.tier ≡ clean) ⊎ ((v.tier ≡ unknown) ⊎ Any (λ f. f.tier ≡ v.tier) out)
  pub score_is : (v.score ≡ pos 0) ⊎ Any (λ f. f.score ≡ v.score) out

rollup-rank :
    (out : List Finding) (cs : List Coverage)
    → rank (rollup out cs).tier ≡ rank (worst_tier clean out)
unfolding rollup rank
rollup-rank out cs = ground arith

rollup-tier :
    (out : List Finding) (cs : List Coverage)
    → ((rollup out cs).tier ≡ unknown) ⊎ ((rollup out cs).tier ≡ worst_tier clean out)
unfolding rollup
rollup-tier out cs = ground arith

pub rollup-IsWorst : (out : List Finding) (cs : List Coverage) → IsWorst (rollup out cs) out
rollup-IsWorst out cs = record {
  ranks = rw (rollup-rank out cs) (worst_tier-bound out clean).1;
  scores = unfold rollup in (max_score-bound out (pos 0)).1;
  tier_is = elim (rollup-tier out cs) [
    | inl e ↦ inr (inl e)
    | inr e ↦ rw e (elim (worst_tier-attained out clean _ refl) [
      | inl c ↦ inl c
      | inr some_finding ↦ inr (inr some_finding)
    ])
  ];
  score_is = unfold rollup in max_score-attained out (pos 0) _ refl;
}
