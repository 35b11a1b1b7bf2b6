-- ===== src/Fusion/Assess.antt =====
-- fusion.go, `Assess` as a whole, and main.go's exit status of its verdict.
use mathlib.Core.Option.{some-injective}
use shell_sight.Common.{
  sym, ap, ℕ, ◌<◌, String, some, List, [], ◌∷◌, map, ◌≡◌, ◌⊎◌, refl, arith, ◌∙◌, if◌then◌else◌, inl,
  ltb,
}
use shell_sight.Finding.{Tier, clean, rank, Finding, Verdict, Coverage}
use shell_sight.ExitCode.{exit_code}
use shell_sight.Fusion.Normalize.{MapOrder}
use shell_sight.Fusion.InPlace.{scored_from, score_all-scored}
use shell_sight.Fusion.Verdicts.{IsAllClear, rollup-clean, IsWorst, rollup-IsWorst}
use shell_sight.Fusion.{correlate, normalize_all, dedup, worst_tier, rollup, assess}

-- The findings of the report: each is scored against the deduplicated list of all.
unfoldable pub assessed : (String → String) → (ℕ → MapOrder) → List Finding → List Finding
assessed digest order findings =
    let kept = dedup (normalize_all digest order 0 (map correlate findings)) in
    scored_from kept 0 kept

module _ (digest : String → String) (order : ℕ → MapOrder) where
  -- `Assess` always answers, and its answer is the roll-up of the findings scored independently of
  -- one another.
  pub assess-assessed :
      (findings : List Finding) (coverage : List Coverage)
      → assess digest order findings coverage
        ≡ some (rollup (assessed digest order findings) coverage, assessed digest order findings)
  unfolding assess assessed
  assess-assessed findings coverage =
      rw (score_all-scored (dedup (normalize_all digest order 0 (map correlate findings))), assess)

worst_tier-cases :
    (fs : List Finding) (t : Tier) → (worst_tier t fs ≡ t) ⊎ (0 < rank (worst_tier t fs))
unfolding worst_tier
worst_tier-cases [] t = inl refl
worst_tier-cases (f ∷ fs) t =
    let next : Tier = if ltb (rank t) (rank f.tier) then f.tier else t in
    ground (arith, worst_tier-cases fs next)

rollup-exit_code :
    (out : List Finding) (cs : List Coverage)
    → exit_code (rollup out cs) ≡ 0
    → (rollup out cs).tier ≡ clean
unfolding exit_code rollup rank
rollup-exit_code out cs h = ground (arith, worst_tier-cases out clean)

exit_code-clean :
    (out : List Finding) (cs : List Coverage)
    → (rollup out cs).tier ≡ clean
    → exit_code (rollup out cs) ≡ 0
unfolding exit_code rollup
exit_code-clean out cs h = ground arith

module _ (digest : String → String) (order : ℕ → MapOrder) (findings : List Finding)
    (coverage : List Coverage) (v : Verdict) (out : List Finding)
    (run : assess digest order findings coverage ≡ some (v, out)) where
  answer :
      ◌≡◌ {A = Verdict × List Finding}
        (rollup (assessed digest order findings) coverage, assessed digest order findings)
        (v, out)
  answer = some-injective _ _ (sym (assess-assessed digest order findings coverage) ∙ run)

  verdict_is : rollup out coverage ≡ v
  verdict_is = rw (← ap (λ r. r.1) answer) (ap (λ r. r.0) answer)

  -- Whenever `Assess` answers, the exit status of its verdict is 0 exactly when every view was covered
  -- (none failed, none stopped early) and no finding of the report has a reportable tier.
  pub assess-exit_code :
      (exit_code v ≡ 0 → IsAllClear out coverage) × (IsAllClear out coverage → exit_code v ≡ 0)
  assess-exit_code = rw (← verdict_is) (
    λ h. (rollup-clean out coverage).0 (rollup-exit_code out coverage h),
    λ c. exit_code-clean out coverage ((rollup-clean out coverage).1 c),
  )

  -- Whenever `Assess` answers, its verdict is the worst that the findings of the report say.
  pub assess-IsWorst : IsWorst v out
  assess-IsWorst = rw (← verdict_is) (rollup-IsWorst out coverage)
