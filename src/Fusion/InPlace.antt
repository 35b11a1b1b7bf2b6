-- ===== src/Fusion/InPlace.antt =====
-- fusion.go, step 2 of `Assess`: the loop writes tiers and scores into the list that it still reads.
use mathlib.Core.List.{append_assoc}
use shell_sight.Common.{
  ℕ, zero, suc, some, List, [], ◌∷◌, ◌++◌, length, get_elem?, ◌≡◌, refl, arith, ap, ◌∙◌,
  length-append,
}
use shell_sight.Common.Int.{ℤ}
use shell_sight.Finding.{Tier, Finding}
use shell_sight.Fusion.Normalize.{target_key}
use shell_sight.Fusion.Score.{
  corroborates, corroborated_from, corroborated, is_credible_signal, attributed_family, score_body,
  score_finding,
}
use shell_sight.Fusion.{modify, set_score, score_from, score_all}

target_key-set_score : (r : Tier × ℤ) (f : Finding) → target_key (set_score r f) ≡ target_key f
unfolding target_key set_score
target_key-set_score r f = ground arith

corroborates-set_score_peer :
    (r : Tier × ℤ) (f g : Finding) → corroborates f (set_score r g) ≡ corroborates f g
unfolding corroborates is_credible_signal attributed_family set_score
corroborates-set_score_peer r f g = ground (arith, target_key-set_score r g)

-- What a round writes does not change whom a peer corroborates.
corroborated_from-modify :
    (r : Tier × ℤ) (f : Finding) (i j k : ℕ) (xs : List Finding)
    → corroborated_from f i j (modify xs k (set_score r)) ≡ corroborated_from f i j xs
unfolding corroborated_from modify
corroborated_from-modify r f i j k [] = refl
corroborated_from-modify r f i j zero (x ∷ xs) = rw (corroborates-set_score_peer r f x)
corroborated_from-modify r f i j (suc k) (x ∷ xs) = rw (corroborated_from-modify r f i (suc j) k xs)

get_elem?-middle :
    (xs : List Finding) (x : Finding) (ys : List Finding)
    → get_elem? (xs ++ x ∷ ys) (length xs) ≡ some x
get_elem?-middle [] x ys = refl
get_elem?-middle (w ∷ xs) x ys = get_elem?-middle xs x ys

modify-middle :
    (xs : List Finding) (x : Finding) (ys : List Finding) (u : Finding → Finding)
    → modify (xs ++ x ∷ ys) (length xs) u ≡ xs ++ u x ∷ ys
unfolding modify
modify-middle [] x ys u = refl
modify-middle (w ∷ xs) x ys u = ap (◌∷◌ w) (modify-middle xs x ys u)

-- Each finding scored against the list as it was before the loop, whose indices count from `i`.
unfoldable pub scored_from : List Finding → ℕ → List Finding → List Finding
scored_from all i [] = []
scored_from all i (f ∷ fs) =
    set_score (score_body f (corroborated f i all)) f ∷ scored_from all (suc i) fs

-- The list in which the findings of `xs` stand before those of `todo` asks no other question.
SamePeers : List Finding → List Finding → Type 0
SamePeers xs ys = (f : Finding) (i : ℕ) → corroborated f i xs ≡ corroborated f i ys

-- One round, with the list split where it writes.
score_from-round :
    (rounds : ℕ) (done : List Finding) (f : Finding) (fs : List Finding)
    → score_from (suc rounds) (length done) (done ++ f ∷ fs)
      ≡ score_from rounds
          (suc (length done))
          (done ++ set_score (score_body f (corroborated f (length done) (done ++ f ∷ fs))) f ∷ fs)
unfolding score_from score_finding
score_from-round rounds done f fs =
    rw (get_elem?-middle done f fs, score_from, score_finding)
      (rw (
        modify-middle done f fs
          (set_score (score_body f (corroborated f (length done) (done ++ f ∷ fs))))))

SamePeers-round :
    (all done : List Finding) (f : Finding) (fs : List Finding) (r : Tier × ℤ)
    → SamePeers (done ++ f ∷ fs) all
    → SamePeers (done ++ set_score r f ∷ fs) all
unfolding SamePeers corroborated
SamePeers-round all done f fs r same g i =
    rw (← modify-middle done f fs (set_score r))
      (corroborated_from-modify r g i 0 (length done) (done ++ f ∷ fs) ∙ same g i)

score_from-scored :
    (all done todo : List Finding)
    → SamePeers (done ++ todo) all
    → score_from (length todo) (length done) (done ++ todo)
      ≡ some (done ++ scored_from all (length done) todo)
unfolding SamePeers scored_from
score_from-scored all done [] same = unfold score_from in refl
score_from-scored all done (f ∷ fs) same =
    let r : Tier × ℤ = score_body f (corroborated f (length done) all) in
    let grown : length (done ++ set_score r f ∷ []) ≡ suc (length done) =
      omega (arith, length-append done (set_score r f ∷ [])) in
    let later =
      score_from-scored all (done ++ set_score r f ∷ []) fs
        (rw (append_assoc) (SamePeers-round all done f fs r same)) in
    score_from-round (length fs) done f fs
    ∙ rw (same f (length done)) (simp (grown, append_assoc) at later)

-- Scoring in place gives every finding the tier and the score that it has against the list as it was
-- before the loop: no round depends on what an earlier one wrote, and no index is out of range.
pub score_all-scored : (out : List Finding) → score_all out ≡ some (scored_from out 0 out)
unfolding score_all SamePeers
score_all-scored out = score_from-scored out [] out (λ f i. refl)
