-- ===== src/Triage/Holds.antt =====
-- What a group of findings holds.
use shell_sight.Common.{
  ℕ, ◌≤◌, ◌≡◌, ◌⊎◌, inl, inr, refl, sym, ap, ◌∙◌, subst, arith, true, false, String, List, [], ◌∷◌,
  ◌++◌, All, Any, if◌then◌else◌, ltb, Bool-cases,
}
use shell_sight.Common.Int.{ℤ, pos, ltb_ℤ, ◌≤ℤ◌}
use shell_sight.Common.Text.{str_eq, str_eq_iff}
use shell_sight.Triage.{FindingRecord, Group, tier_rank, absorb}

-- The findings of one content, in their order.
unfoldable pub about : String → List FindingRecord → List FindingRecord
about key [] = []
about key (f ∷ fs) = if str_eq f.content_key key then f ∷ about key fs else about key fs

-- The tier is one of the findings', or the empty one, and none is above it; likewise the score.
unfoldable pub IsSeverity : Group → List FindingRecord → Type 0
IsSeverity g fs =
    All (λ f. (tier_rank f.tier ≤ tier_rank g.tier) × (f.score ≤ℤ g.score)) fs
    × ((g.tier ≡ "") ⊎ Any (λ f. g.tier ≡ f.tier) fs)
    × ((g.score ≡ pos 0) ⊎ Any (λ f. g.score ≡ f.score) fs)

unfoldable pub Holds : List FindingRecord → Group → Type 0
Holds found g = (g.findings ≡ about g.content_key found) × IsSeverity g g.findings

pub about-append :
    (key : String) (fs : List FindingRecord) (f : FindingRecord)
    → about key (fs ++ f ∷ [])
      ≡ (if str_eq f.content_key key then about key fs ++ f ∷ [] else about key fs)
unfolding about
about-append key [] f = refl
about-append key (x ∷ fs) f = ground (arith, about-append key fs f)

unfoldable pub Fresh : String → List Group → Type 0
Fresh key gs = All (λ g. str_eq g.content_key key ≡ false) gs

unfoldable pub Distinct : List Group → Type 0
Distinct [] = Unit
Distinct (g ∷ gs) = Fresh g.content_key gs × Distinct gs

-- A finding of another content leaves a group as it is.
pub Holds-other :
    (fs : List FindingRecord) (f : FindingRecord) (g : Group)
    → str_eq f.content_key g.content_key ≡ false
    → Holds fs g
    → Holds (fs ++ f ∷ []) g
unfolding Holds
Holds-other fs f g other (kept, severe) =
    (kept ∙ sym (about-append g.content_key fs f ∙ rw other refl), severe)

All-snoc :
    (P : FindingRecord → Type 0) (fs : List FindingRecord) (f : FindingRecord)
    → All P fs
    → P f
    → All P (fs ++ f ∷ [])
All-snoc P [] f all p = (p, tt)
All-snoc P (x ∷ fs) f (q, all) p = (q, All-snoc P fs f all p)

Any-snoc :
    (P : FindingRecord → Type 0) (fs : List FindingRecord) (f : FindingRecord)
    → Any P fs ⊎ P f
    → Any P (fs ++ f ∷ [])
Any-snoc P [] f (inl none_there) = elim none_there [ ]
Any-snoc P [] f (inr p) = inl p
Any-snoc P (x ∷ fs) f (inl (inl q)) = inl q
Any-snoc P (x ∷ fs) f (inl (inr any)) = inr (Any-snoc P fs f (inl any))
Any-snoc P (x ∷ fs) f (inr p) = inr (Any-snoc P fs f (inr p))

raise :
    (fs : List FindingRecord) (r r' : ℕ) (s s' : ℤ)
    → r ≤ r'
    → s ≤ℤ s'
    → All (λ f. (tier_rank f.tier ≤ r) × (f.score ≤ℤ s)) fs
    → All (λ f. (tier_rank f.tier ≤ r') × (f.score ≤ℤ s')) fs
raise [] r r' s s' hr hs all = tt
raise (f ∷ fs) r r' s s' hr hs ((a, b), all) =
    ((omega arith, omega arith), raise fs r r' s s' hr hs all)

-- The tier and the score of a group after one more finding.
tier_step :
    (f : FindingRecord) (g : Group)
    → (tier_rank g.tier ≤ tier_rank (absorb f g).tier)
      × (tier_rank f.tier ≤ tier_rank (absorb f g).tier)
      × (((absorb f g).tier ≡ g.tier) ⊎ ((absorb f g).tier ≡ f.tier))
unfolding absorb
tier_step f g = elim (Bool-cases (ltb (tier_rank g.tier) (tier_rank f.tier))) [
  | inl above ↦ rw above (ground arith, omega arith, inr refl)
  | inr below ↦ rw below (omega arith, ground arith, inl refl)
]

score_step :
    (f : FindingRecord) (g : Group)
    → (g.score ≤ℤ (absorb f g).score)
      × (f.score ≤ℤ (absorb f g).score)
      × (((absorb f g).score ≡ g.score) ⊎ ((absorb f g).score ≡ f.score))
unfolding absorb
score_step f g = elim (Bool-cases (ltb_ℤ g.score f.score)) [
  | inl above ↦ rw above (ground arith, omega arith, inr refl)
  | inr below ↦ rw below (omega arith, ground arith, inl refl)
]

tier_origin :
    (fs : List FindingRecord) (f : FindingRecord) (t t' : String)
    → (t' ≡ t) ⊎ (t' ≡ f.tier)
    → (t ≡ "") ⊎ Any (λ h. t ≡ h.tier) fs
    → (t' ≡ "") ⊎ Any (λ h. t' ≡ h.tier) (fs ++ f ∷ [])
tier_origin fs f t t' (inl kept) (inl empty) = inl (kept ∙ empty)
tier_origin fs f t t' (inl kept) (inr any) =
    inr (Any-snoc _ fs f (inl (subst (λ u. Any (λ h. u ≡ h.tier) fs) (sym kept) any)))
tier_origin fs f t t' (inr taken) _ = inr (Any-snoc _ fs f (inr taken))

score_origin :
    (fs : List FindingRecord) (f : FindingRecord) (s s' : ℤ)
    → (s' ≡ s) ⊎ (s' ≡ f.score)
    → (s ≡ pos 0) ⊎ Any (λ h. s ≡ h.score) fs
    → (s' ≡ pos 0) ⊎ Any (λ h. s' ≡ h.score) (fs ++ f ∷ [])
score_origin fs f s s' (inl kept) (inl zero_yet) = inl (kept ∙ zero_yet)
score_origin fs f s s' (inl kept) (inr any) =
    inr (Any-snoc _ fs f (inl (subst (λ u. Any (λ h. u ≡ h.score) fs) (sym kept) any)))
score_origin fs f s s' (inr taken) _ = inr (Any-snoc _ fs f (inr taken))

absorb-IsSeverity :
    (fs : List FindingRecord) (f : FindingRecord) (g : Group)
    → IsSeverity g fs
    → IsSeverity (absorb f g) (fs ++ f ∷ [])
unfolding IsSeverity
absorb-IsSeverity fs f g (above, tiers, scores) =
    let (t1, t2, t3) = tier_step f g in
    let (s1, s2, s3) = score_step f g in
    (
      All-snoc _ fs f (raise fs _ _ _ _ t1 s1 above) (t2, s2),
      tier_origin fs f _ _ t3 tiers,
      score_origin fs f _ _ s3 scores,
    )

-- Its own group takes a finding in.
pub Holds-absorb :
    (fs : List FindingRecord) (f : FindingRecord) (g : Group)
    → str_eq f.content_key g.content_key ≡ true
    → Holds fs g
    → Holds (fs ++ f ∷ []) (absorb f g)
unfolding Holds absorb
Holds-absorb fs f g same (kept, severe) = (
  ap (λ r. r ++ f ∷ []) kept ∙ sym (about-append g.content_key fs f ∙ rw same refl),
  absorb-IsSeverity g.findings f g severe,
)

pub key-absorb : (f : FindingRecord) (g : Group) → (absorb f g).content_key ≡ g.content_key
unfolding absorb
key-absorb f g = refl

pub str_eq_sym : (a b : String) → str_eq a b ≡ str_eq b a
str_eq_sym a b = ground (arith, str_eq_iff a b, str_eq_iff b a)

-- All groups of contents that the finding does not have stay right.
pub Holds-Fresh :
    (fs : List FindingRecord) (f : FindingRecord) (gs : List Group)
    → Fresh f.content_key gs
    → All (Holds fs) gs
    → All (Holds (fs ++ f ∷ [])) gs
unfolding Fresh
Holds-Fresh fs f [] fresh all = tt
Holds-Fresh fs f (g ∷ gs) (apart, fresh) (h, all) = (
  Holds-other fs f g (str_eq_sym f.content_key g.content_key ∙ apart) h,
  Holds-Fresh fs f gs fresh all,
)
