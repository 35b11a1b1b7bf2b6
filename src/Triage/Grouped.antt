-- ===== src/Triage/Grouped.antt =====
-- The loop over the findings: each content has one group, and it holds what was said of it.
use shell_sight.Common.{
  ◌≡◌, inl, inr, refl, sym, ◌∙◌, subst, arith, true, false, String, List, [], ◌∷◌, ◌++◌, All,
  Bool-cases, append_assoc, append-nil,
}
use shell_sight.Common.Text.{str_eq, str_eq_iff}
use shell_sight.Triage.{FindingRecord, Group, new_group, absorb, add_finding, group_from}
use shell_sight.Triage.Holds.{
  about, about-append, IsSeverity, Holds, Fresh, Distinct, Holds-absorb, Holds-other, Holds-Fresh,
  str_eq_sym,
}

str_eq_refl : (s : String) → str_eq s s ≡ true
str_eq_refl s = (str_eq_iff s s).1 refl

add-same :
    (f : FindingRecord) (g : Group) (gs : List Group)
    → str_eq g.content_key f.content_key ≡ true
    → add_finding f (g ∷ gs) ≡ absorb f g ∷ gs
unfolding add_finding
add-same f g gs same = rw (same, add_finding) refl

add-other :
    (f : FindingRecord) (g : Group) (gs : List Group)
    → str_eq g.content_key f.content_key ≡ false
    → add_finding f (g ∷ gs) ≡ g ∷ add_finding f gs
unfolding add_finding
add-other f g gs other = rw (other, add_finding) refl

Fresh-add_finding :
    (key : String) (f : FindingRecord) (gs : List Group)
    → str_eq f.content_key key ≡ false
    → Fresh key gs
    → Fresh key (add_finding f gs)
unfolding add_finding absorb Fresh
Fresh-add_finding key f [] other fresh = (other, tt)
Fresh-add_finding key f (g ∷ gs) other (apart, fresh) =
    ground (arith, Fresh-add_finding key f gs other fresh)

-- A key that no group has after a round was in no group before it, and is not the finding's.
Fresh-before :
    (key : String) (f : FindingRecord) (gs : List Group)
    → Fresh key (add_finding f gs)
    → Fresh key gs × (str_eq f.content_key key ≡ false)
unfolding Fresh absorb
Fresh-before key f [] fresh = unfold add_finding in (tt, fresh.0)
Fresh-before key f (g ∷ gs) fresh = elim (Bool-cases (str_eq g.content_key f.content_key)) [
  | inl same ↦
      let (apart, others) = subst (Fresh key) (add-same f g gs same) fresh in
      let one = (str_eq_iff g.content_key f.content_key).0 same in
      ((apart, others), subst (λ k. str_eq k key ≡ false) one apart)
  | inr other ↦
      let (apart, others) = subst (Fresh key) (add-other f g gs other) fresh in
      let (before, last) = Fresh-before key f gs others in ((apart, before), last)
]

Distinct-add_finding :
    (f : FindingRecord) (gs : List Group) → Distinct gs → Distinct (add_finding f gs)
unfolding Distinct Fresh absorb
Distinct-add_finding f [] apart = unfold add_finding in (tt, tt)
Distinct-add_finding f (g ∷ gs) (fresh, apart) =
    elim (Bool-cases (str_eq g.content_key f.content_key)) [
      | inl same ↦ subst Distinct (sym (add-same f g gs same)) (fresh, apart)
      | inr other ↦ subst Distinct (sym (add-other f g gs other)) (
        Fresh-add_finding g.content_key f gs (str_eq_sym f.content_key g.content_key ∙ other) fresh,
        Distinct-add_finding f gs apart,
      )
    ]

-- The invariant of the loop over the findings.
unfoldable pub IsGrouping : List FindingRecord → List Group → Type 0
IsGrouping fs gs =
    All (Holds fs) gs × Distinct gs × ((key : String) → Fresh key gs → about key fs ≡ [])

new_group-Holds :
    (fs : List FindingRecord) (key : String) → about key fs ≡ [] → Holds fs (new_group key)
unfolding Holds IsSeverity
new_group-Holds fs key none_yet = (sym none_yet, (tt, inl refl, inl refl))

Holds-add_finding :
    (fs : List FindingRecord) (f : FindingRecord) (gs : List Group)
    → Distinct gs
    → All (Holds fs) gs
    → (Fresh f.content_key gs → about f.content_key fs ≡ [])
    → All (Holds (fs ++ f ∷ [])) (add_finding f gs)
unfolding Distinct Fresh
Holds-add_finding fs f [] apart all absent =
    unfold add_finding in
    (
      Holds-absorb fs f (new_group f.content_key) (str_eq_refl f.content_key)
          (new_group-Holds fs f.content_key (absent tt)),
      tt,
    )
Holds-add_finding fs f (g ∷ gs) (fresh, apart) (h, all) absent =
    elim (Bool-cases (str_eq g.content_key f.content_key)) [
      | inl same ↦
          let one = (str_eq_iff g.content_key f.content_key).0 same in
          subst (All (Holds (fs ++ f ∷ []))) (sym (add-same f g gs same)) (
            Holds-absorb fs f g (str_eq_sym f.content_key g.content_key ∙ same) h,
            Holds-Fresh fs f gs (subst (λ k. Fresh k gs) one fresh) all,
          )
      | inr other ↦ subst (All (Holds (fs ++ f ∷ []))) (sym (add-other f g gs other)) (
        Holds-other fs f g (str_eq_sym f.content_key g.content_key ∙ other) h,
        Holds-add_finding fs f gs apart all (λ fresh'. absent ((other, fresh'))),
      )
    ]

IsGrouping-add_finding :
    (fs : List FindingRecord) (f : FindingRecord) (gs : List Group)
    → IsGrouping fs gs
    → IsGrouping (fs ++ f ∷ []) (add_finding f gs)
unfolding IsGrouping
IsGrouping-add_finding fs f gs (all, apart, absent) = (
  Holds-add_finding fs f gs apart all (absent f.content_key),
  Distinct-add_finding f gs apart,
  λ key fresh.
      let (before, other) = Fresh-before key f gs fresh in
      about-append key fs f ∙ rw other (absent key before),
)

-- The loop keeps the invariant.
pub group_from-IsGrouping :
    (rest fs : List FindingRecord) (gs : List Group)
    → IsGrouping fs gs
    → IsGrouping (fs ++ rest) (group_from rest gs)
unfolding group_from
group_from-IsGrouping [] fs gs inv = rw append-nil inv
group_from-IsGrouping (f ∷ rest) fs gs inv = rw (← append_assoc fs (f ∷ []) rest) (
    group_from-IsGrouping rest (fs ++ f ∷ []) (add_finding f gs)
      (IsGrouping-add_finding fs f gs inv))
