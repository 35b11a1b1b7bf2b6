-- ===== src/Triage/Keys.antt =====
-- Each content of the findings is one group, and what a group of clean findings shows.
use shell_sight.Common.{
  ℕ, ◌+◌, ◌≤◌, ◌≡◌, ◌≢◌, ◌⊎◌, inl, inr, refl, ap, ◌∙◌, subst, arith, false, String, List, [], ◌∷◌,
  map, All, if◌then◌else◌, Bool-cases, ltb,
}
use shell_sight.Common.Text.{str_eq, str_eq_iff}
use shell_sight.Triage.{
  FindingRecord, Group, tier_rank, absorb, add_finding, group_from, complete_group, worse,
  insert_group, sort_groups, groups, new_group,
}
use shell_sight.Triage.Holds.{about, Fresh, Distinct}
use shell_sight.Triage.Grouped.{IsGrouping, group_from-IsGrouping}
use shell_sight.Triage.Order.{sort-All}

-- The number of groups with a key.
unfoldable pub count_key : String → List Group → ℕ
count_key key [] = 0
count_key key (g ∷ gs) = (if str_eq g.content_key key then 1 else 0) + count_key key gs

Fresh-count_key : (key : String) (gs : List Group) → Fresh key gs → count_key key gs ≡ 0
unfolding Fresh count_key
Fresh-count_key key [] fresh = refl
Fresh-count_key key (g ∷ gs) (apart, fresh) = rw (apart, Fresh-count_key key gs fresh) refl

Distinct-count_key : (key : String) (gs : List Group) → Distinct gs → count_key key gs ≤ 1
unfolding Distinct count_key
Distinct-count_key key [] apart = omega arith
Distinct-count_key key (g ∷ gs) (fresh, apart) = elim (Bool-cases (str_eq g.content_key key)) [
  | inl same ↦
      let one = (str_eq_iff g.content_key key).0 same in
      let others = Fresh-count_key key gs (subst (λ k. Fresh k gs) one fresh) in
      rw (same, others) (omega arith)
  | inr other ↦ rw other (omega (arith, Distinct-count_key key gs apart))
]

Fresh-or-count_key : (key : String) (gs : List Group) → Fresh key gs ⊎ (1 ≤ count_key key gs)
unfolding Fresh count_key
Fresh-or-count_key key [] = inl tt
Fresh-or-count_key key (g ∷ gs) = elim (Bool-cases (str_eq g.content_key key)) [
  | inl same ↦ inr (rw same (omega arith))
  | inr other ↦ elim (Fresh-or-count_key key gs) [
    | inl fresh ↦ inl (other, fresh)
    | inr some_group ↦ inr (omega (arith, some_group))
  ]
]

insert-count :
    (key : String) (g : Group) (gs : List Group)
    → count_key key (insert_group g gs) ≡ count_key key (g ∷ gs)
unfolding count_key insert_group
insert-count key g [] = refl
insert-count key g (h ∷ hs) = elim (Bool-cases (worse h g)) [
  | inl after ↦ rw after (omega (arith, insert-count key g hs))
  | inr before ↦ rw before refl
]

sort-count : (key : String) (gs : List Group) → count_key key (sort_groups gs) ≡ count_key key gs
unfolding sort_groups count_key
sort-count key [] = refl
sort-count key (g ∷ gs) =
    insert-count key g (sort_groups gs)
    ∙ ap (λ n. (if str_eq g.content_key key then 1 else 0) + n) (sort-count key gs)

complete-count :
    (key : String) (gs : List Group) → count_key key (map complete_group gs) ≡ count_key key gs
unfolding count_key complete_group
complete-count key [] = refl
complete-count key (g ∷ gs) = rw (complete-count key gs) refl

-- No content has two groups, and each content of a finding has one.
pub groups-one_each :
    (found : List FindingRecord) (key : String)
    → (count_key key (groups found) ≤ 1) × (about key found ≢ [] → count_key key (groups found) ≡ 1)
unfolding groups IsGrouping
groups-one_each found key =
    let start : IsGrouping [] [] = (tt, unfold Distinct in tt, λ key fresh. unfold about in refl) in
    let (_, apart, absent) = group_from-IsGrouping found [] [] start in
    let gs = group_from found [] in
    let count : count_key key (sort_groups (map complete_group gs)) ≡ count_key key gs =
      sort-count key (map complete_group gs) ∙ complete-count key gs in
    let few = Distinct-count_key key gs apart in
    (
      omega arith,
      λ some_finding. elim (Fresh-or-count_key key gs) [
        | inl fresh ↦ absurd (some_finding (absent key fresh))
        | inr one ↦ omega arith
      ],
    )

absorb-clean :
    (f : FindingRecord) (g : Group) → tier_rank f.tier ≡ 0 → g.tier ≡ "" → (absorb f g).tier ≡ ""
unfolding absorb
absorb-clean f g low empty =
    let kept : ltb (tier_rank g.tier) (tier_rank f.tier) ≡ false = ground arith in rw kept empty

clean_add :
    (f : FindingRecord) (gs : List Group)
    → tier_rank f.tier ≡ 0
    → All (λ g. g.tier ≡ "") gs
    → All (λ g. g.tier ≡ "") (add_finding f gs)
unfolding add_finding
clean_add f [] low all = (absorb-clean f (new_group f.content_key) low refl, tt)
clean_add f (g ∷ gs) low (empty, all) = elim (Bool-cases (str_eq g.content_key f.content_key)) [
  | inl same ↦ rw same (absorb-clean f g low empty, all)
  | inr other ↦ rw other (empty, clean_add f gs low all)
]

clean_from :
    (fs : List FindingRecord) (gs : List Group)
    → All (λ f. tier_rank f.tier ≡ 0) fs
    → All (λ g. g.tier ≡ "") gs
    → All (λ g. g.tier ≡ "") (group_from fs gs)
unfolding group_from
clean_from [] gs low all = all
clean_from (f ∷ fs) gs (l, low) all = clean_from fs (add_finding f gs) low (clean_add f gs l all)

clean_complete :
    (gs : List Group) → All (λ g. g.tier ≡ "") gs → All (λ g. g.tier ≡ "") (map complete_group gs)
unfolding complete_group
clean_complete [] all = tt
clean_complete (g ∷ gs) (empty, all) = (empty, clean_complete gs all)

-- Where each finding is clean or of a tier that has no rank, each group shows the empty tier.
pub groups-tier_empty :
    (found : List FindingRecord)
    → All (λ f. tier_rank f.tier ≡ 0) found
    → All (λ g. g.tier ≡ "") (groups found)
unfolding groups
groups-tier_empty found low =
    sort-All _ _ (clean_complete (group_from found []) (clean_from found [] low tt))
