-- ===== src/Triage/Order.antt =====
-- The groups that the console shows: what they hold, and the order in which they stand.
use shell_sight.Common.{
  ◌≤◌, ◌≡◌, inl, inr, refl, arith, true, false, List, [], ◌∷◌, map, All, Bool-cases,
}
use shell_sight.Common.Int.{◌≤ℤ◌}
use shell_sight.Triage.{
  FindingRecord, Group, tier_rank, group_from, complete_group, worse, insert_group, sort_groups,
  groups,
}
use shell_sight.Triage.Holds.{about, IsSeverity, Holds, Distinct}
use shell_sight.Triage.Grouped.{IsGrouping, group_from-IsGrouping}

insert-All :
    (P : Group → Type 0) (g : Group) (gs : List Group) → P g → All P gs → All P (insert_group g gs)
unfolding insert_group
insert-All P g [] p all = (p, tt)
insert-All P g (h ∷ hs) p (q, all) = elim (Bool-cases (worse h g)) [
  | inl after ↦ rw after (q, insert-All P g hs p all)
  | inr before ↦ rw before (p, (q, all))
]

pub sort-All : (P : Group → Type 0) (gs : List Group) → All P gs → All P (sort_groups gs)
unfolding sort_groups
sort-All P [] all = tt
sort-All P (g ∷ gs) (p, all) = insert-All P g (sort_groups gs) p (sort-All P gs all)

complete-Holds :
    (fs : List FindingRecord) (gs : List Group)
    → All (Holds fs) gs
    → All (Holds fs) (map complete_group gs)
unfolding Holds complete_group IsSeverity
complete-Holds fs [] all = tt
complete-Holds fs (g ∷ gs) (h, all) = (h, complete-Holds fs gs all)

-- Each group that the console shows holds all findings of its content, in the order given; its tier
-- ranks as high as each of theirs and is the tier of one of them or empty, and its score is at least
-- each of theirs and is the score of one of them or 0.
pub groups-Holds : (found : List FindingRecord) → All (Holds found) (groups found)
unfolding groups IsGrouping
groups-Holds found =
    let start : IsGrouping [] [] = (tt, unfold Distinct in tt, λ key fresh. unfold about in refl) in
    let (all, _, _) = group_from-IsGrouping found [] [] start in
    sort-All (Holds found) _ (complete-Holds found _ all)

-- The order of the console: by tier, then by score, then by the number of places, the worst first.
unfoldable pub Before : Group → Group → Type 0
Before a b =
    (tier_rank b.tier ≤ tier_rank a.tier)
    × (tier_rank a.tier ≡ tier_rank b.tier
        → (b.score ≤ℤ a.score) × (a.score ≤ℤ b.score → b.locations ≤ a.locations))

unfoldable pub IsOrdered : List Group → Type 0
IsOrdered [] = Unit
IsOrdered (g ∷ gs) = All (Before g) gs × IsOrdered gs

worse-Before : (a b : Group) → worse a b ≡ true → Before a b
unfolding worse Before
worse-Before a b h = ground arith

better-Before : (a b : Group) → worse a b ≡ false → Before b a
unfolding worse Before
better-Before a b h = ground arith

Before-trans : (a b c : Group) → Before a b → Before b c → Before a c
unfolding Before
Before-trans a b c (ab, eab) (bc, ebc) = ground arith

All-Before : (g h : Group) (hs : List Group) → Before g h → All (Before h) hs → All (Before g) hs
All-Before g h [] first all = tt
All-Before g h (x ∷ hs) first (next, all) =
    (Before-trans g h x first next, All-Before g h hs first all)

insert-IsOrdered : (g : Group) (gs : List Group) → IsOrdered gs → IsOrdered (insert_group g gs)
unfolding IsOrdered insert_group
insert-IsOrdered g [] ordered = (tt, tt)
insert-IsOrdered g (h ∷ hs) (all, ordered) = elim (Bool-cases (worse h g)) [
  | inl after ↦
      rw after
        (insert-All (Before h) g hs (worse-Before h g after) all, insert-IsOrdered g hs ordered)
  | inr before ↦
      let first = better-Before h g before in
      rw before ((first, All-Before g h hs first all), (all, ordered))
]

sort-IsOrdered : (gs : List Group) → IsOrdered (sort_groups gs)
unfolding sort_groups IsOrdered
sort-IsOrdered [] = tt
sort-IsOrdered (g ∷ gs) = insert-IsOrdered g (sort_groups gs) (sort-IsOrdered gs)

-- The groups stand worst first: by the rank of the tier, among equal ranks by the score, and among
-- equal scores by the number of places, for each pair of groups.
pub groups-IsOrdered : (found : List FindingRecord) → IsOrdered (groups found)
unfolding groups
groups-IsOrdered found = sort-IsOrdered (map complete_group (group_from found []))
