-- ===== src/Cfg/Offsets/Laws.antt =====
-- cfg.go: what is in a set of offsets, and that its sorting loses nothing.
use shell_sight.Common.{
  ℕ, ◌≤◌, ◌<◌, true, false, List, [], ◌∷◌, ◌≡◌, refl, arith, Bool-cases, inl, inr, leb, ◌==◌, All,
}
use shell_sight.Cfg.Offsets.{member, add, add_all, insert_sorted, sorted_offsets}

-- All offsets of `a` are in `b`.
abbrev pub Within : List ℕ → List ℕ → Type 0
Within a b = (y : ℕ) → member y a ≡ true → member y b ≡ true

pub member-add : (x y : ℕ) (set : List ℕ) → member y set ≡ true → member y (add x set) ≡ true
unfolding add
member-add x y set h = ground arith

pub member-add_self : (x : ℕ) (set : List ℕ) → member x (add x set) ≡ true
unfolding add
member-add_self x set = ground arith

pub add-Within : (x : ℕ) (set b : List ℕ) → member x b ≡ true → Within set b → Within (add x set) b
unfolding add
add-Within x set b e h y m = ground (arith, h y)

pub add_all-Within : (xs set b : List ℕ) → Within xs b → Within set b → Within (add_all xs set) b
unfolding add_all member
add_all-Within [] set b e h = h
add_all-Within (x ∷ xs) set b e h =
    add_all-Within xs (add x set) b (λ y m. e y (ground arith))
      (add-Within x set b (e x (ground arith)) h)

pub member-add_all :
    (xs set : List ℕ) (y : ℕ) → member y set ≡ true → member y (add_all xs set) ≡ true
unfolding add_all
member-add_all [] set y h = h
member-add_all (x ∷ xs) set y h = member-add_all xs (add x set) y (member-add x y set h)

pub add_all-all : (xs set : List ℕ) → Within xs (add_all xs set)
unfolding add_all member
add_all-all [] set y h = cc
add_all-all (x ∷ xs) set y h = elim (Bool-cases (x == y)) [
  | inl same ↦
      let e : x ≡ y = ground (arith, same) in
      member-add_all xs (add x set) y (rw (← e) (member-add_self x set))
  | inr differ ↦ add_all-all xs (add x set) y (ground (arith, differ))
]

member-insert_sorted : (x y : ℕ) (xs : List ℕ) → member y (insert_sorted x xs) ≡ member y (x ∷ xs)
unfolding insert_sorted member
member-insert_sorted x y [] = refl
member-insert_sorted x y (z ∷ zs) = ground (arith, member-insert_sorted x y zs)

pub member-sorted_offsets : (y : ℕ) (xs : List ℕ) → member y (sorted_offsets xs) ≡ member y xs
unfolding sorted_offsets member
member-sorted_offsets y [] = refl
member-sorted_offsets y (x ∷ xs) =
    ground (arith, member-insert_sorted x y (sorted_offsets xs), member-sorted_offsets y xs)

-- The offsets increase strictly.
abbrev pub IsIncreasing : List ℕ → Type 0
IsIncreasing [] = Unit {0}
IsIncreasing (x ∷ xs) = All (λ y. x < y) xs × IsIncreasing xs

-- No offset occurs twice.
abbrev pub HasNoRepeat : List ℕ → Type 0
HasNoRepeat [] = Unit {0}
HasNoRepeat (x ∷ xs) = (member x xs ≡ false) × HasNoRepeat xs

pub add-HasNoRepeat : (x : ℕ) (set : List ℕ) → HasNoRepeat set → HasNoRepeat (add x set)
unfolding add
add-HasNoRepeat x set h = elim (Bool-cases (member x set)) [
  | inl old ↦ rw old h
  | inr new ↦ rw new (new, h)
]

pub add_all-HasNoRepeat : (xs set : List ℕ) → HasNoRepeat set → HasNoRepeat (add_all xs set)
unfolding add_all
add_all-HasNoRepeat [] set h = h
add_all-HasNoRepeat (x ∷ xs) set h = add_all-HasNoRepeat xs (add x set) (add-HasNoRepeat x set h)

above-le : (x z : ℕ) (xs : List ℕ) → x ≤ z → All (λ y. z < y) xs → All (λ y. x < y) xs
above-le x z [] h a = tt
above-le x z (y ∷ ys) h a = (omega arith, above-le x z ys h a.1)

above-insert_sorted :
    (z x : ℕ) (xs : List ℕ) → z < x → All (λ y. z < y) xs → All (λ y. z < y) (insert_sorted x xs)
unfolding insert_sorted
above-insert_sorted z x [] h a = (h, tt)
above-insert_sorted z x (y ∷ ys) h a = elim (Bool-cases (leb x y)) [
  | inl here ↦ rw here (h, a)
  | inr later ↦ rw later (a.0, above-insert_sorted z x ys h a.1)
]

insert_sorted-IsIncreasing :
    (x : ℕ) (xs : List ℕ)
    → member x xs ≡ false
    → IsIncreasing xs
    → IsIncreasing (insert_sorted x xs)
unfolding insert_sorted member
insert_sorted-IsIncreasing x [] m h = (tt, tt)
insert_sorted-IsIncreasing x (y ∷ ys) m h = elim (Bool-cases (leb x y)) [
  | inl here ↦
      let lt : x < y = ground (arith, here, m) in
      rw here ((lt, above-le x y ys (omega arith) h.0), h)
  | inr later ↦
      let gt : y < x = ground (arith, later) in
      rw later
        (above-insert_sorted y x ys gt h.0, insert_sorted-IsIncreasing x ys (ground (arith, m)) h.1)
]

-- The keys of a set come out of the sorting strictly increasing.
pub sorted_offsets-IsIncreasing :
    (set : List ℕ) → HasNoRepeat set → IsIncreasing (sorted_offsets set)
unfolding sorted_offsets
sorted_offsets-IsIncreasing [] h = tt
sorted_offsets-IsIncreasing (x ∷ xs) h =
    insert_sorted-IsIncreasing x (sorted_offsets xs) (rw (member-sorted_offsets x xs) h.0)
      (sorted_offsets-IsIncreasing xs h.1)
