-- ===== src/Operands/Blocks.antt =====
-- Blocks of values that take some slots, the top of the stack first.
use shell_sight.Common.{ℕ, ◌≡◌, ◌⊎◌, inl, inr, refl, ap, arith, List, [], ◌∷◌, ◌++◌, All}
use shell_sight.Operands.{AbstractValue, stack_slots}

-- A value takes one slot or two.
abbrev pub IsWide : AbstractValue → Type 0
IsWide value = (value.width ≡ 1) ⊎ (value.width ≡ 2)

-- The stack is two blocks of so many slots, and the rest.
abbrev pub IsSplit :
    ℕ
    → ℕ
    → List AbstractValue
    → List AbstractValue
    → List AbstractValue
    → List AbstractValue
    → Type 0
IsSplit n m stack top under rest =
    (stack ≡ top ++ under ++ rest) × (stack_slots top ≡ n) × (stack_slots under ≡ m)

-- The block on top is copied below the next one.
abbrev pub Duplicates : ℕ → ℕ → List AbstractValue → List AbstractValue → Type 0
Duplicates n m stack out =
    (top : List AbstractValue) × (under : List AbstractValue) × (rest : List AbstractValue)
    × IsSplit n m stack top under rest
    × (out ≡ top ++ under ++ top ++ rest)

abbrev pub Drops : ℕ → List AbstractValue → List AbstractValue → Type 0
Drops n stack out = (top : List AbstractValue) × (stack ≡ top ++ out) × (stack_slots top ≡ n)

abbrev pub Swaps : List AbstractValue → List AbstractValue → Type 0
Swaps stack out =
    (top : List AbstractValue) × (under : List AbstractValue) × (rest : List AbstractValue)
    × IsSplit 1 1 stack top under rest
    × (out ≡ under ++ top ++ rest)

pub All-upper : (xs ys : List AbstractValue) → All IsWide (xs ++ ys) → All IsWide xs
All-upper [] ys all = tt
All-upper (x ∷ xs) ys (one, all) = (one, All-upper xs ys all)

pub All-lower : (xs ys : List AbstractValue) → All IsWide (xs ++ ys) → All IsWide ys
All-lower [] ys all = all
All-lower (x ∷ xs) ys (one, all) = All-lower xs ys all

pub no_slots : (xs : List AbstractValue) → All IsWide xs → stack_slots xs ≡ 0 → xs ≡ []
unfolding stack_slots
no_slots [] all none = refl
no_slots (x ∷ xs) (one, all) none = absurd (omega arith)

pub one_slot :
    (xs : List AbstractValue)
    → All IsWide xs
    → stack_slots xs ≡ 1
    → (v : AbstractValue) × (xs ≡ v ∷ []) × (v.width ≡ 1)
unfolding stack_slots
one_slot [] all size = absurd (omega arith)
one_slot (x ∷ xs) (one, all) size =
    let small : x.width ≡ 1 = omega arith in (x, ap (◌∷◌ x) (no_slots xs all (omega arith)), small)

pub two_slots :
    (xs : List AbstractValue)
    → All IsWide xs
    → stack_slots xs ≡ 2
    → ((v : AbstractValue) × (xs ≡ v ∷ []) × (v.width ≡ 2))
      ⊎ ((v : AbstractValue) × (w : AbstractValue) × (xs ≡ v ∷ w ∷ [])
          × (v.width ≡ 1)
          × (w.width ≡ 1))
unfolding stack_slots
two_slots [] all size = absurd (omega arith)
two_slots (x ∷ xs) (inl small, all) size =
    let (w, is, width) = one_slot xs all (omega arith) in inr (x, w, ap (◌∷◌ x) is, small, width)
two_slots (x ∷ xs) (inr large, all) size =
    inl (x, ap (◌∷◌ x) (no_slots xs all (omega arith)), large)
