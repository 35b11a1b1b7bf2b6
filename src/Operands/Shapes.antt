-- ===== src/Operands/Shapes.antt =====
-- Each shape is the move of blocks that its instruction is for.
use shell_sight.Common.{
  ℕ, ◌≡◌, ◌⊎◌, inl, inr, refl, sym, ap, ◌∙◌, subst, arith, List, [], ◌∷◌, ◌++◌, All,
}
use shell_sight.Common.Result.{ok}
use shell_sight.Operands.{
  AbstractValue, Shape, stack_slots, dup_shape, dup_x1_shape, dup_x2_shape, dup2_shape,
  dup2_x1_shape, dup2_x2_shape,
}
use shell_sight.Operands.Blocks.{
  IsWide, Duplicates, All-upper, All-lower, no_slots, one_slot, two_slots,
}

module _ (v1 v2 v3 v4 : AbstractValue) (rest out : List AbstractValue) where
  pub dup2_x2_deep_cases :
      dup2_x2_shape (v1 ∷ v2 ∷ v3 ∷ v4 ∷ rest) ≡ ok out
      → (v1.width ≡ 2) × (v2.width ≡ 2) × (v1 ∷ v2 ∷ v1 ∷ v3 ∷ v4 ∷ rest ≡ out)
        ⊎ ((v1.width ≡ 2) × (v2.width ≡ 1) × (v3.width ≡ 1) × (v1 ∷ v2 ∷ v3 ∷ v1 ∷ v4 ∷ rest ≡ out)
            ⊎ ((v1.width ≡ 1)
                  × (v2.width ≡ 1)
                  × (v3.width ≡ 2)
                  × (v1 ∷ v2 ∷ v3 ∷ v1 ∷ v2 ∷ v4 ∷ rest ≡ out)
                ⊎ (v1.width ≡ 1)
                  × (v2.width ≡ 1)
                  × (v3.width ≡ 1)
                  × (v4.width ≡ 1)
                  × (v1 ∷ v2 ∷ v3 ∷ v4 ∷ v1 ∷ v2 ∷ rest ≡ out)))
  unfolding dup2_x2_shape
  dup2_x2_deep_cases h = ground arith

  pub dup2_x2_three_cases :
      dup2_x2_shape (v1 ∷ v2 ∷ v3 ∷ []) ≡ ok out
      → (v1.width ≡ 2) × (v2.width ≡ 2) × (v1 ∷ v2 ∷ v1 ∷ v3 ∷ [] ≡ out)
        ⊎ ((v1.width ≡ 2) × (v2.width ≡ 1) × (v3.width ≡ 1) × (v1 ∷ v2 ∷ v3 ∷ v1 ∷ [] ≡ out)
            ⊎ (v1.width ≡ 1)
              × (v2.width ≡ 1)
              × (v3.width ≡ 2)
              × (v1 ∷ v2 ∷ v3 ∷ v1 ∷ v2 ∷ [] ≡ out))
  unfolding dup2_x2_shape
  dup2_x2_three_cases h = ground arith

  pub dup2_x1_cases :
      dup2_x1_shape (v1 ∷ v2 ∷ v3 ∷ rest) ≡ ok out
      → (v1.width ≡ 2) × (v2.width ≡ 1) × (v1 ∷ v2 ∷ v1 ∷ v3 ∷ rest ≡ out)
        ⊎ (v1.width ≡ 1) × (v2.width ≡ 1) × (v3.width ≡ 1) × (v1 ∷ v2 ∷ v3 ∷ v1 ∷ v2 ∷ rest ≡ out)
  unfolding dup2_x1_shape
  dup2_x1_cases h = ground arith

  pub dup_x2_cases :
      dup_x2_shape (v1 ∷ v2 ∷ v3 ∷ rest) ≡ ok out
      → (v1.width ≡ 1) × (v2.width ≡ 2) × (v1 ∷ v2 ∷ v1 ∷ v3 ∷ rest ≡ out)
        ⊎ (v1.width ≡ 1) × (v2.width ≡ 1) × (v3.width ≡ 1) × (v1 ∷ v2 ∷ v3 ∷ v1 ∷ rest ≡ out)
  unfolding dup_x2_shape
  dup_x2_cases h = ground arith

  pub dup_x1_cases :
      dup_x1_shape (v1 ∷ v2 ∷ rest) ≡ ok out
      → (v1.width ≡ 1) × (v2.width ≡ 1) × (v1 ∷ v2 ∷ v1 ∷ rest ≡ out)
  unfolding dup_x1_shape
  dup_x1_cases h = ground arith

  pub dup2_cases :
      dup2_shape (v1 ∷ v2 ∷ rest) ≡ ok out
      → (v1.width ≡ 2) × (v1 ∷ v1 ∷ v2 ∷ rest ≡ out)
        ⊎ (v1.width ≡ 1) × (v2.width ≡ 1) × (v1 ∷ v2 ∷ v1 ∷ v2 ∷ rest ≡ out)
  unfolding dup2_shape
  dup2_cases h = ground arith

pub narrow : (v : AbstractValue) → v.width ≡ 1 → stack_slots (v ∷ []) ≡ 1
unfolding stack_slots
narrow v is = omega arith

pub wide : (v : AbstractValue) → v.width ≡ 2 → stack_slots (v ∷ []) ≡ 2
unfolding stack_slots
wide v is = omega arith

pub pair : (v w : AbstractValue) → v.width ≡ 1 → w.width ≡ 1 → stack_slots (v ∷ w ∷ []) ≡ 2
unfolding stack_slots
pair v w is is' = omega arith

pub nothing : stack_slots [] ≡ 0
unfolding stack_slots
nothing = refl

-- A shape that moves blocks of n and m slots.
abbrev pub Moves : (List AbstractValue → Shape) → ℕ → ℕ → Type 0
Moves shape n m =
    (top under rest : List AbstractValue)
    → All IsWide top
    → All IsWide under
    → stack_slots top ≡ n
    → stack_slots under ≡ m
    → shape (top ++ under ++ rest) ≡ ok (top ++ under ++ top ++ rest)

pub complete :
    (shape : List AbstractValue → Shape) (n m : ℕ) (stack out : List AbstractValue)
    → Moves shape n m
    → All IsWide stack
    → Duplicates n m stack out
    → shape stack ≡ ok out
complete shape n m stack out moves all (top, under, rest, (is, size, size'), made) =
    let whole = subst (All IsWide) is all in
    ap shape is
    ∙ moves top under rest (All-upper top under (All-upper (top ++ under) rest whole))
        (All-lower top under (All-upper (top ++ under) rest whole)) size size'
    ∙ ap (λ l. ok l) (sym made)

at_blocks :
    (shape : List AbstractValue → Shape) {top under xs ys : List AbstractValue}
    (rest : List AbstractValue)
    → top ≡ xs
    → under ≡ ys
    → shape (xs ++ ys ++ rest) ≡ ok (xs ++ ys ++ xs ++ rest)
    → shape (top ++ under ++ rest) ≡ ok (top ++ under ++ top ++ rest)
at_blocks shape {under = under} {xs = xs} rest is is' h =
    subst (λ t. shape (t ++ under ++ rest) ≡ ok (t ++ under ++ t ++ rest)) (sym is)
      (subst (λ u. shape (xs ++ u ++ rest) ≡ ok (xs ++ u ++ xs ++ rest)) (sym is') h)

pub dup-Moves : Moves dup_shape 1 0
unfolding dup_shape
dup-Moves top under rest all all' size size' =
    let (v, is, w) = one_slot top all size in
    at_blocks dup_shape rest is (no_slots under all' size') (ground arith)

pub dup_x1-Moves : Moves dup_x1_shape 1 1
unfolding dup_x1_shape
dup_x1-Moves top under rest all all' size size' =
    let (v, is, w) = one_slot top all size in
    let (v', is', w') = one_slot under all' size' in
    at_blocks dup_x1_shape rest is is' (ground arith)

pub dup2-Moves : Moves dup2_shape 2 0
unfolding dup2_shape
dup2-Moves top under rest all all' size size' = elim (two_slots top all size) [
  | inl (v, is, w) ↦ at_blocks dup2_shape rest is (no_slots under all' size') (wide_top v rest w)
  | inr (v, v', is, w, w') ↦ at_blocks dup2_shape rest is (no_slots under all' size') (ground arith)
]
  where
    wide_top :
        (v : AbstractValue) (rest : List AbstractValue)
        → v.width ≡ 2
        → dup2_shape (v ∷ rest) ≡ ok (v ∷ v ∷ rest)
    wide_top v [] w = ground arith
    wide_top v (x ∷ xs) w = ground arith

pub dup_x2-Moves : Moves dup_x2_shape 1 2
unfolding dup_x2_shape
dup_x2-Moves top under rest all all' size size' =
    let (v, is, w) = one_slot top all size in
    elim (two_slots under all' size') [
      | inl (u, is', w') ↦ at_blocks dup_x2_shape rest is is' (over_wide v u rest w w')
      | inr (u, u', is', w', w'') ↦ at_blocks dup_x2_shape rest is is' (ground arith)
    ]
  where
    over_wide :
        (v u : AbstractValue) (rest : List AbstractValue)
        → v.width ≡ 1
        → u.width ≡ 2
        → dup_x2_shape (v ∷ u ∷ rest) ≡ ok (v ∷ u ∷ v ∷ rest)
    over_wide v u [] w w' = ground arith
    over_wide v u (x ∷ xs) w w' = ground arith

pub dup2_x1-Moves : Moves dup2_x1_shape 2 1
unfolding dup2_x1_shape
dup2_x1-Moves top under rest all all' size size' =
    let (u, is', w') = one_slot under all' size' in
    elim (two_slots top all size) [
      | inl (v, is, w) ↦ at_blocks dup2_x1_shape rest is is' (wide_over v u rest w w')
      | inr (v, v', is, w, w'') ↦ at_blocks dup2_x1_shape rest is is' (ground arith)
    ]
  where
    wide_over :
        (v u : AbstractValue) (rest : List AbstractValue)
        → v.width ≡ 2
        → u.width ≡ 1
        → dup2_x1_shape (v ∷ u ∷ rest) ≡ ok (v ∷ u ∷ v ∷ rest)
    wide_over v u [] w w' = ground arith
    wide_over v u (x ∷ xs) w w' = ground arith

pub dup2_x2-Moves : Moves dup2_x2_shape 2 2
unfolding dup2_x2_shape
dup2_x2-Moves top under rest all all' size size' = elim (two_slots top all size) [
  | inl (v, is, w) ↦ elim (two_slots under all' size') [
    | inl (u, is', w') ↦ at_blocks dup2_x2_shape rest is is' (wide_wide v u rest w w')
    | inr (u, u', is', w', w'') ↦ at_blocks dup2_x2_shape rest is is' (ground arith)
  ]
  | inr (v, v', is, w, w2) ↦ elim (two_slots under all' size') [
    | inl (u, is', w') ↦ at_blocks dup2_x2_shape rest is is' (ground arith)
    | inr (u, u', is', w', w'') ↦ at_blocks dup2_x2_shape rest is is' (ground arith)
  ]
]
  where
    wide_wide :
        (v u : AbstractValue) (rest : List AbstractValue)
        → v.width ≡ 2
        → u.width ≡ 2
        → dup2_x2_shape (v ∷ u ∷ rest) ≡ ok (v ∷ u ∷ v ∷ rest)
    wide_wide v u [] w w' = ground arith
    wide_wide v u (x ∷ xs) w w' = ground arith
