-- ===== src/Operands/Moved.antt =====
-- What each instruction does to the stack, exactly.
use shell_sight.Common.{
  ◌≡◌, ◌↔◌, ◌⊎◌, inl, inr, refl, sym, ap, ◌∙◌, subst, arith, List, [], ◌∷◌, ◌++◌, All,
}
use shell_sight.Common.Result.{ok}
use shell_sight.Operands.{
  AbstractValue, pop_shape, pop2_shape, dup_shape, dup_x1_shape, dup_x2_shape, dup2_shape,
  dup2_x1_shape, dup2_x2_shape, swap_shape,
}
use shell_sight.Operands.Blocks.{
  IsWide, Duplicates, Drops, Swaps, All-upper, All-lower, one_slot, two_slots,
}
use shell_sight.Operands.Shapes.{
  narrow, wide, pair, nothing, complete, dup-Moves, dup_x1-Moves, dup2-Moves, dup_x2-Moves,
  dup2_x1-Moves, dup2_x2-Moves, dup_x1_cases, dup_x2_cases, dup2_cases, dup2_x1_cases,
  dup2_x2_deep_cases, dup2_x2_three_cases,
}

dup_sound : (stack out : List AbstractValue) → dup_shape stack ≡ ok out → Duplicates 1 0 stack out
unfolding dup_shape
dup_sound [] out h = cc h
dup_sound (v1 ∷ rest) out h =
    let (w, is) : (v1.width ≡ 1) × (v1 ∷ v1 ∷ rest ≡ out) = ground arith in
    (v1 ∷ [], [], rest, (refl, narrow v1 w, nothing), sym is)

dup_x1_sound :
    (stack out : List AbstractValue) → dup_x1_shape stack ≡ ok out → Duplicates 1 1 stack out
unfolding dup_x1_shape
dup_x1_sound [] out h = cc h
dup_x1_sound (v1 ∷ []) out h = cc h
dup_x1_sound (v1 ∷ v2 ∷ rest) out h =
    let (w, w', is) = dup_x1_cases v1 v2 v1 v1 rest out h in
    (v1 ∷ [], v2 ∷ [], rest, (refl, narrow v1 w, narrow v2 w'), sym is)

dup_x2_sound :
    (stack out : List AbstractValue) → dup_x2_shape stack ≡ ok out → Duplicates 1 2 stack out
unfolding dup_x2_shape
dup_x2_sound [] out h = cc h
dup_x2_sound (v1 ∷ []) out h = cc h
dup_x2_sound (v1 ∷ v2 ∷ []) out h =
    let (w, w', is) : (v1.width ≡ 1) × (v2.width ≡ 2) × (v1 ∷ v2 ∷ v1 ∷ [] ≡ out) = ground arith in
    (v1 ∷ [], v2 ∷ [], [], (refl, narrow v1 w, wide v2 w'), sym is)
dup_x2_sound (v1 ∷ v2 ∷ v3 ∷ rest) out h = elim (dup_x2_cases v1 v2 v3 v1 rest out h) [
  | inl (w, w', is) ↦ (v1 ∷ [], v2 ∷ [], v3 ∷ rest, (refl, narrow v1 w, wide v2 w'), sym is)
  | inr (w, w', w'', is) ↦
      (v1 ∷ [], v2 ∷ v3 ∷ [], rest, (refl, narrow v1 w, pair v2 v3 w' w''), sym is)
]

dup2_sound : (stack out : List AbstractValue) → dup2_shape stack ≡ ok out → Duplicates 2 0 stack out
unfolding dup2_shape
dup2_sound [] out h = cc h
dup2_sound (v1 ∷ []) out h =
    let (w, is) : (v1.width ≡ 2) × (v1 ∷ v1 ∷ [] ≡ out) = ground arith in
    (v1 ∷ [], [], [], (refl, wide v1 w, nothing), sym is)
dup2_sound (v1 ∷ v2 ∷ rest) out h = elim (dup2_cases v1 v2 v1 v1 rest out h) [
  | inl (w, is) ↦ (v1 ∷ [], [], v2 ∷ rest, (refl, wide v1 w, nothing), sym is)
  | inr (w, w', is) ↦ (v1 ∷ v2 ∷ [], [], rest, (refl, pair v1 v2 w w', nothing), sym is)
]

dup2_x1_sound :
    (stack out : List AbstractValue) → dup2_x1_shape stack ≡ ok out → Duplicates 2 1 stack out
unfolding dup2_x1_shape
dup2_x1_sound [] out h = cc h
dup2_x1_sound (v1 ∷ []) out h = cc h
dup2_x1_sound (v1 ∷ v2 ∷ []) out h =
    let (w, w', is) : (v1.width ≡ 2) × (v2.width ≡ 1) × (v1 ∷ v2 ∷ v1 ∷ [] ≡ out) = ground arith in
    (v1 ∷ [], v2 ∷ [], [], (refl, wide v1 w, narrow v2 w'), sym is)
dup2_x1_sound (v1 ∷ v2 ∷ v3 ∷ rest) out h = elim (dup2_x1_cases v1 v2 v3 v1 rest out h) [
  | inl (w, w', is) ↦ (v1 ∷ [], v2 ∷ [], v3 ∷ rest, (refl, wide v1 w, narrow v2 w'), sym is)
  | inr (w, w', w'', is) ↦
      (v1 ∷ v2 ∷ [], v3 ∷ [], rest, (refl, pair v1 v2 w w', narrow v3 w''), sym is)
]

dup2_x2_sound :
    (stack out : List AbstractValue) → dup2_x2_shape stack ≡ ok out → Duplicates 2 2 stack out
unfolding dup2_x2_shape
dup2_x2_sound [] out h = cc h
dup2_x2_sound (v1 ∷ []) out h = cc h
dup2_x2_sound (v1 ∷ v2 ∷ []) out h =
    let (w, w', is) : (v1.width ≡ 2) × (v2.width ≡ 2) × (v1 ∷ v2 ∷ v1 ∷ [] ≡ out) = ground arith in
    (v1 ∷ [], v2 ∷ [], [], (refl, wide v1 w, wide v2 w'), sym is)
dup2_x2_sound (v1 ∷ v2 ∷ v3 ∷ []) out h = elim (dup2_x2_three_cases v1 v2 v3 v3 [] out h) [
  | inl (w, w', is) ↦ (v1 ∷ [], v2 ∷ [], v3 ∷ [], (refl, wide v1 w, wide v2 w'), sym is)
  | inr (inl (w, w', w'', is)) ↦
      (v1 ∷ [], v2 ∷ v3 ∷ [], [], (refl, wide v1 w, pair v2 v3 w' w''), sym is)
  | inr (inr (w, w', w'', is)) ↦
      (v1 ∷ v2 ∷ [], v3 ∷ [], [], (refl, pair v1 v2 w w', wide v3 w''), sym is)
]
dup2_x2_sound (v1 ∷ v2 ∷ v3 ∷ v4 ∷ rest) out h = elim (dup2_x2_deep_cases v1 v2 v3 v4 rest out h) [
  | inl (w, w', is) ↦ (v1 ∷ [], v2 ∷ [], v3 ∷ v4 ∷ rest, (refl, wide v1 w, wide v2 w'), sym is)
  | inr (inl (w, w', w'', is)) ↦
      (v1 ∷ [], v2 ∷ v3 ∷ [], v4 ∷ rest, (refl, wide v1 w, pair v2 v3 w' w''), sym is)
  | inr (inr (inl (w, w', w'', is))) ↦
      (v1 ∷ v2 ∷ [], v3 ∷ [], v4 ∷ rest, (refl, pair v1 v2 w w', wide v3 w''), sym is)
  | inr (inr (inr (w, w', w'', w''', is))) ↦
      (v1 ∷ v2 ∷ [], v3 ∷ v4 ∷ [], rest, (refl, pair v1 v2 w w', pair v3 v4 w'' w'''), sym is)
]

-- An instruction that duplicates gives a stack exactly when blocks of its sizes stand on top.
module _ (stack out : List AbstractValue) (all : All IsWide stack) where
  pub dup_iff : (dup_shape stack ≡ ok out) ↔ Duplicates 1 0 stack out
  dup_iff = (dup_sound stack out, complete dup_shape 1 0 stack out dup-Moves all)

  pub dup_x1_iff : (dup_x1_shape stack ≡ ok out) ↔ Duplicates 1 1 stack out
  dup_x1_iff = (dup_x1_sound stack out, complete dup_x1_shape 1 1 stack out dup_x1-Moves all)

  pub dup_x2_iff : (dup_x2_shape stack ≡ ok out) ↔ Duplicates 1 2 stack out
  dup_x2_iff = (dup_x2_sound stack out, complete dup_x2_shape 1 2 stack out dup_x2-Moves all)

  pub dup2_iff : (dup2_shape stack ≡ ok out) ↔ Duplicates 2 0 stack out
  dup2_iff = (dup2_sound stack out, complete dup2_shape 2 0 stack out dup2-Moves all)

  pub dup2_x1_iff : (dup2_x1_shape stack ≡ ok out) ↔ Duplicates 2 1 stack out
  dup2_x1_iff = (dup2_x1_sound stack out, complete dup2_x1_shape 2 1 stack out dup2_x1-Moves all)

  pub dup2_x2_iff : (dup2_x2_shape stack ≡ ok out) ↔ Duplicates 2 2 stack out
  dup2_x2_iff = (dup2_x2_sound stack out, complete dup2_x2_shape 2 2 stack out dup2_x2-Moves all)

  pub pop_iff : (pop_shape stack ≡ ok out) ↔ Drops 1 stack out
  unfolding pop_shape
  pop_iff = (
    pop_sound stack,
    λ (top, is, size).
        let (v, one, w) = one_slot top (All-upper top out (subst (All IsWide) is all)) size in
        ap pop_shape (is ∙ ap (λ t. t ++ out) one) ∙ pop_back v w,
  )
    where
      pop_sound : (stack : List AbstractValue) → pop_shape stack ≡ ok out → Drops 1 stack out
      pop_sound [] h = cc h
      pop_sound (v1 ∷ rest) h =
          let (w, is) : (v1.width ≡ 1) × (rest ≡ out) = ground arith in
          (v1 ∷ [], ap (◌∷◌ v1) is, narrow v1 w)

      pop_back : (v : AbstractValue) → v.width ≡ 1 → pop_shape (v ∷ out) ≡ ok out
      pop_back v w = ground arith

  pub pop2_iff : (pop2_shape stack ≡ ok out) ↔ Drops 2 stack out
  unfolding pop2_shape
  pop2_iff = (
    pop2_sound stack,
    λ (top, is, size). elim (two_slots top (All-upper top out (subst (All IsWide) is all)) size) [
      | inl (v, one, w) ↦ ap pop2_shape (is ∙ ap (λ t. t ++ out) one) ∙ wide_back v out w
      | inr (v, v', both, w, w') ↦
          ap pop2_shape (is ∙ ap (λ t. t ++ out) both) ∙ pair_back v v' w w'
    ],
  )
    where
      either :
          (v1 v2 : AbstractValue) (rest : List AbstractValue)
          → pop2_shape (v1 ∷ v2 ∷ rest) ≡ ok out
          → (v1.width ≡ 2) × (v2 ∷ rest ≡ out) ⊎ (v1.width ≡ 1) × (v2.width ≡ 1) × (rest ≡ out)
      either v1 v2 rest h = ground arith

      pop2_sound : (stack : List AbstractValue) → pop2_shape stack ≡ ok out → Drops 2 stack out
      pop2_sound [] h = cc h
      pop2_sound (v1 ∷ []) h =
          let (w, is) : (v1.width ≡ 2) × ([] ≡ out) = ground arith in
          (v1 ∷ [], ap (◌∷◌ v1) is, wide v1 w)
      pop2_sound (v1 ∷ v2 ∷ rest) h = elim (either v1 v2 rest h) [
        | inl (w, is) ↦ (v1 ∷ [], ap (◌∷◌ v1) is, wide v1 w)
        | inr (w, w', is) ↦ (v1 ∷ v2 ∷ [], ap (λ l. v1 ∷ v2 ∷ l) is, pair v1 v2 w w')
      ]

      wide_back :
          (v : AbstractValue) (l : List AbstractValue) → v.width ≡ 2 → pop2_shape (v ∷ l) ≡ ok l
      wide_back v [] w = ground arith
      wide_back v (x ∷ xs) w = ground arith

      pair_back :
          (v v' : AbstractValue) → v.width ≡ 1 → v'.width ≡ 1 → pop2_shape (v ∷ v' ∷ out) ≡ ok out
      pair_back v v' w w' = ground arith

  pub swap_iff : (swap_shape stack ≡ ok out) ↔ Swaps stack out
  unfolding swap_shape
  swap_iff = (
    swap_sound stack,
    λ (top, under, rest, (is, size, size'), made).
        let upper = All-upper (top ++ under) rest (subst (All IsWide) is all) in
        let (v, one, w) = one_slot top (All-upper top under upper) size in
        let (v', other, w') = one_slot under (All-lower top under upper) size' in
        ap swap_shape (is ∙ ap (λ t. t ++ under ++ rest) one ∙ ap (λ u. v ∷ (u ++ rest)) other)
        ∙ swap_back v v' rest w w'
        ∙ ap (λ l. ok l)
            (sym (made ∙ ap (λ t. under ++ t ++ rest) one ∙ ap (λ u. u ++ (v ∷ []) ++ rest) other)),
  )
    where
      swap_sound : (stack : List AbstractValue) → swap_shape stack ≡ ok out → Swaps stack out
      swap_sound [] h = cc h
      swap_sound (v1 ∷ []) h = cc h
      swap_sound (v1 ∷ v2 ∷ rest) h =
          let (w, w', is) : (v1.width ≡ 1) × (v2.width ≡ 1) × (v2 ∷ v1 ∷ rest ≡ out) =
            ground arith in
          (v1 ∷ [], v2 ∷ [], rest, (refl, narrow v1 w, narrow v2 w'), sym is)

      swap_back :
          (v v' : AbstractValue) (rest : List AbstractValue)
          → v.width ≡ 1
          → v'.width ≡ 1
          → swap_shape (v ∷ v' ∷ rest) ≡ ok (v' ∷ v ∷ rest)
      swap_back v v' rest w w' = ground arith
