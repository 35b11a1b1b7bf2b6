-- ===== src/Descriptor/Names.antt =====
-- `parseObject` reads exactly the class names of the grammar.
use shell_sight.Common.{
  ℕ, suc, ◌+◌, ◌≤◌, ◌<◌, ◌≡◌, ◌≢◌, ◌⊎◌, inl, inr, refl, ap, Bool, true, false, [], ◌∷◌, ◌++◌,
  length, arith, ◌==◌, Bool-cases, ==_iff,
}
use shell_sight.Common.Result.{ok}
use shell_sight.Bytecode.Words.{Bytes}
use shell_sight.Descriptor.{name_loop}
use shell_sight.Descriptor.Grammar.{IsName}

-- A part begins at the index, or began before it.
abbrev pub Begins : Bool → ℕ → ℕ → Type 0
Begins true component_start index = component_start ≡ index
Begins false component_start index = component_start < index

-- One round that reads a byte of the name.
name_loop-round :
    (x : ℕ) (s : Bytes) (i c : ℕ) {r : ℕ × ℕ}
    → (x == b';') ≡ false
    → name_loop (x ∷ s) i c ≡ ok r
    → (x ≢ b';')
      × (x ≢ b'.')
      × (x ≢ b'[')
      × ((x ≡ b'/') × (c ≢ i) × (name_loop s (suc i) (suc i) ≡ ok r)
          ⊎ (x ≢ b'/') × (name_loop s (suc i) c ≡ ok r))
unfolding name_loop
name_loop-round x s i c n h = ground arith

name_loop-stop :
    (x : ℕ) (s : Bytes) (i c : ℕ) → (x == b';') ≡ true → name_loop (x ∷ s) i c ≡ ok (c, i)
unfolding name_loop
name_loop-stop x s i c y = rw (y, name_loop)

Begins-next : (begins : Bool) (c i : ℕ) → Begins begins c i → Begins false c (suc i)
Begins-next true c i b = omega arith
Begins-next false c i b = omega arith

Begins-after : (begins : Bool) (c i : ℕ) → Begins begins c i → c ≢ i → begins ≡ false
Begins-after true c i b n = absurd (n b)
Begins-after false c i b n = refl

Begins-le : (begins : Bool) (c i : ℕ) → Begins begins c i → c ≤ i
Begins-le true c i b = omega arith
Begins-le false c i b = omega arith

Begins-lt : (begins : Bool) (c i : ℕ) → Begins begins c i → c < i → begins ≡ false
Begins-lt true c i b l = absurd (omega arith)
Begins-lt false c i b l = refl

pub name_loop_sound :
    (s : Bytes) (i c : ℕ) (begins : Bool) (c' e : ℕ)
    → Begins begins c i
    → name_loop s i c ≡ ok (c', e)
    → (name more : Bytes) × (s ≡ name ++ more)
      × (e ≡ i + length name)
      × (c' ≤ e)
      × ((more ≡ []) ⊎ ((after : Bytes) × (more ≡ b';' ∷ after)))
      × (c' < e → IsName begins name)
name_loop_sound [] i c begins c' e b h =
    let (ec, ei) : (c ≡ c') × (i ≡ e) = unfold name_loop in ground arith in
    (
      [],
      [],
      refl,
      omega arith,
      omega (arith, Begins-le begins c i b),
      inl refl,
      λ l. Begins-lt begins c i b (omega arith),
    )
name_loop_sound (x ∷ s) i c begins c' e b h = elim (Bool-cases (x == b';')) [
  | inl semi ↦
      let stop = name_loop-stop x s i c semi in
      let (ec, ei) : (c ≡ c') × (i ≡ e) = ground arith in
      (
        [],
        x ∷ s,
        refl,
        omega arith,
        omega (arith, Begins-le begins c i b),
        inr (s, ap (λ byte. byte ∷ s) ((==_iff x b';').0 semi)),
        λ l. Begins-lt begins c i b (omega arith),
      )
  | inr other ↦
      let (n1, n2, n3, round) = name_loop-round x s i c other h in
      elim round [
        | inl (slash, old, h') ↦
            let (name, more, es, ee, le, end, good) =
              name_loop_sound s (suc i) (suc i) true c' e refl h' in
            (
              x ∷ name,
              more,
              ap (◌∷◌ x) es,
              omega arith,
              le,
              end,
              λ l. (n1, n2, n3, inl (slash, Begins-after begins c i b old, good l)),
            )
        | inr (plain, h') ↦
            let (name, more, es, ee, le, end, good) =
              name_loop_sound s (suc i) c false c' e (Begins-next begins c i b) h' in
            (
              x ∷ name,
              more,
              ap (◌∷◌ x) es,
              omega arith,
              le,
              end,
              λ l. (n1, n2, n3, inr (plain, good l)),
            )
      ]
]

name_loop-slash :
    (s : Bytes) (i c : ℕ) → c < i → name_loop (b'/' ∷ s) i c ≡ name_loop s (suc i) (suc i)
unfolding name_loop
name_loop-slash s i c l = ground arith

name_loop-plain :
    (x : ℕ) (s : Bytes) (i c : ℕ)
    → x ≢ b';'
    → x ≢ b'.'
    → x ≢ b'['
    → x ≢ b'/'
    → name_loop (x ∷ s) i c ≡ name_loop s (suc i) c
unfolding name_loop
name_loop-plain x s i c n1 n2 n3 n4 = ground arith

pub name_loop_complete :
    (name more : Bytes) (i c : ℕ) (begins : Bool)
    → Begins begins c i
    → IsName begins name
    → (c' : ℕ) × (name_loop (name ++ b';' ∷ more) i c ≡ ok (c', i + length name))
      × (c' < i + length name)
name_loop_complete [] more i c true b n = absurd (ground arith)
name_loop_complete [] more i c false b n = (c, unfold name_loop in ground arith, omega arith)
name_loop_complete (x ∷ name) more i c true b (n1, n2, n3, inl (slash, bf, n4)) = cc
name_loop_complete (x ∷ name) more i c false b (n1, n2, n3, inl (slash, bf, n4)) =
    let (c', e, l) = name_loop_complete name more (suc i) (suc i) true refl n4 in
    let step = name_loop-slash (name ++ b';' ∷ more) i c b in (c', ground arith, omega arith)
name_loop_complete (x ∷ name) more i c begins b (n1, n2, n3, inr (plain, n4)) =
    let (c', e, l) = name_loop_complete name more (suc i) c false (Begins-next begins c i b) n4 in
    let step = name_loop-plain x (name ++ b';' ∷ more) i c n1 n2 n3 plain in
    (c', ground arith, omega arith)
