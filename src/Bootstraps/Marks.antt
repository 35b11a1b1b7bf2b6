-- ===== src/Bootstraps/Marks.antt =====
-- Lists with one element replaced, and the constants not visited.
use shell_sight.Common.{
  ℕ, zero, suc, ◌+◌, ◌≤◌, ◌<◌, ◌≡◌, ◌≢◌, refl, ap, arith, List, [], ◌∷◌, length, get_or, set,
  if◌then◌else◌, ◌==◌,
}

pub set_here :
    {A : Type 0} (xs : List A) (i : ℕ) (v d : A) → i < length xs → get_or (set xs i v) i d ≡ v
set_here [] i v d small = absurd (omega arith)
set_here (x ∷ xs) zero v d small = refl
set_here (x ∷ xs) (suc i) v d small = set_here xs i v d (omega arith)

pub set_other :
    {A : Type 0} (xs : List A) (i j : ℕ) (v d : A) → j ≢ i → get_or (set xs i v) j d ≡ get_or xs j d
set_other [] i j v d other = refl
set_other (x ∷ xs) zero zero v d other = absurd (other refl)
set_other (x ∷ xs) zero (suc j) v d other = refl
set_other (x ∷ xs) (suc i) zero v d other = refl
set_other (x ∷ xs) (suc i) (suc j) v d other = set_other xs i j v d (λ same. other (ap suc same))

unfoldable pub zeros : List ℕ → ℕ
zeros [] = 0
zeros (x ∷ xs) = (if x == 0 then 1 else 0) + zeros xs

pub zeros-set_le : (xs : List ℕ) (i v : ℕ) → v ≢ 0 → zeros (set xs i v) ≤ zeros xs
unfolding zeros
zeros-set_le [] i v some_mark = omega arith
zeros-set_le (x ∷ xs) zero v some_mark = ground arith
zeros-set_le (x ∷ xs) (suc i) v some_mark = omega (arith, zeros-set_le xs i v some_mark)

pub zeros-set_lt :
    (xs : List ℕ) (i v : ℕ)
    → v ≢ 0
    → i < length xs
    → get_or xs i 0 ≡ 0
    → zeros (set xs i v) < zeros xs
unfolding zeros
zeros-set_lt [] i v some_mark small unmarked = absurd (omega arith)
zeros-set_lt (x ∷ xs) zero v some_mark small unmarked = ground arith
zeros-set_lt (x ∷ xs) (suc i) v some_mark small unmarked =
    omega (arith, zeros-set_lt xs i v some_mark (omega arith) unmarked)

pub zeros_le : (xs : List ℕ) → zeros xs ≤ length xs
unfolding zeros
zeros_le [] = omega arith
zeros_le (x ∷ xs) = let more = zeros_le xs in ground arith
