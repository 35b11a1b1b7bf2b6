-- ===== src/Bytecode/Jumps.antt =====
-- bytecode.go: signed words of the code and the targets that they give.
use native.Mathlib.Nat.{add-zero, zero-add}
use shell_sight.Common.{
  ℕ, zero, suc, ◌+◌, ◌-◌, ◌*◌, ◌≤◌, ◌<◌, ◌⊎◌, ◌↔◌, none, some, [], ◌∷◌, length, get_or, take, drop,
  ◌≡◌, refl, arith, ap, ◌∙◌,
}
use shell_sight.Common.Result.{ok}
use shell_sight.Bytecode.Words.{
  Bytes, max_uint32, checked_add_uint64, be_uint32, to_int16, to_int32, read_int32,
  resolve_absolute_target,
}

-- The big-endian words of two and of four bytes at a position.
abbrev pub short_at : Bytes → ℕ → ℕ
short_at code p = get_or code p 0 * 256 + get_or code (p + 1) 0

abbrev pub word_at : Bytes → ℕ → ℕ
word_at code p =
    get_or code p 0 * 16_777_216
    + get_or code (p + 1) 0 * 65_536
    + get_or code (p + 2) 0 * 256
    + get_or code (p + 3) 0

-- The word is a distance in two's complement, whose sign bit has the weight `half`, from `base` to
-- `target`, and the target fits in 32 bits.
abbrev pub Jumps : ℕ → ℕ → ℕ → ℕ → Type 0
Jumps half base word target =
    ((word < half) × (target ≡ base + word)
      ⊎ (half ≤ word) × (target + (half * 2 - 1 - word) + 1 ≡ base))
    × (target ≤ max_uint32)

pub short_jump :
    (base word target : ℕ)
    → base ≤ max_uint32
    → (resolve_absolute_target base (to_int16 word) ≡ ok target) ↔ Jumps 32_768 base word target
unfolding resolve_absolute_target to_int16
short_jump base word target h = ground arith

pub long_jump :
    (base word target : ℕ)
    → base ≤ max_uint32
    → (resolve_absolute_target base (to_int32 word) ≡ ok target)
      ↔ Jumps 2_147_483_648 base word target
unfolding resolve_absolute_target to_int32
long_jump base word target h = ground arith

suc_add : (p i : ℕ) → suc (p + i) ≡ suc p + i
suc_add p i = omega arith

get_or-take : (n i : ℕ) (xs : Bytes) → i < n → get_or (take n xs) i 0 ≡ get_or xs i 0
get_or-take zero i xs h = elim h [ ]
get_or-take (suc n) i [] h = refl
get_or-take (suc n) zero (x ∷ xs) h = refl
get_or-take (suc n) (suc i) (x ∷ xs) h = get_or-take n i xs (omega arith)

pub get_or-drop : (p i : ℕ) (xs : Bytes) → get_or (drop p xs) i 0 ≡ get_or xs (p + i) 0
get_or-drop zero i xs = rw zero-add
get_or-drop (suc p) i [] = refl
get_or-drop (suc p) i (x ∷ xs) = get_or-drop p i xs ∙ ap (λ k. get_or (x ∷ xs) k 0) (suc_add p i)

get_or-take-drop :
    (n i p : ℕ) (code : Bytes) → i < n → get_or (take n (drop p code)) i 0 ≡ get_or code (p + i) 0
get_or-take-drop n i p code h = get_or-take n i (drop p code) h ∙ get_or-drop p i code

be_uint32-eq-word_at : (code : Bytes) (p : ℕ) → be_uint32 (take 4 (drop p code)) ≡ word_at code p
unfolding be_uint32
be_uint32-eq-word_at code p = rw (
  get_or-take-drop 4 0 p code (omega arith),
  get_or-take-drop 4 1 p code (omega arith),
  get_or-take-drop 4 2 p code (omega arith),
  get_or-take-drop 4 3 p code (omega arith),
  add-zero,
)

-- A word is read exactly where the code has four bytes.
pub read_int32-eq-some :
    (code : Bytes) (p : ℕ)
    → p + 4 ≤ length code
    → length code ≤ max_uint32
    → read_int32 code p ≡ some (to_int32 (word_at code p))
unfolding read_int32 checked_add_uint64
read_int32-eq-some code p h short = rw (← be_uint32-eq-word_at code p) (ground arith)

pub read_int32-eq-none : (code : Bytes) (p : ℕ) → length code < p + 4 → read_int32 code p ≡ none
unfolding read_int32 checked_add_uint64
read_int32-eq-none code p h = ground arith
