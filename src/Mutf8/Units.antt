-- ===== src/Mutf8/Units.antt =====
-- A unit is read exactly where its bytes stand.
use shell_sight.Common.{
  ℕ, suc, ◌+◌, ◌-◌, ◌/◌, ◌%◌, ◌≤◌, ◌<◌, ◌≡◌, ◌≢◌, ◌⊎◌, inl, inr, refl, [], ◌∷◌, ◌++◌, length, drop,
  arith, All,
}
use shell_sight.Common.Result.{ok}
use shell_sight.Bytecode.Words.{Bytes}
use shell_sight.Mutf8.{read_unit, two_bytes, three_bytes}
use shell_sight.Mutf8.Encode.{IsByte, unit_bytes}

-- The unit that two and three bytes carry.
two_sound :
    (offset first second unit width : ℕ) (more : Bytes)
    → first < 256
    → second < 256
    → first / 32 ≡ 6
    → two_bytes offset first (second ∷ more) ≡ ok (unit, width)
    → (width ≡ 2) × (unit < 0x800) × (unit_bytes unit ≡ first ∷ second ∷ [])
unfolding two_bytes unit_bytes
two_sound offset first second unit width more f s lead h = ground arith

three_sound :
    (offset first second third unit width : ℕ) (more : Bytes)
    → first < 256
    → second < 256
    → third < 256
    → first / 16 ≡ 14
    → three_bytes offset first (second ∷ third ∷ more) ≡ ok (unit, width)
    → (width ≡ 3) × (unit < 0x1_0000) × (unit_bytes unit ≡ first ∷ second ∷ third ∷ [])
unfolding three_bytes unit_bytes
three_sound offset first second third unit width more f s t lead h = ground arith

one_sound : (first : ℕ) → first ≢ 0 → first ≤ 0x7f → unit_bytes first ≡ first ∷ []
unfolding unit_bytes
one_sound first some_byte ascii = ground arith

read_cases :
    (offset first : ℕ) (more : Bytes) (unit width : ℕ)
    → read_unit offset first more ≡ ok (unit, width)
    → (first ≢ 0) × (first ≤ 0x7f) × (unit ≡ first) × (width ≡ 1)
      ⊎ (first / 32 ≡ 6) × (two_bytes offset first more ≡ ok (unit, width))
      ⊎ (first / 16 ≡ 14) × (three_bytes offset first more ≡ ok (unit, width))
unfolding read_unit
read_cases offset first more unit width h = ground arith

abbrev Reads : ℕ → Bytes → ℕ → ℕ → Type 0
Reads first more unit width =
    (first ∷ more ≡ unit_bytes unit ++ drop (width - 1) more) × (unit < 0x1_0000)

two-Reads :
    (offset first : ℕ) (more : Bytes) (unit width : ℕ)
    → All IsByte (first ∷ more)
    → first / 32 ≡ 6
    → two_bytes offset first more ≡ ok (unit, width)
    → Reads first more unit width
two-Reads offset first [] unit width bytes lead h = unfold two_bytes in cc
two-Reads offset first (second ∷ more) unit width (f, (s, rest)) lead h =
    let (w, small, same) = two_sound offset first second unit width more f s lead h in
    (rw (w, same) refl, omega arith)

three-Reads :
    (offset first : ℕ) (more : Bytes) (unit width : ℕ)
    → All IsByte (first ∷ more)
    → first / 16 ≡ 14
    → three_bytes offset first more ≡ ok (unit, width)
    → Reads first more unit width
three-Reads offset first [] unit width bytes lead h = unfold three_bytes in cc
three-Reads offset first (second ∷ []) unit width bytes lead h = unfold three_bytes in cc
three-Reads offset first (second ∷ third ∷ more) unit width (f, (s, (t, rest))) lead h =
    let (w, small, same) = three_sound offset first second third unit width more f s t lead h in
    (rw (w, same) refl, small)

pub read_unit_sound :
    (offset first : ℕ) (more : Bytes) (unit width : ℕ)
    → All IsByte (first ∷ more)
    → read_unit offset first more ≡ ok (unit, width)
    → Reads first more unit width
read_unit_sound offset first more unit width bytes h =
    elim (read_cases offset first more unit width h) [
      | inl (some_byte, ascii, same, w) ↦
          (rw (same, w, one_sound first some_byte ascii) refl, omega arith)
      | inr (inl (lead, two)) ↦ two-Reads offset first more unit width bytes lead two
      | inr (inr (lead, three)) ↦ three-Reads offset first more unit width bytes lead three
    ]

read_one :
    (u : ℕ) (after : Bytes) (offset : ℕ) → u ≢ 0 → u < 0x80 → read_unit offset u after ≡ ok (u, 1)
unfolding read_unit
read_one u after offset some_unit ascii = ground arith

read_two :
    (u : ℕ) (after : Bytes) (offset : ℕ)
    → (u ≡ 0) ⊎ (0x80 ≤ u)
    → u < 0x800
    → read_unit offset (0xc0 + u / 64) ((0x80 + u % 64) ∷ after) ≡ ok (u, 2)
unfolding read_unit two_bytes
read_two u after offset (inl none_yet) small = ground arith
read_two u after offset (inr large) small = ground arith

read_three :
    (u : ℕ) (after : Bytes) (offset : ℕ)
    → 0x800 ≤ u
    → u < 0x1_0000
    → read_unit offset (0xe0 + u / 4096) ((0x80 + u / 64 % 64) ∷ (0x80 + u % 64) ∷ after)
      ≡ ok (u, 3)
unfolding read_unit three_bytes
read_three u after offset large small = ground arith

unit_shape :
    (u : ℕ)
    → (u ≡ 0) × (unit_bytes u ≡ (0xc0 + u / 64) ∷ (0x80 + u % 64) ∷ [])
      ⊎ (u ≢ 0) × (u < 0x80) × (unit_bytes u ≡ u ∷ [])
      ⊎ (0x80 ≤ u) × (u < 0x800) × (unit_bytes u ≡ (0xc0 + u / 64) ∷ (0x80 + u % 64) ∷ [])
      ⊎ (0x800 ≤ u)
        × (unit_bytes u ≡ (0xe0 + u / 4096) ∷ (0x80 + u / 64 % 64) ∷ (0x80 + u % 64) ∷ [])
unfolding unit_bytes
unit_shape u = ground arith

-- The bytes of a unit are read as that unit.
pub read_unit_complete :
    (u : ℕ) (after : Bytes)
    → u < 0x1_0000
    → (first : ℕ) × (more : Bytes) × (unit_bytes u ≡ first ∷ more)
      × ((offset : ℕ) → read_unit offset first (more ++ after) ≡ ok (u, suc (length more)))
read_unit_complete u after small = elim (unit_shape u) [
  | inl (none_yet, shape) ↦
      (_, _, shape, λ offset. read_two u after offset (inl none_yet) (omega arith))
  | inr (inl (some_unit, ascii, shape)) ↦
      (_, _, shape, λ offset. read_one u after offset some_unit ascii)
  | inr (inr (inl (large, small, shape))) ↦
      (_, _, shape, λ offset. read_two u after offset (inr large) small)
  | inr (inr (inr (large, shape))) ↦ (_, _, shape, λ offset. read_three u after offset large small)
]
