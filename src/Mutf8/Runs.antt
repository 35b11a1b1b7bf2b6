-- ===== src/Mutf8/Runs.antt =====
-- What a run of the decoder has read and written.
use shell_sight.Common.{
  ℕ, zero, suc, ◌+◌, ◌-◌, ◌/◌, ◌%◌, ◌≤◌, ◌<◌, ◌≡◌, ◌≢◌, ◌⊎◌, inl, inr, refl, sym, ap, ◌∙◌, subst,
  false, List, [], ◌∷◌, ◌++◌, append-nil, append_assoc, drop, arith, if◌then◌else◌, ltb, ◌==◌, All,
}
use shell_sight.Common.Result.{ok, Result-cases}
use shell_sight.Bytecode.Words.{Bytes}
use shell_sight.Mutf8.{read_unit, write_unit, decode_rune, decode_from}
use shell_sight.Mutf8.Encode.{IsByte, IsScalarValue, unit_bytes, rune_bytes, encode}
use shell_sight.Mutf8.Units.{read_unit_sound}

-- The bytes that were read and not yet written.
abbrev pending : ℕ → Bytes
pending high = if high == 0 then [] else unit_bytes high

-- The surrogate that waits.
abbrev IsWaiting : ℕ → Type 0
IsWaiting high = (high ≡ 0) ⊎ (0xd800 ≤ high) × (high ≤ 0xdbff)

rune_pair :
    (high low : ℕ)
    → 0xd800 ≤ high
    → high ≤ 0xdbff
    → 0xdc00 ≤ low
    → low ≤ 0xdfff
    → IsScalarValue (decode_rune high low)
      × (rune_bytes (decode_rune high low) ≡ unit_bytes high ++ unit_bytes low)
unfolding rune_bytes
rune_pair high low h1 h2 l1 l2 =
    let c = decode_rune high low in
    let large : ltb c 0x1_0000 ≡ false = ground arith in
    let one : 0xd800 + (c - 0x1_0000) / 1024 ≡ high = omega arith in
    let two : 0xdc00 + (c - 0x1_0000) % 1024 ≡ low = omega arith in
    (inr (omega arith, omega arith), rw (large, one, two) refl)

pub rune_single : (c : ℕ) → c < 0x1_0000 → rune_bytes c ≡ unit_bytes c
unfolding rune_bytes
rune_single c small = ground arith

-- The three ways in which a unit is written.
write_cases :
    (offset high : ℕ) (decoded : List ℕ) (unit high' : ℕ) (decoded' : List ℕ)
    → write_unit offset high decoded unit ≡ ok (high', decoded')
    → (high ≢ 0)
        × (0xdc00 ≤ unit)
        × (unit ≤ 0xdfff)
        × (high' ≡ 0)
        × (decoded' ≡ decoded ++ decode_rune high unit ∷ [])
      ⊎ (high ≡ 0) × (0xd800 ≤ unit) × (unit ≤ 0xdbff) × (high' ≡ unit) × (decoded' ≡ decoded)
      ⊎ (high ≡ 0)
        × ((unit < 0xd800) ⊎ (0xdfff < unit))
        × (high' ≡ 0)
        × (decoded' ≡ decoded ++ unit ∷ [])
unfolding write_unit
write_cases offset high decoded unit high' decoded' h = ground arith

-- One round of the loop.
pub round_ok :
    (fuel first : ℕ) (more : Bytes) (offset high : ℕ) (decoded : List ℕ) {unit width high' : ℕ}
    {decoded' : List ℕ}
    → read_unit offset first more ≡ ok (unit, width)
    → write_unit offset high decoded unit ≡ ok (high', decoded')
    → decode_from (suc fuel) (first ∷ more) offset high decoded
      ≡ decode_from fuel (drop (width - 1) more) (offset + width) high' decoded'
unfolding decode_from
round_ok fuel first more offset high decoded read written = rw (read, written, decode_from) refl

round_inv :
    (fuel first : ℕ) (more : Bytes) (offset high : ℕ) (decoded out : List ℕ)
    → decode_from (suc fuel) (first ∷ more) offset high decoded ≡ ok out
    → (unit width high' : ℕ) × (decoded' : List ℕ) × (read_unit offset first more
        ≡ ok (unit, width))
      × (write_unit offset high decoded unit ≡ ok (high', decoded'))
      × (decode_from fuel (drop (width - 1) more) (offset + width) high' decoded' ≡ ok out)
unfolding decode_from
round_inv fuel first more offset high decoded out h =
    elim (Result-cases (read_unit offset first more)) [
      | inr (e, failed) ↦ cc (rw (failed, decode_from) at h)
      | inl ((unit, width), read) ↦ elim (Result-cases (write_unit offset high decoded unit)) [
        | inr (e, failed) ↦ cc (rw (read, failed, decode_from) at h)
        | inl ((high', decoded'), written) ↦
            (unit, width, high', decoded', read, written, rw (read, written, decode_from) at h)
      ]
    ]

pending_none : (high : ℕ) → high ≡ 0 → pending high ≡ []
pending_none high none_waits = ground arith

pending_some : (high : ℕ) → high ≢ 0 → pending high ≡ unit_bytes high
pending_some high waits = ground arith

All-drop : (n : ℕ) (bytes : Bytes) → All IsByte bytes → All IsByte (drop n bytes)
All-drop zero bytes all = all
All-drop (suc n) [] all = tt
All-drop (suc n) (x ∷ bytes) (b, all) = All-drop n bytes all

encode-cons : (c : ℕ) (cs : List ℕ) → encode (c ∷ cs) ≡ rune_bytes c ++ encode cs
unfolding encode
encode-cons c cs = refl

-- What the rest of the run has read and written.
abbrev Decodes : ℕ → Bytes → List ℕ → List ℕ → Type 0
Decodes high bytes decoded out =
    (cs : List ℕ) × (out ≡ decoded ++ cs)
    × All IsScalarValue cs
    × (pending high ++ bytes ≡ encode cs)

-- A rune is written before the rest of the run.
write_rune :
    (high : ℕ) (bytes after : Bytes) (decoded out : List ℕ) (c : ℕ)
    → IsScalarValue c
    → pending high ++ bytes ≡ rune_bytes c ++ after
    → Decodes 0 after (decoded ++ c ∷ []) out
    → Decodes high bytes decoded out
write_rune high bytes after decoded out c scalar split (cs, written, scalars, rest) = (
  c ∷ cs,
  written ∙ append_assoc decoded (c ∷ []) cs,
  (scalar, scalars),
  split ∙ ap (λ r. rune_bytes c ++ r) rest ∙ sym (encode-cons c cs),
)

step_sound :
    (offset high : ℕ) (bytes after : Bytes) (decoded out : List ℕ) (unit high' : ℕ)
    (decoded' : List ℕ)
    → IsWaiting high
    → bytes ≡ unit_bytes unit ++ after
    → unit < 0x1_0000
    → write_unit offset high decoded unit ≡ ok (high', decoded')
    → Decodes high' after decoded' out
    → Decodes high bytes decoded out
step_sound offset high bytes after decoded out unit high' decoded' waiting split small written
      rest =
    elim (write_cases offset high decoded unit high' decoded' written) [
      | inl (waits, low1, low2, none_left, text) ↦
          let (h1, h2) : (0xd800 ≤ high) × (high ≤ 0xdbff) = ground arith in
          let (scalar, pair) = rune_pair high unit h1 h2 low1 low2 in
          write_rune high bytes after decoded out (decode_rune high unit) scalar
            (ap (λ p. p ++ bytes) (pending_some high waits)
              ∙ ap (λ b. unit_bytes high ++ b) split
              ∙ sym (append_assoc (unit_bytes high) (unit_bytes unit) after)
              ∙ ap (λ p. p ++ after) (sym pair))
            (subst (λ t. Decodes 0 after t out) text
              (subst (λ k. Decodes k after decoded' out) none_left rest))
      | inr (inl (none_waits, u1, u2, waits, text)) ↦
          let (cs, out_is, scalars, enc) = rest in
          let some_waits : high' ≢ 0 = ground arith in
          (
            cs,
            out_is ∙ ap (λ t. t ++ cs) text,
            scalars,
            ap (λ p. p ++ bytes) (pending_none high none_waits)
                ∙ split
                ∙ ap (λ u. unit_bytes u ++ after) (sym waits)
                ∙ ap (λ p. p ++ after) (sym (pending_some high' some_waits))
                ∙ enc,
          )
      | inr (inr (none_waits, plain, none_left, text)) ↦
          write_rune high bytes after decoded out unit (ground arith)
            (ap (λ p. p ++ bytes) (pending_none high none_waits)
              ∙ split
              ∙ ap (λ p. p ++ after) (sym (rune_single unit small)))
            (subst (λ t. Decodes 0 after t out) text
              (subst (λ k. Decodes k after decoded' out) none_left rest))
    ]

written_waits :
    (offset high : ℕ) (decoded : List ℕ) (unit high' : ℕ) (decoded' : List ℕ)
    → write_unit offset high decoded unit ≡ ok (high', decoded')
    → IsWaiting high'
unfolding write_unit
written_waits offset high decoded unit high' decoded' h = ground arith

pub decode_from_sound :
    (fuel : ℕ) (bytes : Bytes) (offset high : ℕ) (decoded out : List ℕ)
    → IsWaiting high
    → All IsByte bytes
    → decode_from fuel bytes offset high decoded ≡ ok out
    → Decodes high bytes decoded out
decode_from_sound zero bytes offset high decoded out waiting all h = unfold decode_from in cc
decode_from_sound (suc fuel) [] offset high decoded out waiting all h =
    let (none_waits, same) : (high ≡ 0) × (decoded ≡ out) = unfold decode_from in ground arith in
    (
      [],
      sym same ∙ sym (append-nil decoded),
      tt,
      ap (λ p. p ++ []) (pending_none high none_waits) ∙ unfold encode in refl,
    )
decode_from_sound (suc fuel) (first ∷ more) offset high decoded out waiting all h =
    let (unit, width, high', decoded', read, written, rest) =
      round_inv fuel first more offset high decoded out h in
    let (split, small) = read_unit_sound offset first more unit width all read in
    step_sound offset high (first ∷ more) (drop (width - 1) more) decoded out unit high' decoded'
      waiting split small written
      (decode_from_sound fuel (drop (width - 1) more) (offset + width) high' decoded' out
        (written_waits offset high decoded unit high' decoded' written)
        (All-drop (width - 1) more all.1) rest)
