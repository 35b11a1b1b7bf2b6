-- ===== src/Mutf8/Rounds.antt =====
-- The rounds that the decoder takes for the runes of a text.
use shell_sight.Common.{
  ℕ, zero, suc, ◌+◌, ◌-◌, ◌/◌, ◌%◌, ◌≤◌, ◌<◌, ◌≡◌, ◌⊎◌, inl, inr, refl, sym, ap, ◌∙◌, subst, false,
  List, [], ◌∷◌, ◌++◌, append-nil, append_assoc, length, drop, drop-length, arith, ltb, ltb→lt,
  ltb-false→le, All, length-append, Bool-cases,
}
use shell_sight.Common.Result.{ok}
use shell_sight.Bytecode.Words.{Bytes}
use shell_sight.Mutf8.{write_unit, decode_rune, decode_from}
use shell_sight.Mutf8.Encode.{IsScalarValue, unit_bytes, rune_bytes, encode}
use shell_sight.Mutf8.Units.{read_unit_complete}
use shell_sight.Mutf8.Runs.{rune_single, round_ok}

-- A unit that may be written is one round.
unit_round :
    (u : ℕ) (after : Bytes) (fuel offset high high' : ℕ) (decoded decoded' : List ℕ)
    → u < 0x1_0000
    → write_unit offset high decoded u ≡ ok (high', decoded')
    → length (unit_bytes u ++ after) < fuel
    → (fuel' offset' : ℕ) × (length after < fuel')
      × (decode_from fuel (unit_bytes u ++ after) offset high decoded
          ≡ decode_from fuel' after offset' high' decoded')
unit_round u after zero offset high high' decoded decoded' small written enough =
    absurd (omega arith)
unit_round u after (suc fuel) offset high high' decoded decoded' small written enough =
    let (first, more, shape, read) = read_unit_complete u after small in
    let sizes : length (unit_bytes u ++ after) ≡ suc (length more) + length after =
      ap (λ b. length (b ++ after)) shape ∙ length-append (first ∷ more) after in
    let width : suc (length more) - 1 ≡ length more = omega arith in
    (
      fuel,
      offset + suc (length more),
      omega arith,
      ap (λ b. decode_from (suc fuel) (b ++ after) offset high decoded) shape
          ∙ round_ok fuel first (more ++ after) offset high decoded (read offset) written
          ∙ ap (λ b. decode_from fuel b (offset + suc (length more)) high' decoded')
              (ap (λ n. drop n (more ++ after)) width ∙ drop-length more after),
    )

write_plain :
    (offset c : ℕ) (decoded : List ℕ)
    → (c < 0xd800) ⊎ (0xdfff < c)
    → write_unit offset 0 decoded c ≡ ok (0, decoded ++ c ∷ [])
unfolding write_unit
write_plain offset c decoded plain = ground arith

write_high :
    (offset u : ℕ) (decoded : List ℕ)
    → 0xd800 ≤ u
    → u ≤ 0xdbff
    → write_unit offset 0 decoded u ≡ ok (u, decoded)
unfolding write_unit
write_high offset u decoded h1 h2 = ground arith

write_low :
    (offset high u : ℕ) (decoded : List ℕ)
    → 0xd800 ≤ high
    → 0xdc00 ≤ u
    → u ≤ 0xdfff
    → write_unit offset high decoded u ≡ ok (0, decoded ++ decode_rune high u ∷ [])
unfolding write_unit
write_low offset high u decoded h l1 l2 = ground arith

-- A rune is one round or two.
-- The surrogates of a rune beyond the first plane.
rune_split :
    (c : ℕ)
    → 0x1_0000 ≤ c
    → c < 0x11_0000
    → (high low : ℕ) × (0xd800 ≤ high)
      × (high ≤ 0xdbff)
      × (0xdc00 ≤ low)
      × (low ≤ 0xdfff)
      × (decode_rune high low ≡ c)
      × (rune_bytes c ≡ unit_bytes high ++ unit_bytes low)
unfolding rune_bytes
rune_split c large small =
    let high = 0xd800 + (c - 0x1_0000) / 1024 in
    let low = 0xdc00 + (c - 0x1_0000) % 1024 in
    let two_units : ltb c 0x1_0000 ≡ false = ground arith in
    (high, low, omega arith, omega arith, omega arith, omega arith, omega arith, rw two_units refl)

rune_round :
    (c : ℕ) (after : Bytes) (fuel offset : ℕ) (decoded : List ℕ)
    → IsScalarValue c
    → length (rune_bytes c ++ after) < fuel
    → (fuel' offset' : ℕ) × (length after < fuel')
      × (decode_from fuel (rune_bytes c ++ after) offset 0 decoded
          ≡ decode_from fuel' after offset' 0 (decoded ++ c ∷ []))
rune_round c after fuel offset decoded scalar enough = elim (Bool-cases (ltb c 0x1_0000)) [
  | inl small ↦
      let one = rune_single c (ltb→lt _ _ small) in
      let plain : (c < 0xd800) ⊎ (0xdfff < c) = ground arith in
      let (fuel', offset', enough', round) =
        unit_round c after fuel offset 0 0 decoded (decoded ++ c ∷ []) (ltb→lt _ _ small)
          (write_plain offset c decoded plain)
          (subst (λ b. length (b ++ after) < fuel) one enough) in
      (
        fuel',
        offset',
        enough',
        ap (λ b. decode_from fuel (b ++ after) offset 0 decoded) one ∙ round,
      )
  | inr large ↦
      let (high, low, h1, h2, l1, l2, same, two) =
        rune_split c (ltb-false→le _ _ large) (ground arith) in
      let split : rune_bytes c ++ after ≡ unit_bytes high ++ (unit_bytes low ++ after) =
        ap (λ b. b ++ after) two ∙ append_assoc (unit_bytes high) (unit_bytes low) after in
      let (fuel1, offset1, enough1, round1) =
        unit_round high (unit_bytes low ++ after) fuel offset 0 high decoded decoded (omega arith)
          (write_high offset high decoded h1 h2) (subst (λ b. length b < fuel) split enough) in
      let (fuel2, offset2, enough2, round2) =
        unit_round low after fuel1 offset1 high 0 decoded (decoded ++ decode_rune high low ∷ [])
          (omega arith) (write_low offset1 high low decoded h1 l1 l2) enough1 in
      (
        fuel2,
        offset2,
        enough2,
        ap (λ b. decode_from fuel b offset 0 decoded) split
            ∙ round1
            ∙ round2
            ∙ ap (λ r. decode_from fuel2 after offset2 0 (decoded ++ r ∷ [])) same,
      )
]

pub decode_from_complete :
    (cs : List ℕ) (fuel offset : ℕ) (decoded : List ℕ)
    → All IsScalarValue cs
    → length (encode cs) < fuel
    → decode_from fuel (encode cs) offset 0 decoded ≡ ok (decoded ++ cs)
unfolding encode
decode_from_complete [] zero offset decoded scalars enough = absurd (omega arith)
decode_from_complete [] (suc fuel) offset decoded scalars enough =
    unfold decode_from in ap ok (sym (append-nil decoded))
decode_from_complete (c ∷ cs) fuel offset decoded (scalar, scalars) enough =
    let (fuel', offset', enough', round) =
      rune_round c (encode cs) fuel offset decoded scalar enough in
    round
    ∙ decode_from_complete cs fuel' offset' (decoded ++ c ∷ []) scalars enough'
    ∙ ap ok (append_assoc decoded (c ∷ []) cs)
