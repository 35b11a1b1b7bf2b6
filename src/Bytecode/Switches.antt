-- ===== src/Bytecode/Switches.antt =====
-- bytecode.go, `decodeSwitchInstruction`: the switches against their layout.
use native.Mathlib.Nat.{le-div_iff_mul-le}
use shell_sight.Common.{
  Option-cases, ℕ, zero, suc, ◌+◌, ◌-◌, ◌*◌, ◌/◌, ◌%◌, ◌≤◌, ◌<◌, Bool-cases, Bool, true, false, not,
  inl, inr, List, [], ◌∷◌, length, take, drop, get_or, ◌≡◌, ◌⊎◌, ◌↔◌, refl, sym, ap, ◌∙◌, arith,
  some, none, ltb, leb, ◌==◌, pred,
}
use shell_sight.Common.Int.{ℤ, pos, negsuc, ltb_ℤ, ◌<ℤ◌, ◌≤ℤ◌, pos_part, neg_part}
use shell_sight.Common.Result.{
  Result-cases, Result, ok, err, ◌>>=◌, ◌>>◌, guard, >>=-eq-ok, map_err, map_err-eq-ok, guard-eq-ok,
  or_err,
}
use shell_sight.Bytecode.Words.{
  Bytes, max_uint32, max_int, to_int32, read_int32, int_or_zero, resolve_absolute_target,
  checked_add_uint64, checked_mul_uint64,
}
use shell_sight.Bytecode.Decode.{
  DecodeError, header_overflow, truncated_header, invalid_range, count_overflow, truncated_entries,
  too_many_entries, truncated_padding, truncated_default, bad_default, span, table_targets,
  lookup_targets, table_switch, lookup_switch, switch_header, padding_is_zero, nonzero_padding,
}
use shell_sight.Bytecode.Jumps.{Jumps, word_at, long_jump, read_int32-eq-some, read_int32-eq-none}
use shell_sight.Bytecode.Shapes.{TableTargets, PairTargets, AreGrowing, IsTable, IsLookup}
use shell_sight.Bytecode.Fits.{checked_add_exact, or_err-eq-ok}
pub mod Entries
pub mod Fronts
use shell_sight.Bytecode.Switches.Fronts.{
  padding_iff, add_some, mul_some, table_front, lookup_front, header_front,
}
use shell_sight.Bytecode.Switches.Entries.{
  table_targets_sound, table_targets_complete, lookup_targets_sound, lookup_targets_complete,
}

module _ (code : Bytes) (offset : ℕ) (short : length code ≤ max_uint32)
    (inside : offset ≤ max_uint32) where
  read_word :
      (p : ℕ) {v : ℤ}
      → read_int32 code p ≡ some v
      → (p + 4 ≤ length code) × (to_int32 (word_at code p) ≡ v)
  read_word p e = elim (Bool-cases (leb (p + 4) (length code))) [
    | inl enough ↦
        let fits : p + 4 ≤ length code = ground (arith, enough) in
        (fits, cc (read_int32-eq-some code p fits short))
    | inr few ↦ cc (read_int32-eq-none code p (ground (arith, few)))
  ]

  pub table_switch_sound :
      (body d : ℕ) {ts : List ℕ} {next : ℕ}
      → body ≤ length code
      → table_switch code offset body d ≡ ok (ts, next)
      → (targets : List ℕ) × (ts ≡ d ∷ targets)
        × (next ≤ length code)
        × IsTable code offset body targets next
  table_switch_sound body d small e =
      let (low, high, targets, l, h, ordered, behind, within, t, is) =
        table_front code offset short inside body d small e in
      let (size, jumps) =
        table_targets_sound code offset short inside (span low high) 0 (body + 12) targets
          (omega arith) t in
      let low_is = (read_word (body + 4) l).1 in
      let high_is = (read_word (body + 8) h).1 in
      (
        targets,
        is,
        within,
        rw (low_is, high_is)
            (
              ground (arith, ordered),
              ground (arith, size, ordered),
              omega (arith, size, behind),
              jumps,
            ),
      )

  pub table_switch_complete :
      (body d : ℕ) (targets : List ℕ) {next : ℕ}
      → next ≤ length code
      → IsTable code offset body targets next
      → table_switch code offset body d ≡ ok (d ∷ targets, next)
  unfolding table_switch
  table_switch_complete body d targets within (ordered, size, behind, jumps) =
      let low = to_int32 (word_at code (body + 4)) in
      let high = to_int32 (word_at code (body + 8)) in
      let count : span low high ≡ length targets = omega (arith, size, ordered) in
      let in_order : ltb_ℤ high low ≡ false = ground (arith, ordered) in
      let fits : leb (body + 12 + length targets * 4) (length code) ≡ true = ground arith in
      let few : leb (length targets) (max_int - 1) ≡ true = ground arith in
      rw (
        add_some body 4 (omega arith),
        add_some body 8 (omega arith),
        add_some body 12 (omega arith),
        read_int32-eq-some code (body + 4) (omega arith) short,
        read_int32-eq-some code (body + 8) (omega arith) short,
        in_order,
        count,
        mul_some (length targets) 4 (omega arith),
        add_some (body + 12) (length targets * 4) (omega arith),
        fits,
        few,
        table_targets_complete code offset short inside 0 (body + 12) targets (omega arith) jumps,
        behind,
      )

  pub lookup_switch_sound :
      (body d : ℕ) {ts : List ℕ} {next : ℕ}
      → lookup_switch code offset body d ≡ ok (ts, next)
      → (targets : List ℕ) × (ts ≡ d ∷ targets)
        × (next ≤ length code)
        × IsLookup code offset body targets next
  lookup_switch_sound body d e =
      let (count, targets, c, behind, within, t, is) =
        lookup_front code offset short inside body d e in
      let (size, jumps, first, growing) =
        lookup_targets_sound code offset short inside count 0 (pos 0) (body + 8) targets
          (omega arith) t in
      (
        targets,
        is,
        within,
        (
          (read_word (body + 4) c).1 ∙ ap pos (sym size),
          omega (arith, size, behind),
          rw size growing,
          jumps,
        ),
      )

  pub lookup_switch_complete :
      (body d : ℕ) (targets : List ℕ) {next : ℕ}
      → next ≤ length code
      → IsLookup code offset body targets next
      → lookup_switch code offset body d ≡ ok (d ∷ targets, next)
  unfolding lookup_switch
  lookup_switch_complete body d targets within (count, behind, growing, jumps) =
      let fits : leb (body + 8 + length targets * 8) (length code) ≡ true = ground arith in
      let few : leb (length targets) (max_int - 1) ≡ true = ground arith in
      rw (
        add_some body 4 (omega arith),
        add_some body 8 (omega arith),
        read_int32-eq-some code (body + 4) (omega arith) short,
        count,
        mul_some (length targets) 8 (omega arith),
        add_some (body + 8) (length targets * 8) (omega arith),
        fits,
        few,
        lookup_targets_complete code offset short inside 0 (pos 0) (body + 8) targets (omega arith)
            jumps (λ z. elim z [ ]) growing,
        behind,
      )

  -- Where the body of a switch stands, and its default.
  abbrev pub HasHeader : ℕ → ℕ → Type 0
  HasHeader body d =
      (offset + 1 ≤ body)
      × (body ≤ offset + 4)
      × (body % 4 ≡ 0)
      × ((p : ℕ) → offset + 1 ≤ p → p < body → get_or code p 0 ≡ 0)
      × Jumps 2_147_483_648 offset (word_at code body) d

  pub switch_header_sound :
      (body d : ℕ)
      → switch_header code offset ≡ ok (body, d)
      → (body + 4 ≤ length code) × HasHeader body d
  switch_header_sound body d e =
      let (delta, body_is, within, zeros, v, jump) = header_front code offset short inside e in
      let padding = (4 - (offset + 1) % 4) % 4 in
      let (fits, word_is) = read_word body v in
      (
        fits,
        (
          omega (arith, body_is),
          omega (arith, body_is),
          omega (arith, body_is),
          (λ p a b. (padding_iff padding (offset + 1) code).0 zeros p a (omega (arith, body_is))),
          (long_jump offset (word_at code body) d inside).0 (rw word_is jump),
        ),
      )

  pub switch_header_complete :
      (body d : ℕ)
      → body + 4 ≤ length code
      → HasHeader body d
      → switch_header code offset ≡ ok (body, d)
  unfolding switch_header
  switch_header_complete body d fits (after, near, aligned, zeros, jump) =
      let padding = (4 - (offset + 1) % 4) % 4 in
      let body_is : offset + 1 + padding ≡ body = omega arith in
      let small : leb body (length code) ≡ true = ground arith in
      rw (
        add_some offset 1 (omega arith),
        add_some (offset + 1) padding (omega arith),
        body_is,
        small,
        (padding_iff padding (offset + 1) code).1 (λ p a b. zeros p a (omega (arith, body_is))),
        read_int32-eq-some code body fits short,
        (long_jump offset (word_at code body) d inside).1 jump,
      )
