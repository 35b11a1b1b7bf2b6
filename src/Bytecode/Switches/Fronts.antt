-- ===== src/Bytecode/Switches/Fronts.antt =====
-- bytecode.go, `decodeSwitchInstruction`: the tests that a switch passes before its entries are read.
use native.Mathlib.Nat.{le-div_iff_mul-le}
use shell_sight.Common.{
  Option-cases, ℕ, zero, suc, ◌+◌, ◌-◌, ◌*◌, ◌/◌, ◌%◌, ◌≤◌, ◌<◌, Bool-cases, true, false, inl, inr,
  List, ◌∷◌, length, get_or, ◌≡◌, ◌↔◌, refl, arith, some, ltb, ◌==◌,
}
use shell_sight.Common.Int.{ℤ, pos, ltb_ℤ}
use shell_sight.Common.Result.{Result-cases, ok, guard-eq-ok}
use shell_sight.Bytecode.Words.{
  Bytes, max_uint32, read_int32, resolve_absolute_target, checked_add_uint64, checked_mul_uint64,
}
use shell_sight.Bytecode.Decode.{
  span, table_targets, lookup_targets, table_switch, lookup_switch, switch_header, padding_is_zero,
  nonzero_padding,
}

-- The loop over the padding accepts exactly zeros.
pub padding_iff :
    (n p : ℕ) (code : Bytes)
    → (padding_is_zero n code p ≡ ok tt) ↔ ((q : ℕ) → p ≤ q → q < p + n → get_or code q 0 ≡ 0)
unfolding padding_is_zero
padding_iff zero p code = ((λ e q a b. absurd (omega arith)), λ h. refl)
padding_iff (suc n) p code = (
  λ e q a b.
      let (head, e1) = guard-eq-ok (get_or code p 0 == 0) (nonzero_padding p) _ e in
      elim (Bool-cases (p == q)) [
        | inl same ↦ let is : p ≡ q = ground (arith, same) in rw (← is) (ground (arith, head))
        | inr differ ↦ (padding_iff n (p + 1) code).0 e1 q (ground (arith, differ)) (omega arith)
      ],
  λ h.
      let head : (get_or code p 0 == 0) ≡ true = ground (arith, h p (omega arith) (omega arith)) in
      rw head ((padding_iff n (p + 1) code).1 (λ q a b. h q (omega arith) (omega arith))),
)

pub add_some :
    (a b : ℕ) → a + b ≤ 18_446_744_073_709_551_615 → checked_add_uint64 a b ≡ some (a + b)
unfolding checked_add_uint64
add_some a b h = ground arith

pub mul_some :
    (a b : ℕ) → a * b ≤ 18_446_744_073_709_551_615 → checked_mul_uint64 a b ≡ some (a * b)
unfolding checked_mul_uint64
mul_some a b h = elim (Bool-cases (a == 0)) [
  | inl none_left ↦ rw none_left
  | inr some_left ↦
      let holds : b ≤ 18_446_744_073_709_551_615 / a =
        (le-div_iff_mul-le (ground (arith, some_left))).1 (omega arith) in
      let room : ltb (18_446_744_073_709_551_615 / a) b ≡ false = ground (arith, holds) in
      rw (some_left, room)
]

module _ (code : Bytes) (offset : ℕ) (short : length code ≤ max_uint32)
    (inside : offset ≤ max_uint32) where
  pub table_front :
      (body d : ℕ) {ts : List ℕ} {next : ℕ}
      → body ≤ length code
      → table_switch code offset body d ≡ ok (ts, next)
      → (low high : ℤ) × (targets : List ℕ) × (read_int32 code (body + 4) ≡ some low)
        × (read_int32 code (body + 8) ≡ some high)
        × (ltb_ℤ high low ≡ false)
        × (next ≡ body + 12 + span low high * 4)
        × (next ≤ length code)
        × (table_targets (span low high) code offset 0 (body + 12) ≡ ok targets)
        × (ts ≡ d ∷ targets)
  unfolding table_switch checked_add_uint64 checked_mul_uint64
  table_front body d small e =
      let made =
        rw
          (
            add_some body 4 (omega arith),
            add_some body 8 (omega arith),
            add_some body 12 (omega arith),
            table_switch,
          )
          at e in
      elim (Option-cases (read_int32 code (body + 4))) [
        | inl none_low ↦ cc (rw none_low at made)
        | inr (low, l) ↦ elim (Option-cases (read_int32 code (body + 8))) [
          | inl none_high ↦ cc (rw (l, none_high) at made)
          | inr (high, h) ↦
              elim (Result-cases (table_targets (span low high) code offset 0 (body + 12))) [
                | inr (why, t) ↦ absurd (ground (arith, rw (l, h, t) at made))
                | inl (targets, t) ↦
                    let rest = rw (l, h, t) at made in
                    (
                      low,
                      high,
                      targets,
                      l,
                      h,
                      ground (arith, rest),
                      ground (arith, rest),
                      ground (arith, rest),
                      t,
                      ground (arith, rest),
                    )
              ]
        ]
      ]

  pub lookup_front :
      (body d : ℕ) {ts : List ℕ} {next : ℕ}
      → lookup_switch code offset body d ≡ ok (ts, next)
      → (count : ℕ) × (targets : List ℕ) × (read_int32 code (body + 4) ≡ some (pos count))
        × (next ≡ body + 8 + count * 8)
        × (next ≤ length code)
        × (lookup_targets count code offset 0 (pos 0) (body + 8) ≡ ok targets)
        × (ts ≡ d ∷ targets)
  unfolding lookup_switch checked_add_uint64 checked_mul_uint64
  lookup_front body d e = ground arith

  pub header_front :
      {r : ℕ × ℕ}
      → switch_header code offset ≡ ok r
      → (delta : ℤ) × (r.0 ≡ offset + 1 + (4 - (offset + 1) % 4) % 4)
        × (r.0 ≤ length code)
        × (padding_is_zero ((4 - (offset + 1) % 4) % 4) code (offset + 1) ≡ ok tt)
        × (read_int32 code r.0 ≡ some delta)
        × (resolve_absolute_target offset delta ≡ ok r.1)
  unfolding switch_header checked_add_uint64
  header_front e =
      let padding = (4 - (offset + 1) % 4) % 4 in
      let made =
        rw
          (
            add_some offset 1 (omega arith),
            add_some (offset + 1) padding (omega arith),
            switch_header,
          )
          at e in
      elim (Option-cases (read_int32 code (offset + 1 + padding))) [
        | inl none_read ↦ absurd (ground (arith, rw none_read at made))
        | inr (delta, v) ↦
            let rest = rw v at made in
            (
              delta,
              ground (arith, rest),
              ground (arith, rest),
              ground (arith, rest),
              ground (arith, rest, v),
              ground (arith, rest),
            )
      ]
