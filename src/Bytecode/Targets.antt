-- ===== src/Bytecode/Targets.antt =====
-- bytecode.go: the classes of opcodes, the operands that the format fixes and the targets of branches.
use shell_sight.Common.{ℕ, ◌≤◌, Bool-cases, true, inl, inr, List, [], ◌∷◌, ◌≡◌, ◌↔◌, refl, arith}
use shell_sight.Common.Result.{Result, ok, err, ◌>>=◌, ok_injective}
use shell_sight.Bytecode.Words.{Bytes, max_uint32, be_uint16, be_uint32, TargetError}
use shell_sight.Bytecode.Opcodes.{
  is_branch16, is_branch32, opcode_falls_through, is_legal_wide_index_opcode,
}
use shell_sight.Bytecode.Decode.{fixed_targets, valid_fixed_operands}
use shell_sight.Bytecode.Jumps.{Jumps, short_at, word_at, short_jump, long_jump}
use shell_sight.Bytecode.Shapes.{
  IsShortBranch, IsLongBranch, Leaves, HasTargets, AreLegal, IsWidened,
}

pub IsShortBranch-iff : (op : ℕ) → (is_branch16 op ≡ true) ↔ IsShortBranch op
unfolding is_branch16
IsShortBranch-iff op = ground arith

pub IsLongBranch-iff : (op : ℕ) → (is_branch32 op ≡ true) ↔ IsLongBranch op
unfolding is_branch32
IsLongBranch-iff op = ground arith

pub IsWidened-iff : (op : ℕ) → (is_legal_wide_index_opcode op ≡ true) ↔ IsWidened op
unfolding is_legal_wide_index_opcode
IsWidened-iff op = ground arith

pub falls_iff : (op : ℕ) → (opcode_falls_through op ≡ true) ↔ (Leaves op → ⊥)
unfolding opcode_falls_through
falls_iff op = ground arith

pub legal_iff :
    (op : ℕ) (operands : Bytes) → (valid_fixed_operands op operands ≡ true) ↔ AreLegal op operands
unfolding valid_fixed_operands
legal_iff op operands = ground arith

one_target :
    (m : Result TargetError ℕ) (P : ℕ → Type 0) (targets : List ℕ)
    → ((t : ℕ) → (m ≡ ok t) ↔ P t)
    → (◌≡◌ {A = Result TargetError (List ℕ)} (m >>= λ t. ok (t ∷ [])) (ok targets))
      ↔ ((t : ℕ) × (targets ≡ t ∷ []) × P t)
one_target (ok u) P targets h = (
  λ e. (u, cc e, (h u).0 refl),
  λ (t, is, p). let same : u ≡ t = ok_injective ((h t).1 p) in rw (is, same),
)
one_target (err why) P targets h = (λ e. cc e, λ (t, is, p). cc ((h t).1 p))

pub fixed_targets_iff :
    (op offset : ℕ) (operands : Bytes) (targets : List ℕ)
    → offset ≤ max_uint32
    → (fixed_targets op offset operands ≡ ok targets) ↔ HasTargets op offset operands targets
unfolding fixed_targets be_uint16 be_uint32
fixed_targets_iff op offset operands targets inside =
    let short = IsShortBranch-iff op in
    let long = IsLongBranch-iff op in
    elim (Bool-cases (is_branch16 op)) [
      | inl is16 ↦
          let at_short =
            one_target _ (Jumps 32_768 offset (short_at operands 0)) targets
              (λ t. short_jump offset (short_at operands 0) t inside) in
          rw is16 (
            λ e. inl (short.0 is16, at_short.0 e),
            λ h. elim h [
              | inl (s, t) ↦ at_short.1 t
              | inr other ↦ elim other [
                | inl (l, t) ↦ absurd (ground (arith, short.0 is16, l))
                | inr (s, l, rest) ↦ absurd (s (short.0 is16))
              ]
            ],
          )
      | inr not16 ↦
          let no_short : IsShortBranch op → ⊥ = λ s. cc (short.1 s) in
          elim (Bool-cases (is_branch32 op)) [
            | inl is32 ↦
                let at_long =
                  one_target _ (Jumps 2_147_483_648 offset (word_at operands 0)) targets
                    (λ t. long_jump offset (word_at operands 0) t inside) in
                rw (not16, is32)
                  (
                    λ e. inr (inl (long.0 is32, at_long.0 e)),
                    λ h. elim h [
                      | inl (s, t) ↦ absurd (no_short s)
                      | inr other ↦ elim other [
                        | inl (l, t) ↦ at_long.1 t
                        | inr (s, l, rest) ↦ absurd (l (long.0 is32))
                      ]
                    ],
                  )
            | inr not32 ↦
                let no_long : IsLongBranch op → ⊥ = λ l. cc (long.1 l) in
                rw (not16, not32)
                  (
                    λ e. inr (inr (no_short, no_long, cc e)),
                    λ h. elim h [
                      | inl (s, t) ↦ absurd (no_short s)
                      | inr other ↦ elim other [
                        | inl (l, t) ↦ absurd (no_long l)
                        | inr (s, l, rest) ↦ rw rest
                      ]
                    ],
                  )
          ]
    ]
