-- ===== src/Bytecode/Widths.antt =====
-- bytecode.go, `opcodeOperandWidths`: the table against the ranges of opcodes with one width.
use native.Mathlib.Nat.{add-zero, zero-add}
use shell_sight.Common.{
  ℕ, zero, suc, ◌+◌, ◌≤◌, ◌<◌, Bool-cases, ◌||◌, ◌&&◌, Bool, true, List, [], ◌∷◌, length, get_or,
  ◌≡◌, refl, sym, ap, ◌∙◌, arith, leb, ◌==◌, inl, inr, if◌then◌else◌,
}
use shell_sight.Common.Int.{ℤ, pos, negsuc}
use shell_sight.Bytecode.Opcodes.{operand_width, opcode_operand_widths}

abbrev between : ℕ → ℕ → ℕ → Bool
between first last op = leb first op && leb op last

-- iinc, the branches, the accesses to fields, the calls, and the instructions on types.
abbrev has_two : ℕ → Bool
has_two op =
    op == 0x11
    || between 0x13 0x14 op
    || op == 0x84
    || between 0x99 0xa8 op
    || between 0xb2 0xb8 op
    || op == 0xbb
    || op == 0xbd
    || between 0xc0 0xc1 op
    || between 0xc6 0xc7 op

-- bipush, ldc, the loads and stores of a local, ret and newarray.
abbrev has_one : ℕ → Bool
has_one op =
    op == 0x10
    || op == 0x12
    || between 0x15 0x19 op
    || between 0x36 0x3a op
    || op == 0xa9
    || op == 0xbc

-- The number of operand bytes of an opcode; -2 for the switches and wide, and -1 for an opcode that
-- the Java virtual machine does not have.
unfoldable pub width_of : ℕ → ℤ
width_of op =
    if leb 0xca op
    then negsuc 0
    else if between 0xaa 0xab op || op == 0xc4
    then negsuc 1
    else if between 0xb9 0xba op || between 0xc8 0xc9 op
    then pos 4
    else if op == 0xc5
    then pos 3
    else if has_two op
    then pos 2
    else if has_one op
    then pos 1
    else pos 0

-- The widths of the opcodes from `n` on, as many as the list has.
widths_from : ℕ → List ℤ → List ℤ
widths_from n [] = []
widths_from n (w ∷ ws) = width_of n ∷ widths_from (suc n) ws

table-eq-widths : widths_from 0 opcode_operand_widths ≡ opcode_operand_widths
unfolding widths_from width_of opcode_operand_widths
table-eq-widths = refl

get_or-widths :
    (n i : ℕ) (ws : List ℤ)
    → widths_from n ws ≡ ws
    → i < length ws
    → get_or ws i (negsuc 0) ≡ width_of (n + i)
unfolding widths_from
get_or-widths n i [] e h = elim h [ ]
get_or-widths n zero (w ∷ ws) e h = let first : width_of n ≡ w = cc in rw add-zero (sym first)
get_or-widths n (suc i) (w ∷ ws) e h =
    let rest : widths_from (suc n) ws ≡ ws = cc in
    get_or-widths (suc n) i ws rest (omega arith) ∙ ap width_of (omega arith)

get_or-beyond : (i : ℕ) (ws : List ℤ) → length ws ≤ i → get_or ws i (negsuc 0) ≡ negsuc 0
get_or-beyond i [] h = refl
get_or-beyond zero (w ∷ ws) h = elim h [ ]
get_or-beyond (suc i) (w ∷ ws) h = get_or-beyond i ws (omega arith)

table_length : length opcode_operand_widths ≡ 256
unfolding opcode_operand_widths
table_length = refl

width_of-beyond : (op : ℕ) → leb 256 op ≡ true → width_of op ≡ negsuc 0
unfolding width_of
width_of-beyond op h = let out : leb 0xca op ≡ true = ground (arith, h) in rw out

-- The table holds the width of each opcode.
pub operand_width-eq-width_of : (op : ℕ) → operand_width op ≡ width_of op
unfolding operand_width
operand_width-eq-width_of op = elim (Bool-cases (leb 256 op)) [
  | inl out ↦
      get_or-beyond op opcode_operand_widths (rw table_length (ground (arith, out)))
      ∙ sym (width_of-beyond op out)
  | inr in_table ↦
      get_or-widths 0 op opcode_operand_widths table-eq-widths
        (rw table_length (ground (arith, in_table)))
      ∙ rw zero-add
]
