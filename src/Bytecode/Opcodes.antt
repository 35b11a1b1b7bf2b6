-- ===== src/Bytecode/Opcodes.antt =====
-- bytecode.go: the table of operand widths and the classes of opcodes.
use shell_sight.Common.{ℕ, Bool, not, ◌&&◌, ◌||◌, List, [], ◌∷◌, ◌++◌, map, get_or, ltb, leb, ◌==◌}
use shell_sight.Common.Int.{ℤ, pos, negsuc}

abbrev pub invalid_operand_width : ℤ
invalid_operand_width = negsuc 0

abbrev pub variable_operand_width : ℤ
variable_operand_width = negsuc 1

abbrev zeros : List ℤ
zeros = map pos (0 ∷ 0 ∷ 0 ∷ 0 ∷ 0 ∷ 0 ∷ 0 ∷ 0 ∷ 0 ∷ 0 ∷ 0 ∷ 0 ∷ 0 ∷ 0 ∷ 0 ∷ 0 ∷ [])

abbrev reserved : List ℤ
reserved =
    map (λ (_ : ℕ). invalid_operand_width)
      (0 ∷ 0 ∷ 0 ∷ 0 ∷ 0 ∷ 0 ∷ 0 ∷ 0 ∷ 0 ∷ 0 ∷ 0 ∷ 0 ∷ 0 ∷ 0 ∷ 0 ∷ 0 ∷ [])

-- `opcodeOperandWidths`, one row for each high nibble.
unfoldable pub opcode_operand_widths : List ℤ
opcode_operand_widths =
    zeros
    ++ map pos (1 ∷ 2 ∷ 1 ∷ 2 ∷ 2 ∷ 1 ∷ 1 ∷ 1 ∷ 1 ∷ 1 ∷ 0 ∷ 0 ∷ 0 ∷ 0 ∷ 0 ∷ 0 ∷ [])
    ++ zeros
    ++ map pos (0 ∷ 0 ∷ 0 ∷ 0 ∷ 0 ∷ 0 ∷ 1 ∷ 1 ∷ 1 ∷ 1 ∷ 1 ∷ 0 ∷ 0 ∷ 0 ∷ 0 ∷ 0 ∷ [])
    ++ zeros
    ++ zeros
    ++ zeros
    ++ zeros
    ++ map pos (0 ∷ 0 ∷ 0 ∷ 0 ∷ 2 ∷ 0 ∷ 0 ∷ 0 ∷ 0 ∷ 0 ∷ 0 ∷ 0 ∷ 0 ∷ 0 ∷ 0 ∷ 0 ∷ [])
    ++ map pos (0 ∷ 0 ∷ 0 ∷ 0 ∷ 0 ∷ 0 ∷ 0 ∷ 0 ∷ 0 ∷ 2 ∷ 2 ∷ 2 ∷ 2 ∷ 2 ∷ 2 ∷ 2 ∷ [])
    ++ map pos (2 ∷ 2 ∷ 2 ∷ 2 ∷ 2 ∷ 2 ∷ 2 ∷ 2 ∷ 2 ∷ 1 ∷ [])
    ++ (variable_operand_width ∷ variable_operand_width ∷ [])
    ++ map pos (0 ∷ 0 ∷ 0 ∷ 0 ∷ [])
    ++ map pos (0 ∷ 0 ∷ 2 ∷ 2 ∷ 2 ∷ 2 ∷ 2 ∷ 2 ∷ 2 ∷ 4 ∷ 4 ∷ 2 ∷ 1 ∷ 2 ∷ 0 ∷ 0 ∷ [])
    ++ map pos (2 ∷ 2 ∷ 0 ∷ 0 ∷ [])
    ++ (variable_operand_width ∷ [])
    ++ map pos (3 ∷ 2 ∷ 2 ∷ 4 ∷ 4 ∷ [])
    ++ map (λ (_ : ℕ). invalid_operand_width) (0 ∷ 0 ∷ 0 ∷ 0 ∷ 0 ∷ 0 ∷ [])
    ++ reserved
    ++ reserved
    ++ reserved

-- `opcodeOperandWidths[opcode]`; a byte is always in range.
unfoldable pub operand_width : ℕ → ℤ
unfolding opcode_operand_widths
operand_width opcode = get_or opcode_operand_widths opcode invalid_operand_width

unfoldable pub is_branch16 : ℕ → Bool
is_branch16 opcode = leb 0x99 opcode && leb opcode 0xa8 || opcode == 0xc6 || opcode == 0xc7

unfoldable pub is_branch32 : ℕ → Bool
is_branch32 opcode = opcode == 0xc8 || opcode == 0xc9

unfoldable pub opcode_falls_through : ℕ → Bool
opcode_falls_through opcode =
    not (
      opcode == 0xa7
      || opcode == 0xa8
      || opcode == 0xa9
      || opcode == 0xaa
      || opcode == 0xab
      || opcode == 0xbf
      || opcode == 0xc8
      || opcode == 0xc9)
    && (ltb opcode 0xac || ltb 0xb1 opcode)

unfoldable pub is_legal_wide_index_opcode : ℕ → Bool
is_legal_wide_index_opcode opcode =
    leb 0x15 opcode && leb opcode 0x19 || leb 0x36 opcode && leb opcode 0x3a || opcode == 0xa9
