-- ===== src/Bytecode/Decode.antt =====
-- bytecode.go: the decoders of the three shapes of instructions, and the loop over the code.
use shell_sight.Common.{
  ℕ, zero, suc, ◌+◌, ◌-◌, ◌%◌, Bool, true, false, not, ◌&&◌, ◌||◌, List, [], ◌∷◌, ◌++◌, length,
  get_or, if◌then◌else◌, ltb, leb, ◌==◌,
}
use shell_sight.Common.Int.{ℤ, pos, negsuc, pos_part, neg_part, ltb_ℤ, leb_ℤ}
use shell_sight.Common.Result.{Result, ok, err, ◌>>=◌, ◌>>◌, guard, or_err, map_err}
use shell_sight.Bytecode.Words.{
  Bytes, max_uint32, max_int, checked_add_uint64, checked_mul_uint64, clone_byte_range, be_uint16,
  be_uint32, to_int16, to_int32, read_int32, int_or_zero, TargetError, resolve_absolute_target,
}
use shell_sight.Bytecode.Opcodes.{
  operand_width, is_branch16, is_branch32, opcode_falls_through, is_legal_wide_index_opcode,
}

pub record Instruction : Type 0 where
  pub offset : ℕ
  pub opcode : ℕ
  pub operands : Bytes
  pub targets : List ℕ
  pub fallthrough : Bool

-- The errors, with the numbers that their texts name.
pub data DecodeError : Type 0 where
  reserved_opcode unsupported_variable_width truncated_operands : ℕ → ℕ → DecodeError
  offset_overflow : ℕ → DecodeError
  bad_target : ℕ → ℕ → TargetError → DecodeError
  bad_operands : ℕ → ℕ → DecodeError
  truncated_wide wide_overflow : ℕ → DecodeError
  illegal_wide truncated_wide_operands : ℕ → ℕ → DecodeError
  truncated_padding nonzero_padding truncated_default : ℕ → DecodeError
  bad_default : ℕ → TargetError → DecodeError
  header_overflow truncated_header count_overflow truncated_entries too_many_entries :
      ℕ → DecodeError
  invalid_range : ℤ → ℤ → ℕ → DecodeError
  negative_pair_count : ℤ → ℕ → DecodeError
  bad_entry : ℕ → ℕ → TargetError → DecodeError
  keys_not_increasing : ℕ → DecodeError
  invalid_switch_opcode : ℕ → DecodeError

-- The errors of the loop; `instruction_limit` is `instructionLimitError`, and `out_of_fuel` the end of
-- the fuel, which no input reaches.
pub data LoopError : Type 0 where
  code_too_long : ℕ → LoopError
  instruction_limit : ℤ → ℕ → LoopError
  decoding : DecodeError → LoopError
  out_of_fuel : LoopError

abbrev pub Decoded : Type 0
Decoded = Result DecodeError (Instruction × ℕ)

-- `uint32(offset)`.
abbrev pub uint32 : ℕ → ℕ
uint32 n = n % 4_294_967_296

-- `validateFixedOperands`: is the operand accepted? The width of each opcode puts its operands in range.
unfoldable pub valid_fixed_operands : ℕ → Bytes → Bool
valid_fixed_operands opcode operands =
    if opcode == 0xb9
    then not (get_or operands 2 0 == 0) && get_or operands 3 0 == 0
    else if opcode == 0xba
    then get_or operands 2 0 == 0 && get_or operands 3 0 == 0
    else if opcode == 0xbc
    then leb 4 (get_or operands 0 0) && leb (get_or operands 0 0) 11
    else if opcode == 0xc5
    then not (get_or operands 2 0 == 0)
    else true

-- The `switch` on the branch classes: the target list of a fixed-width instruction.
unfoldable pub fixed_targets : ℕ → ℕ → Bytes → Result TargetError (List ℕ)
unfolding is_branch16 is_branch32 be_uint16 be_uint32 to_int16 to_int32 resolve_absolute_target
fixed_targets opcode offset operands =
    if is_branch16 opcode
    then (resolve_absolute_target offset (to_int16 (be_uint16 operands)) >>= λ target.
        ok (target ∷ []))
    else if is_branch32 opcode
    then (resolve_absolute_target offset (to_int32 (be_uint32 operands)) >>= λ target.
        ok (target ∷ []))
    else ok []

unfoldable pub decode_fixed_instruction : Bytes → ℕ → ℕ → ℕ → Decoded
decode_fixed_instruction code offset opcode width = do
  after ← or_err (checked_add_uint64 offset 1) (offset_overflow opcode)
  next ← or_err (checked_add_uint64 after width) (truncated_operands opcode offset)
  guard (leb next (length code)) (truncated_operands opcode offset)
  let operands = clone_byte_range code (offset + 1) next
  targets ← map_err (bad_target opcode offset) (fixed_targets opcode offset operands)
  guard (valid_fixed_operands opcode operands) (bad_operands opcode offset)
  ok (
    record {
      offset = uint32 offset;
      opcode = opcode;
      operands = operands;
      targets = targets;
      fallthrough = opcode_falls_through opcode;
    },
    next,
  )

unfoldable pub decode_wide_instruction : Bytes → ℕ → Decoded
decode_wide_instruction code offset = do
  sub_offset ← or_err (checked_add_uint64 offset 1) (truncated_wide offset)
  guard (ltb sub_offset (length code)) (truncated_wide offset)
  let subopcode = get_or code sub_offset 0
  guard (subopcode == 0x84 || is_legal_wide_index_opcode subopcode) (illegal_wide subopcode offset)
  let operand_count = if subopcode == 0x84 then 5 else 3
  after ← or_err (checked_add_uint64 offset 1) (wide_overflow offset)
  next ← or_err (checked_add_uint64 after operand_count) (truncated_wide_operands subopcode offset)
  guard (leb next (length code)) (truncated_wide_operands subopcode offset)
  ok (
    record {
      offset = uint32 offset;
      opcode = 0xc4;
      operands = clone_byte_range code (offset + 1) next;
      targets = [];
      fallthrough = not (subopcode == 0xa9);
    },
    next,
  )

-- The loop over the padding bytes.
unfoldable pub padding_is_zero : ℕ → Bytes → ℕ → Result DecodeError (Unit {0})
padding_is_zero zero code position = ok tt
padding_is_zero (suc n) code position =
    guard (get_or code position 0 == 0) (nonzero_padding position)
    >> padding_is_zero n code (position + 1)

-- `high - low + 1`, where `low ≤ high`.
abbrev pub span : ℤ → ℤ → ℕ
span low high = pos_part high + neg_part low - (pos_part low + neg_part high) + 1

-- The targets of the `count` entries from index `i` on, at byte position `position`.
unfoldable pub table_targets : ℕ → Bytes → ℕ → ℕ → ℕ → Result DecodeError (List ℕ)
table_targets zero code offset i position = ok []
table_targets (suc n) code offset i position = do
  let delta = int_or_zero (read_int32 code position)
  target ← map_err (bad_entry i offset) (resolve_absolute_target offset delta)
  rest ← table_targets n code offset (i + 1) (position + 4)
  ok (target ∷ rest)

unfoldable pub table_switch : Bytes → ℕ → ℕ → ℕ → Result DecodeError (List ℕ × ℕ)
table_switch code offset body default_target = do
  low_pos ← or_err (checked_add_uint64 body 4) (header_overflow offset)
  high_pos ← or_err (checked_add_uint64 body 8) (header_overflow offset)
  entries ← or_err (checked_add_uint64 body 12) (header_overflow offset)
  low ← or_err (read_int32 code low_pos) (truncated_header offset)
  high ← or_err (read_int32 code high_pos) (truncated_header offset)
  guard (not (ltb_ℤ high low)) (invalid_range low high offset)
  let count = span low high
  payload_bytes ← or_err (checked_mul_uint64 count 4) (count_overflow offset)
  next ← or_err (checked_add_uint64 entries payload_bytes) (truncated_entries offset)
  guard (leb next (length code)) (truncated_entries offset)
  guard (leb count (max_int - 1)) (too_many_entries offset)
  targets ← table_targets count code offset 0 entries
  ok (default_target ∷ targets, next)

-- The pairs from index `i` on; `previous_key` is read from the second pair on.
unfoldable pub lookup_targets : ℕ → Bytes → ℕ → ℕ → ℤ → ℕ → Result DecodeError (List ℕ)
lookup_targets zero code offset i previous_key position = ok []
lookup_targets (suc n) code offset i previous_key position = do
  let key = int_or_zero (read_int32 code position)
  guard (not (ltb 0 i && leb_ℤ key previous_key)) (keys_not_increasing i)
  let delta = int_or_zero (read_int32 code (position + 4))
  target ← map_err (bad_entry i offset) (resolve_absolute_target offset delta)
  rest ← lookup_targets n code offset (i + 1) key (position + 8)
  ok (target ∷ rest)

abbrev is_negative : ℤ → Bool
is_negative (pos n) = false
is_negative (negsuc n) = true

unfoldable pub lookup_switch : Bytes → ℕ → ℕ → ℕ → Result DecodeError (List ℕ × ℕ)
lookup_switch code offset body default_target = do
  count_pos ← or_err (checked_add_uint64 body 4) (header_overflow offset)
  pairs ← or_err (checked_add_uint64 body 8) (header_overflow offset)
  signed_count ← or_err (read_int32 code count_pos) (truncated_header offset)
  guard (not (is_negative signed_count)) (negative_pair_count signed_count offset)
  let count = pos_part signed_count
  payload_bytes ← or_err (checked_mul_uint64 count 8) (count_overflow offset)
  next ← or_err (checked_add_uint64 pairs payload_bytes) (truncated_entries offset)
  guard (leb next (length code)) (truncated_entries offset)
  guard (leb count (max_int - 1)) (too_many_entries offset)
  targets ← lookup_targets count code offset 0 (pos 0) pairs
  ok (default_target ∷ targets, next)

-- The `switch` on the opcode: the targets and the offset behind the instruction.
unfoldable pub switch_targets : ℕ → Bytes → ℕ → ℕ → ℕ → Result DecodeError (List ℕ × ℕ)
switch_targets opcode code offset body default_target =
    if opcode == 0xaa
    then table_switch code offset body default_target
    else if opcode == 0xab
    then lookup_switch code offset body default_target
    else err (invalid_switch_opcode opcode)

-- The part of `decodeSwitchInstruction` that both opcodes share: where the body begins behind the
-- padding, and the default target.
unfoldable pub switch_header : Bytes → ℕ → Result DecodeError (ℕ × ℕ)
switch_header code offset = do
  after_opcode ← or_err (checked_add_uint64 offset 1) (header_overflow offset)
  let padding = (4 - after_opcode % 4) % 4
  body ← or_err (checked_add_uint64 after_opcode padding) (truncated_padding offset)
  guard (leb body (length code)) (truncated_padding offset)
  padding_is_zero padding code after_opcode
  default_delta ← or_err (read_int32 code body) (truncated_default offset)
  default_target ← map_err (bad_default offset) (resolve_absolute_target offset default_delta)
  ok (body, default_target)

unfoldable pub decode_switch_instruction : Bytes → ℕ → ℕ → Decoded
decode_switch_instruction code offset opcode = do
  header ← switch_header code offset
  r ← switch_targets opcode code offset header.0 header.1
  ok (
    record {
      offset = uint32 offset;
      opcode = opcode;
      operands = clone_byte_range code (offset + 1) r.1;
      targets = r.0;
      fallthrough = false;
    },
    r.1,
  )

-- The `switch` on the opcode of a variable-width instruction.
unfoldable pub decode_variable : Bytes → ℕ → ℕ → Decoded
decode_variable code offset opcode =
    if opcode == 0xaa || opcode == 0xab
    then decode_switch_instruction code offset opcode
    else if opcode == 0xc4
    then decode_wide_instruction code offset
    else err (unsupported_variable_width opcode offset)

-- The tests on `width`; the last clause, `uint64` of another negative width, is never used.
unfoldable pub decode_by_width : ℤ → Bytes → ℕ → ℕ → Decoded
decode_by_width (pos width) code offset opcode = decode_fixed_instruction code offset opcode width
decode_by_width (negsuc zero) code offset opcode = err (reserved_opcode opcode offset)
decode_by_width (negsuc (suc zero)) code offset opcode = decode_variable code offset opcode
decode_by_width (negsuc (suc (suc n))) code offset opcode =
    decode_fixed_instruction code offset opcode (18_446_744_073_709_551_616 - (n + 3))

-- The body of the loop behind the test of the limit.
unfoldable pub decode_one : Bytes → ℕ → Decoded
unfolding decode_by_width decode_variable
decode_one code offset =
    let opcode = get_or code offset 0 in decode_by_width (operand_width opcode) code offset opcode

-- `limit < 0 || len(instructions) >= limit`.
abbrev pub limit_reached : ℤ → ℕ → Bool
limit_reached (negsuc n) count = true
limit_reached (pos limit) count = leb limit count

-- The loop. The second part of the answer is the number of instructions decoded, also on an error.
unfoldable pub decode_from :
    ℕ → Bytes → ℤ → ℕ → List Instruction → Result LoopError (List Instruction) × ℕ
decode_from zero code limit offset instructions = (err out_of_fuel, length instructions)
decode_from (suc fuel) code limit offset instructions = elim (ltb offset (length code)) [
  | false ↦ (ok instructions, length instructions)
  | true ↦ elim (limit_reached limit (length instructions)) [
    | true ↦ (err (instruction_limit limit offset), length instructions)
    | false ↦ elim (decode_one code offset) [
      | err e ↦ (err (decoding e), length instructions)
      | ok (ins, next) ↦ decode_from fuel code limit next (instructions ++ ins ∷ [])
    ]
  ]
]

unfoldable pub decode_instructions_counted : Bytes → ℤ → Result LoopError (List Instruction) × ℕ
decode_instructions_counted code limit =
    if ltb max_uint32 (length code)
    then (err (code_too_long (length code)), 0)
    else decode_from (length code + 1) code limit 0 []

unfoldable pub decode_instructions : Bytes → ℤ → Result LoopError (List Instruction)
decode_instructions code limit = (decode_instructions_counted code limit).0
