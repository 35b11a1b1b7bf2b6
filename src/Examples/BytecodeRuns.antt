-- ===== src/Examples/BytecodeRuns.antt =====
-- Runs of bytecode.go and cfg.go.
use shell_sight.Common.{
  ℕ, ◌≤◌, Bool, true, false, some, List, [], ◌∷◌, ◌≡◌, ◌≢◌, ◌↔◌, refl, arith, length, take, drop,
}
use shell_sight.Common.Int.{pos}
use shell_sight.Common.Result.{ok, err}
use shell_sight.Bytecode.Words.{
  Bytes, max_uint32, checked_add_uint64, checked_mul_uint64, clone_byte_range, read_int32,
  resolve_absolute_target,
}
use shell_sight.Bytecode.Decode.{
  Instruction, out_of_fuel, decode_instructions, decode_instructions_counted, decode_from,
  decode_one, decode_fixed_instruction, fixed_targets, valid_fixed_operands, decode_variable,
  decode_switch_instruction, switch_header, padding_is_zero, switch_targets, table_switch,
  table_targets,
}
use shell_sight.Bytecode.Opcodes.{operand_width, opcode_falls_through}
use shell_sight.Bytecode.Stream.{
  Stream, Allows, decode_instructions-in_fuel, decode_instructions_counted-limit,
}
use shell_sight.Bytecode.Listing.{Listing, decode_instructions-iff_Listing}
use shell_sight.Bytecode.Encode.{encode, encode-decode_instructions}
use shell_sight.Cfg.Offsets.{add, add_all, sorted_offsets}
use shell_sight.Cfg.Validate.{
  CodeModel, validate_instruction_stream, validate_items, equal, same_instruction,
  validate_metadata, boundary, boundaries_from, is_boundary, validate_exception_handlers,
}
use shell_sight.Cfg.Accepts.{validate_instruction_stream-iff_Stream}
use shell_sight.Cfg.Build.{
  ControlFlowGraph, build_cfg, build_model, build_nonempty, check_targets, check_target_list,
  jsr_continuations, is_jsr_instruction, instruction_end, leaders, instruction_leaders,
  handler_leaders, preflight_cfg_work, count_work, reserve, is_ret_instruction, cut_blocks,
  block_last, link_blocks, add_handlers, last_instruction,
}
use shell_sight.Cfg.Graph.{IsGraphOf, build_cfg-IsGraphOf}

-- iload_0; ifeq +5; iconst_1; ireturn; iconst_0; ireturn
abbrev code : Bytes
code = 0x1a ∷ 0x99 ∷ 0x00 ∷ 0x05 ∷ 0x04 ∷ 0xac ∷ 0x03 ∷ 0xac ∷ []

abbrev plain : ℕ → ℕ → Bool → Instruction
plain at op through = record {
  offset = at;
  opcode = op;
  operands = [];
  targets = [];
  fallthrough = through;
}

abbrev decoded : List Instruction
decoded =
    plain 0 0x1a true
    ∷ record {
      offset = 1;
      opcode = 0x99;
      operands = 0 ∷ 5 ∷ [];
      targets = 6 ∷ [];
      fallthrough = true;
    }
    ∷ plain 4 0x04 true
    ∷ plain 5 0xac false
    ∷ plain 6 0x03 true
    ∷ plain 7 0xac false
    ∷ []

decode_run : decode_instructions code (pos 100) ≡ ok decoded
unfolding decode_instructions decode_instructions_counted decode_from decode_one
    decode_fixed_instruction checked_add_uint64 operand_width clone_byte_range fixed_targets
    valid_fixed_operands opcode_falls_through
decode_run = refl

-- tableswitch with one entry, at whose both targets a return stands
abbrev switch_code : Bytes
switch_code =
    0xaa ∷ 0 ∷ 0 ∷ 0 ∷ 0 ∷ 0 ∷ 0 ∷ 20 ∷ 0 ∷ 0 ∷ 0 ∷ 0 ∷ 0 ∷ 0 ∷ 0 ∷ 0 ∷ 0 ∷ 0 ∷ 0 ∷ 20 ∷ 0xb1 ∷ []

switch_run :
    decode_instructions switch_code (pos 100)
    ≡ ok (
        record {
          offset = 0;
          opcode = 0xaa;
          operands = take 19 (drop 1 switch_code);
          targets = 20 ∷ 20 ∷ [];
          fallthrough = false;
        }
        ∷ plain 20 0xb1 false
        ∷ [])
unfolding decode_instructions decode_instructions_counted decode_from decode_one
    decode_fixed_instruction checked_add_uint64 checked_mul_uint64 operand_width clone_byte_range
    fixed_targets valid_fixed_operands opcode_falls_through decode_variable
    decode_switch_instruction switch_header padding_is_zero switch_targets table_switch
    table_targets read_int32 resolve_absolute_target
switch_run = refl

short : length code ≤ max_uint32
short = omega arith

decode_instructions-iff_Listing_example :
    (decode_instructions code (pos 100) ≡ ok decoded)
    ↔ (Listing code 0 decoded × Allows (pos 100) (length decoded))
decode_instructions-iff_Listing_example =
    decode_instructions-iff_Listing code (pos 100) decoded short

encode-decode_instructions_example : encode decoded ≡ code
encode-decode_instructions_example =
    encode-decode_instructions code (pos 100) decoded short decode_run

decode_instructions-in_fuel_example : decode_instructions code (pos 2) ≢ err out_of_fuel
decode_instructions-in_fuel_example = decode_instructions-in_fuel code (pos 2)

decode_instructions_counted-limit_example :
    Allows (pos 2) (decode_instructions_counted code (pos 2)).1
decode_instructions_counted-limit_example = decode_instructions_counted-limit code (pos 2)

validate_instruction_stream-iff_Stream_example :
    (validate_instruction_stream code decoded ≡ ok tt → Stream code 0 decoded)
    × (Stream code 0 decoded → validate_instruction_stream code decoded ≡ ok tt)
validate_instruction_stream-iff_Stream_example =
    validate_instruction_stream-iff_Stream code decoded short

abbrev model : CodeModel
model = record { code = code; handlers = [] }

-- The branch ends its block, and both of its ways lead to the start of one.
abbrev graph : ControlFlowGraph
graph = record {
  entry = 0;
  blocks =
      record { start = 0; instructions = take 2 decoded; successors = 4 ∷ 6 ∷ [] }
      ∷ record { start = 4; instructions = take 2 (drop 2 decoded); successors = [] }
      ∷ record { start = 6; instructions = drop 4 decoded; successors = [] }
      ∷ [];
  order = 0 ∷ 4 ∷ 6 ∷ [];
}

build_run : build_cfg (some model) decoded ≡ ok graph
unfolding decode_instructions decode_instructions_counted decode_from decode_one
    decode_fixed_instruction checked_add_uint64 operand_width clone_byte_range fixed_targets
    valid_fixed_operands opcode_falls_through build_cfg build_model validate_instruction_stream
    validate_items equal same_instruction validate_metadata boundary boundaries_from is_boundary
    validate_exception_handlers build_nonempty check_targets check_target_list jsr_continuations
    is_jsr_instruction instruction_end leaders instruction_leaders handler_leaders add_all add
    sorted_offsets preflight_cfg_work count_work reserve is_ret_instruction checked_mul_uint64
    cut_blocks block_last link_blocks add_handlers last_instruction
build_run = refl

build_cfg-IsGraphOf_example : Stream code 0 decoded × IsGraphOf decoded graph
build_cfg-IsGraphOf_example = build_cfg-IsGraphOf model decoded graph build_run
