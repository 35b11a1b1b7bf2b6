-- ===== src/Cfg/Validate.antt =====
-- cfg.go, `validateInstructionStream` and `validateExceptionHandlers`.
use shell_sight.Common.{
  ℕ, suc, ◌+◌, Bool, true, false, not, ◌&&◌, ◌||◌, Option, none, some, List, [], ◌∷◌, length,
  get_or, if◌then◌else◌, ltb, leb, ◌==◌, String,
}
use shell_sight.Common.Int.{pos}
use shell_sight.Common.Result.{Result, ok, ◌>>=◌, ◌>>◌, guard, or_err, map_err}
use shell_sight.Bytecode.Words.{Bytes, checked_add_uint64, clone_byte_range}
use shell_sight.Bytecode.Decode.{Instruction, LoopError, decode_instructions}

pub record ExceptionHandler : Type 0 where
  pub start : ℕ
  pub end : ℕ
  pub handler : ℕ
  pub catch_type : String

-- The part of `codeModel` that `buildCFG` reads.
pub record CodeModel : Type 0 where
  pub code : Bytes
  pub handlers : List ExceptionHandler

pub data CfgError : Type 0 where
  nil_code_model handlers_without_code instructions_for_empty no_instructions : CfgError
  code_too_long falls_off_end length_overflow stream_ends_at offset_overflow : ℕ → CfgError
  misplaced_instruction : ℕ → ℕ → ℕ → CfgError
  opcode_mismatch : ℕ → ℕ → CfgError
  operands_exceed operands_mismatch metadata_mismatch : ℕ → CfgError
  not_decodable : LoopError → CfgError
  count_mismatch : ℕ → ℕ → CfgError
  target_not_boundary : ℕ → ℕ → CfgError
  jsr_overflow : ℕ → CfgError
  bad_continuation : ℕ → ℕ → CfgError
  bad_handler_range handler_past_end handler_start handler_end handler_target : ℕ → CfgError
  budget_exceeded : CfgError
  empty_block ret_without_jsr missing_fallthrough : ℕ → CfgError

-- `bytes.Equal` and `slices.Equal`.
unfoldable pub equal : List ℕ → List ℕ → Bool
equal [] (_ ∷ _) = false
equal (_ ∷ _) [] = false
equal [] [] = true
equal (left ∷ lefts) (right ∷ rights) = left == right && equal lefts rights

pub bool_equal : Bool → Bool → Bool
bool_equal true b = b
bool_equal false b = not b

-- The first loop: the offset behind the last instruction.
unfoldable pub validate_items : Bytes → ℕ → ℕ → List Instruction → Result CfgError ℕ
validate_items code index expected [] = ok expected
validate_items code index expected (ins ∷ rest) = do
  guard (ins.offset == expected) (misplaced_instruction index ins.offset expected)
  guard (ltb expected (length code) && get_or code expected 0 == ins.opcode)
      (opcode_mismatch index expected)
  after ← or_err (checked_add_uint64 expected 1) (offset_overflow index)
  end ← or_err (checked_add_uint64 after (length ins.operands)) (operands_exceed index)
  guard (leb end (length code)) (operands_exceed index)
  guard (equal ins.operands (clone_byte_range code (expected + 1) end)) (operands_mismatch index)
  validate_items code (suc index) end rest

unfoldable pub same_instruction : Instruction → Instruction → Bool
unfolding bool_equal
same_instruction got want =
    got.offset == want.offset
    && got.opcode == want.opcode
    && equal got.operands want.operands
    && equal got.targets want.targets
    && bool_equal got.fallthrough want.fallthrough

-- The last loop; the lists have one length.
unfoldable pub validate_metadata :
    ℕ → List Instruction → List Instruction → Result CfgError (Unit {0})
validate_metadata index (got ∷ gots) (want ∷ wants) =
    guard (same_instruction got want) (metadata_mismatch index)
    >> validate_metadata (suc index) gots wants
validate_metadata index _ _ = ok tt

validate_nonempty : Bytes → List Instruction → Result CfgError (Unit {0})
validate_nonempty code instructions = do
  guard (not (length instructions == 0)) no_instructions
  expected ← validate_items code 0 0 instructions
  guard (expected == length code) (stream_ends_at expected)
  decoded ← map_err not_decodable (decode_instructions code (pos (length instructions)))
  guard (length decoded == length instructions)
      (count_mismatch (length instructions) (length decoded))
  validate_metadata 0 instructions decoded

unfoldable pub validate_instruction_stream : Bytes → List Instruction → Result CfgError (Unit {0})
unfolding validate_nonempty
validate_instruction_stream code instructions =
    if length code == 0
    then guard (length instructions == 0) instructions_for_empty
    else validate_nonempty code instructions

-- The map `boundaries`: the last entry written for an offset is found first.
abbrev pub Boundaries : Type 0
Boundaries = List (ℕ × ℕ)

unfoldable pub boundary : Boundaries → ℕ → Option ℕ
boundary [] offset = none
boundary ((o, index) ∷ m) offset = if o == offset then some index else boundary m offset

unfoldable pub boundaries_from : ℕ → List Instruction → Boundaries → Boundaries
boundaries_from index [] m = m
boundaries_from index (ins ∷ rest) m = boundaries_from (suc index) rest ((ins.offset, index) ∷ m)

unfoldable pub is_boundary : Boundaries → ℕ → Bool
is_boundary m offset = elim (boundary m offset) [ none ↦ false | some _ ↦ true ]

unfoldable pub validate_exception_handlers :
    ℕ → List ExceptionHandler → Boundaries → ℕ → Result CfgError (Unit {0})
validate_exception_handlers index [] m code_length = ok tt
validate_exception_handlers index (h ∷ hs) m code_length = do
  guard (ltb h.start h.end) (bad_handler_range index)
  guard (leb h.end code_length) (handler_past_end index)
  guard (is_boundary m h.start) (handler_start index)
  guard (h.end == code_length || is_boundary m h.end) (handler_end index)
  guard (is_boundary m h.handler) (handler_target index)
  validate_exception_handlers (suc index) hs m code_length
