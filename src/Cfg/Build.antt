-- ===== src/Cfg/Build.antt =====
-- cfg.go, `buildCFG` and `preflightCFGWork`.
use shell_sight.Common.{
  ℕ, ◌+◌, ◌-◌, Bool, not, ◌&&◌, ◌||◌, Option, none, some, List, [], ◌∷◌, length, get_or, take, drop,
  if◌then◌else◌, ltb, leb, ◌==◌,
}
use shell_sight.Common.Result.{Result, ok, err, ◌>>=◌, ◌>>◌, guard, or_err}
use shell_sight.Bytecode.Words.{Bytes, max_uint32, checked_add_uint64, checked_mul_uint64}
use shell_sight.Bytecode.Decode.{Instruction, uint32}
use shell_sight.Cfg.Offsets.{add, add_all, sorted_offsets}
use shell_sight.Cfg.Validate.{
  ExceptionHandler, CodeModel, CfgError, nil_code_model, handlers_without_code, code_too_long,
  falls_off_end, length_overflow, target_not_boundary, jsr_overflow, bad_continuation,
  budget_exceeded, empty_block, ret_without_jsr, missing_fallthrough, Boundaries, boundary,
  boundaries_from, is_boundary, validate_instruction_stream, validate_exception_handlers,
}

pub record BasicBlock : Type 0 where
  pub start : ℕ
  pub instructions : List Instruction
  pub successors : List ℕ

-- `Blocks` lists the values of the Go map in the order of `Order`, whose offsets are its keys.
pub record ControlFlowGraph : Type 0 where
  pub entry : ℕ
  pub blocks : List BasicBlock
  pub order : List ℕ

unfoldable pub instruction_end : Instruction → Option ℕ
instruction_end ins = elim (checked_add_uint64 ins.offset 1) [
  | none ↦ none
  | some after ↦ elim (checked_add_uint64 after (length ins.operands)) [
    | none ↦ none
    | some end ↦ if ltb max_uint32 end then none else some end
  ]
]

unfoldable pub is_jsr_instruction : Instruction → Bool
is_jsr_instruction ins = ins.opcode == 0xa8 || ins.opcode == 0xc9

unfoldable pub is_ret_instruction : Instruction → Bool
is_ret_instruction ins =
    ins.opcode == 0xa9
    || ins.opcode == 0xc4 && not (length ins.operands == 0) && get_or ins.operands 0 0 == 0xa9

-- The test of the last instruction.
unfoldable pub check_final : Instruction → ℕ → Result CfgError (Unit {0})
check_final final code_length =
    if final.fallthrough
    then (or_err (instruction_end final) (length_overflow final.offset) >>= λ end.
        guard (not (end == code_length)) (falls_off_end final.offset))
    else ok tt

unfoldable pub check_target_list : Boundaries → ℕ → List ℕ → Result CfgError (Unit {0})
check_target_list m offset [] = ok tt
check_target_list m offset (t ∷ ts) =
    guard (is_boundary m t) (target_not_boundary offset t) >> check_target_list m offset ts

unfoldable pub check_targets : Boundaries → List Instruction → Result CfgError (Unit {0})
check_targets m [] = ok tt
check_targets m (ins ∷ rest) = check_target_list m ins.offset ins.targets >> check_targets m rest

-- The set `jsrContinuationSet`.
unfoldable pub jsr_continuations : Boundaries → List Instruction → List ℕ → Result CfgError (List ℕ)
jsr_continuations m [] set = ok set
jsr_continuations m (ins ∷ rest) set =
    if not (is_jsr_instruction ins) then jsr_continuations m rest set else (do
      continuation ← or_err (instruction_end ins) (jsr_overflow ins.offset)
      guard (is_boundary m continuation) (bad_continuation ins.offset continuation)
      jsr_continuations m rest (add continuation set))

unfoldable pub add_first : List Instruction → List ℕ → List ℕ
add_first [] set = set
add_first (ins ∷ rest) set = add ins.offset set

-- The leaders that the instructions give.
unfoldable pub instruction_leaders : List Instruction → List ℕ → List ℕ
unfolding add_first
instruction_leaders [] set = set
instruction_leaders (ins ∷ rest) set =
    let with_targets = add_all ins.targets set in
    instruction_leaders rest (
      if not (length ins.targets == 0) || not ins.fallthrough
      then add_first rest with_targets
      else with_targets)

-- The leaders that the exception handlers give.
unfoldable pub handler_leaders : List ExceptionHandler → ℕ → List ℕ → List ℕ
handler_leaders [] code_length set = set
handler_leaders (h ∷ hs) code_length set =
    let with_start = add h.start set in
    let with_end = if ltb h.end code_length then add h.end with_start else with_start in
    handler_leaders hs code_length (add h.handler with_end)

unfoldable pub leaders :
    Instruction → List Instruction → List ExceptionHandler → List ℕ → ℕ → List ℕ
leaders first rest handlers continuations code_length =
    add_all continuations (
      handler_leaders handlers code_length (instruction_leaders (first ∷ rest) (first.offset ∷ [])))

abbrev pub max_cfg_work : ℕ
max_cfg_work = 1_000_000

-- The first loop of `preflightCFGWork`: direct successors and the number of `ret` instructions.
unfoldable pub count_work : List Instruction → ℕ → ℕ → Result CfgError (ℕ × ℕ)
count_work [] direct rets = ok (direct, rets)
count_work (ins ∷ rest) direct rets = do
  some_direct ← or_err (checked_add_uint64 direct (length ins.targets)) budget_exceeded
  all_direct ←
      or_err (checked_add_uint64 some_direct (if ins.fallthrough then 1 else 0)) budget_exceeded
  count_work rest all_direct (if is_ret_instruction ins then rets + 1 else rets)

-- The closure `reserve`: the work used after the reservation.
unfoldable pub reserve : ℕ → ℕ → Result CfgError ℕ
reserve used amount =
    if ltb (max_cfg_work - used) amount then err budget_exceeded else ok (used + amount)

unfoldable pub preflight_cfg_work : List Instruction → ℕ → ℕ → ℕ → Result CfgError (Unit {0})
preflight_cfg_work instructions block_count handler_count continuation_count = do
  (direct, rets) ← count_work instructions 0 0
  exception_checks ← or_err (checked_mul_uint64 block_count handler_count) budget_exceeded
  ret_continuations ← or_err (checked_mul_uint64 rets continuation_count) budget_exceeded
  used ← reserve 0 direct
  used' ← reserve used exception_checks
  used'' ← reserve used' ret_continuations
  ok tt

abbrev pub index_or_zero : Option ℕ → ℕ
index_or_zero none = 0
index_or_zero (some i) = i

-- Where a block ends: at the next leader, or behind the last instruction.
unfoldable pub block_last : Boundaries → List ℕ → ℕ → ℕ
block_last m [] count = count
block_last m (next ∷ rest) count = index_or_zero (boundary m next)

-- The block between a leader and the next, with no successors yet.
abbrev pub cut_block : Boundaries → List Instruction → ℕ → List ℕ → BasicBlock
cut_block m instructions start rest =
    let first = index_or_zero (boundary m start) in
    let last = block_last m rest (length instructions) in
    record {
      start = start;
      instructions = take (last - first) (drop first instructions);
      successors = [];
    }

-- The loop that cuts the blocks.
unfoldable pub cut_blocks :
    Boundaries → List Instruction → List ℕ → Result CfgError (List BasicBlock)
cut_blocks m instructions [] = ok []
cut_blocks m instructions (start ∷ rest) = do
  let first = index_or_zero (boundary m start)
  let last = block_last m rest (length instructions)
  guard (ltb first last) (empty_block start)
  blocks ← cut_blocks m instructions rest
  ok (cut_block m instructions start rest ∷ blocks)

unfoldable pub last_instruction : Instruction → List Instruction → Instruction
last_instruction ins [] = ins
last_instruction ins (next ∷ rest) = last_instruction next rest

-- The successors through a fall-through.
unfoldable pub add_fallthrough : Instruction → Option ℕ → ℕ → List ℕ → Result CfgError (List ℕ)
add_fallthrough final none code_length set = ok set
add_fallthrough final (some next) code_length set =
    if final.fallthrough
    then (or_err (instruction_end final) (length_overflow final.offset) >>= λ end.
        if end == next
        then ok (add next set)
        else if ltb end code_length
        then err (missing_fallthrough end)
        else ok set)
    else ok set

unfoldable pub add_continuations : Instruction → List ℕ → List ℕ → Result CfgError (List ℕ)
add_continuations final continuations set =
    if is_ret_instruction final
    then (guard (not (length continuations == 0)) (ret_without_jsr final.offset)
        >> ok (add_all continuations set))
    else ok set

-- The handlers whose range meets the block.
unfoldable pub add_handlers : ℕ → ℕ → List ExceptionHandler → List ℕ → List ℕ
add_handlers start block_end [] set = set
add_handlers start block_end (h ∷ hs) set =
    add_handlers start block_end hs
      (if ltb start h.end && ltb h.start block_end then add h.handler set else set)

abbrev pub next_leader : List ℕ → Option ℕ
next_leader [] = none
next_leader (next ∷ rest) = some next

abbrev pub offset_or : Option ℕ → ℕ → ℕ
offset_or none d = d
offset_or (some o) d = o

unfoldable pub block_successors :
    Instruction → ℕ → Option ℕ → List ℕ → List ExceptionHandler → ℕ → Result CfgError (List ℕ)
unfolding add_fallthrough add_continuations
block_successors final start next continuations handlers code_length = do
  with_rets ← add_continuations final continuations (add_all final.targets [])
  with_next ← add_fallthrough final next code_length with_rets
  ok (sorted_offsets (add_handlers start (offset_or next (uint32 code_length)) handlers with_next))

-- `block.Instructions[len-1]`; a block has an instruction, `none` would be an index panic.
abbrev pub final_of : List Instruction → Option Instruction
final_of [] = none
final_of (ins ∷ rest) = some (last_instruction ins rest)

-- The loop that links the blocks.
unfoldable pub link_blocks :
    List ℕ
    → List ExceptionHandler
    → ℕ
    → List BasicBlock
    → List ℕ
    → Result CfgError (List BasicBlock)
unfolding block_successors
link_blocks continuations handlers code_length (block ∷ blocks) (start ∷ rest) =
    elim (final_of block.instructions) [
      | none ↦ err (empty_block start)
      | some final ↦ do
        successors ←
            block_successors final start (next_leader rest) continuations handlers code_length
        linked ← link_blocks continuations handlers code_length blocks rest
        ok (record block { successors = successors } ∷ linked)
    ]
link_blocks continuations handlers code_length _ _ = ok []

-- `buildCFG` behind the test that there are instructions.
unfoldable pub build_nonempty :
    Bytes
    → List ExceptionHandler
    → Instruction
    → List Instruction
    → Result CfgError ControlFlowGraph
unfolding check_final
build_nonempty code handlers first rest = do
  let instructions = first ∷ rest
  check_final (last_instruction first rest) (length code)
  let m = boundaries_from 0 instructions []
  check_targets m instructions
  continuation_set ← jsr_continuations m instructions []
  let continuations = sorted_offsets continuation_set
  validate_exception_handlers 0 handlers m (uint32 (length code))
  let order = sorted_offsets (leaders first rest handlers continuations (length code))
  preflight_cfg_work instructions (length order) (length handlers) (length continuations)
  cut ← cut_blocks m instructions order
  blocks ← link_blocks continuations handlers (length code) cut order
  ok (record { entry = 0; blocks = blocks; order = order })

unfoldable pub build_instructions :
    Bytes → List ExceptionHandler → List Instruction → Result CfgError ControlFlowGraph
build_instructions code handlers [] =
    guard (length handlers == 0) handlers_without_code
    >> ok (record { entry = 0; blocks = []; order = [] })
build_instructions code handlers (first ∷ rest) = build_nonempty code handlers first rest

unfoldable pub build_model : CodeModel → List Instruction → Result CfgError ControlFlowGraph
unfolding build_instructions
build_model model instructions = do
  guard (leb (length model.code) max_uint32) (code_too_long (length model.code))
  validate_instruction_stream model.code instructions
  build_instructions model.code model.handlers instructions

-- `buildCFG`; the first argument may be a nil pointer.
unfoldable pub build_cfg : Option CodeModel → List Instruction → Result CfgError ControlFlowGraph
build_cfg none instructions = err nil_code_model
build_cfg (some model) instructions = build_model model instructions
