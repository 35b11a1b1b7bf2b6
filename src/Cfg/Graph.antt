-- ===== src/Cfg/Graph.antt =====
-- cfg.go, `buildCFG`: what a graph that it returns is.
use shell_sight.Common.{ℕ, ◌≤◌, List, [], ◌∷◌, length, ◌≡◌, refl, sym, ◌∙◌, some, leb→le, leb, ◌==◌}
use shell_sight.Common.Result.{ok, >>=-eq-ok, guard-eq-ok, ok_injective}
use shell_sight.Bytecode.Words.{Bytes, max_uint32}
use shell_sight.Bytecode.Decode.{Instruction, uint32}
use shell_sight.Bytecode.Stream.{Stream}
use shell_sight.Cfg.Offsets.{sorted_offsets}
use shell_sight.Cfg.Offsets.Laws.{
  IsIncreasing, Within, member-sorted_offsets, sorted_offsets-IsIncreasing,
}
use shell_sight.Cfg.Validate.{
  ExceptionHandler, CodeModel, boundaries_from, validate_instruction_stream,
  validate_exception_handlers,
}
use shell_sight.Cfg.Accepts.{validate_instruction_stream-iff_Stream}
use shell_sight.Cfg.Leaders.{leaders-Leads, leaders-HasNoRepeat}
use shell_sight.Cfg.Closed.{EdgesIn, link_blocks-EdgesIn, cut_blocks-BlocksIn}
use shell_sight.Cfg.Partition.{
  all_instructions, starts, cut_blocks-all, link_blocks-all, IsIncreasing-zero, boundary-first,
}
use shell_sight.Cfg.Build.{
  BasicBlock, ControlFlowGraph, leaders, check_final, check_targets, jsr_continuations,
  preflight_cfg_work, cut_blocks, link_blocks, last_instruction, build_nonempty, build_instructions,
  build_model, build_cfg,
}

-- The blocks, one behind the other, are the instructions, none lost and none twice; they start at the
-- offsets of `order`, which increase strictly; and every edge leads to the start of a block.
pub record IsGraphOf (instructions : List Instruction) (g : ControlFlowGraph) : Type 0 where
  pub whole : all_instructions g.blocks ≡ instructions
  pub named : starts g.blocks ≡ g.order
  pub increasing : IsIncreasing g.order
  pub closed : EdgesIn g.order g.blocks

EdgesIn-mono :
    (b c : List ℕ) → Within b c → (blocks : List BasicBlock) → EdgesIn b blocks → EdgesIn c blocks
EdgesIn-mono b c w [] h = tt
EdgesIn-mono b c w (x ∷ xs) h = (λ y m. w y (h.0 y m), EdgesIn-mono b c w xs h.1)

module _ (code : Bytes) (handlers : List ExceptionHandler) (first : Instruction)
    (rest : List Instruction) (g : ControlFlowGraph) (short : length code ≤ max_uint32)
    (stream : Stream code 0 (first ∷ rest)) where
  -- The last two loops, on the order that the leaders give.
  linked-IsGraphOf :
      (cs order tail : List ℕ) (cut blocks : List BasicBlock) (n : ℕ)
      → order ≡ sorted_offsets (leaders first rest handlers cs n)
      → order ≡ 0 ∷ tail
      → cut_blocks (boundaries_from 0 (first ∷ rest) []) (first ∷ rest) order ≡ ok cut
      → link_blocks cs handlers n cut order ≡ ok blocks
      → IsGraphOf (first ∷ rest) (record { entry = 0; blocks = blocks; order = order })
  linked-IsGraphOf cs order tail cut blocks n is_sorted is_cons c l =
      let set = leaders first rest handlers cs n in
      let leads = leaders-Leads first rest handlers cs n in
      let order_set : Within order set = λ y m. rw member-sorted_offsets at (rw is_sorted at m) in
      let set_order : Within set order = λ y m. rw is_sorted (rw member-sorted_offsets m) in
      let (all_cut, cut_starts) =
        cut_blocks-all (boundaries_from 0 (first ∷ rest) []) (first ∷ rest) 0 tail cut
          (rw is_cons at c) in
      let (all_linked, names) =
        link_blocks-all cs handlers n cut order blocks (cut_starts ∙ sym is_cons) l in
      record {
        whole = all_linked ∙ all_cut ∙ rw (boundary-first code first rest short stream).0;
        named = names;
        increasing =
            rw is_sorted
              (sorted_offsets-IsIncreasing set (leaders-HasNoRepeat first rest handlers cs n));
        closed = EdgesIn-mono set order set_order blocks (
            link_blocks-EdgesIn cs handlers n set cut order blocks leads.continuation_offsets
              leads.handler_offsets
              (cut_blocks-BlocksIn (boundaries_from 0 (first ∷ rest) []) (first ∷ rest) order set
                cut leads.targets c)
              order_set l);
      }

  build_nonempty-IsGraphOf :
      build_nonempty code handlers first rest ≡ ok g → IsGraphOf (first ∷ rest) g
  unfolding build_nonempty
  build_nonempty-IsGraphOf h =
      let m = boundaries_from 0 (first ∷ rest) [] in
      let n = length code in
      let (u1, e1, h1) = >>=-eq-ok (check_final (last_instruction first rest) n) _ h in
      let (u2, e2, h2) = >>=-eq-ok (check_targets m (first ∷ rest)) _ h1 in
      let (found, e3, h3) = >>=-eq-ok (jsr_continuations m (first ∷ rest) []) _ h2 in
      let cs = sorted_offsets found in
      let (u4, e4, h4) = >>=-eq-ok (validate_exception_handlers 0 handlers m (uint32 n)) _ h3 in
      let set = leaders first rest handlers cs n in
      let order = sorted_offsets set in
      let (u5, e5, h5) =
        >>=-eq-ok (preflight_cfg_work (first ∷ rest) (length order) (length handlers) (length cs)) _
          h4 in
      let (cut, e6, h6) = >>=-eq-ok (cut_blocks m (first ∷ rest) order) _ h5 in
      let (blocks, e7, h7) = >>=-eq-ok (link_blocks cs handlers n cut order) _ h6 in
      let increasing =
        sorted_offsets-IsIncreasing set (leaders-HasNoRepeat first rest handlers cs n) in
      let leads = leaders-Leads first rest handlers cs n in
      let at_zero = (boundary-first code first rest short stream).1 in
      let (tail, is_cons) =
        IsIncreasing-zero order increasing
          (rw member-sorted_offsets (rw (← at_zero) leads.first_offset)) in
      rw (← ok_injective h7) (linked-IsGraphOf cs order tail cut blocks n refl is_cons e6 e7)

build_instructions-IsGraphOf :
    (code : Bytes) (handlers : List ExceptionHandler) (instructions : List Instruction)
    (g : ControlFlowGraph)
    → length code ≤ max_uint32
    → Stream code 0 instructions
    → build_instructions code handlers instructions ≡ ok g
    → IsGraphOf instructions g
unfolding build_instructions
build_instructions-IsGraphOf code handlers [] g short stream h =
    let (no_handlers, h1) = guard-eq-ok (length handlers == 0) _ _ h in
    rw (← ok_injective h1) (record { whole = refl; named = refl; increasing = tt; closed = tt })
build_instructions-IsGraphOf code handlers (first ∷ rest) g short stream h =
    build_nonempty-IsGraphOf code handlers first rest g short stream h

-- Where `buildCFG` succeeds, the given instructions are the stream of instructions of the code, and the
-- graph cuts them into blocks.
pub build_cfg-IsGraphOf :
    (model : CodeModel) (instructions : List Instruction) (g : ControlFlowGraph)
    → build_cfg (some model) instructions ≡ ok g
    → Stream model.code 0 instructions × IsGraphOf instructions g
unfolding build_cfg build_model
build_cfg-IsGraphOf model instructions g h =
    let (le, h1) = guard-eq-ok (leb (length model.code) max_uint32) _ _ h in
    let short = leb→le _ _ le in
    let (u, valid, h2) = >>=-eq-ok (validate_instruction_stream model.code instructions) _ h1 in
    let stream = (validate_instruction_stream-iff_Stream model.code instructions short).0 valid in
    (stream, build_instructions-IsGraphOf model.code model.handlers instructions g short stream h2)
