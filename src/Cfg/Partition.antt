-- ===== src/Cfg/Partition.antt =====
-- cfg.go, `buildCFG`: the blocks cut the instruction stream into consecutive pieces.
use shell_sight.Common.{
  ℕ, suc, ◌-◌, ◌≤◌, ◌<◌, true, false, some, List, [], ◌∷◌, ◌++◌, length, take, drop, ◌≡◌, refl, sym,
  ap, ◌∙◌, arith, Option-cases, inl, inr, append-nil, drop-drop, drop-beyond, take-append-drop, All,
  ltb→lt,
}
use shell_sight.Common.Result.{ok, >>=-eq-ok, guard-eq-ok, ok_injective}
use shell_sight.Bytecode.Words.{Bytes, max_uint32}
use shell_sight.Bytecode.Decode.{Instruction}
use shell_sight.Bytecode.Fits.{decode_one-Fits}
use shell_sight.Bytecode.Stream.{Stream, step}
use shell_sight.Cfg.Offsets.{member}
use shell_sight.Cfg.Offsets.Laws.{IsIncreasing}
use shell_sight.Cfg.Validate.{ExceptionHandler, Boundaries, boundary, boundaries_from}
use shell_sight.Cfg.Build.{
  BasicBlock, cut_block, cut_blocks, link_blocks, final_of, next_leader, block_successors,
  index_or_zero, block_last,
}

-- The instructions of the blocks, one block behind the other.
abbrev pub all_instructions : List BasicBlock → List Instruction
all_instructions [] = []
all_instructions (block ∷ blocks) = block.instructions ++ all_instructions blocks

abbrev pub starts : List BasicBlock → List ℕ
starts [] = []
starts (block ∷ blocks) = block.start ∷ starts blocks

take-drop_to_end :
    (f : ℕ) (xs : List Instruction) → f < length xs → take (length xs - f) (drop f xs) ≡ drop f xs
take-drop_to_end f xs h =
    sym (append-nil _)
    ∙ rw
        (
          ← drop-beyond (length xs) xs (omega arith),
          ← drop-drop f (length xs - f) (length xs) xs (omega arith),
        )
        (take-append-drop (length xs - f) (drop f xs))

pub cut_blocks-all :
    (m : Boundaries) (xs : List Instruction) (start : ℕ) (rest : List ℕ) (out : List BasicBlock)
    → cut_blocks m xs (start ∷ rest) ≡ ok out
    → (all_instructions out ≡ drop (index_or_zero (boundary m start)) xs)
      × (starts out ≡ start ∷ rest)
unfolding cut_blocks block_last
cut_blocks-all m xs start [] out h =
    let (lt, h1) = guard-eq-ok _ _ _ h in
    let e : cut_block m xs start [] ∷ [] ≡ out = ok_injective h1 in
    rw (← e)
      (append-nil _ ∙ take-drop_to_end (index_or_zero (boundary m start)) xs (ltb→lt _ _ lt), refl)
cut_blocks-all m xs start (next ∷ rest) out h =
    let f = index_or_zero (boundary m start) in
    let l = index_or_zero (boundary m next) in
    let (lt, h1) = guard-eq-ok _ _ _ h in
    let (blocks, e1, h2) = >>=-eq-ok (cut_blocks m xs (next ∷ rest)) _ h1 in
    let e : cut_block m xs start (next ∷ rest) ∷ blocks ≡ out = ok_injective h2 in
    let (later, names) = cut_blocks-all m xs next rest blocks e1 in
    let before : f < l = ltb→lt _ _ lt in
    rw (← e) (
      rw (later, ← drop-drop f (l - f) l xs (omega arith)) (take-append-drop (l - f) (drop f xs)),
      ap (◌∷◌ start) names,
    )

pub link_blocks-all :
    (cs : List ℕ) (hs : List ExceptionHandler) (n : ℕ) (blocks : List BasicBlock) (order : List ℕ)
    (out : List BasicBlock)
    → starts blocks ≡ order
    → link_blocks cs hs n blocks order ≡ ok out
    → (all_instructions out ≡ all_instructions blocks) × (starts out ≡ order)
unfolding link_blocks
link_blocks-all cs hs n [] order out s h = let e : [] ≡ out = cc h in rw (← e) (refl, s)
link_blocks-all cs hs n (block ∷ blocks) [] out s h = cc
link_blocks-all cs hs n (block ∷ blocks) (start ∷ rest) out s h =
    elim (Option-cases (final_of block.instructions)) [
      | inl empty ↦ cc (rw (empty, link_blocks) at h)
      | inr (final, found) ↦
          let h0 = rw (found, link_blocks) at h in
          let (succ, e1, h1) =
            >>=-eq-ok (block_successors final start (next_leader rest) cs hs n) _ h0 in
          let (linked, e2, h2) = >>=-eq-ok (link_blocks cs hs n blocks rest) _ h1 in
          let e : record block { successors = succ } ∷ linked ≡ out = ok_injective h2 in
          let (later, names) = link_blocks-all cs hs n blocks rest linked (cc s) e2 in
          rw (← e) (rw later refl, cc (s, names))
    ]

above-not_zero : (x : ℕ) (xs : List ℕ) → All (λ y. x < y) xs → member 0 xs ≡ false
unfolding member
above-not_zero x [] a = refl
above-not_zero x (y ∷ ys) a = ground (arith, a.0, above-not_zero x ys a.1)

-- An increasing list of offsets that holds 0 begins with it.
pub IsIncreasing-zero :
    (order : List ℕ)
    → IsIncreasing order
    → member 0 order ≡ true
    → (rest : List ℕ) × (order ≡ 0 ∷ rest)
unfolding member
IsIncreasing-zero [] i m = cc
IsIncreasing-zero (x ∷ xs) i m =
    let zero_first : x ≡ 0 = ground (arith, above-not_zero x xs i.0) in (xs, rw zero_first)

boundary-later :
    (code : Bytes) (index offset : ℕ) (xs : List Instruction) (m : Boundaries)
    → length code ≤ max_uint32
    → 0 < offset
    → Stream code offset xs
    → boundary (boundaries_from index xs m) 0 ≡ boundary m 0
unfolding boundaries_from boundary
boundary-later code index offset [] m short after s = refl
boundary-later code index offset (x ∷ xs) m short after (step {next} h d s) =
    let f = decode_one-Fits code offset d in
    boundary-later code (suc index) next xs ((x.offset, index) ∷ m) short (omega arith) s
    ∙ ground (arith, f.at_offset)

-- The first instruction is the one at offset 0.
pub boundary-first :
    (code : Bytes) (first : Instruction) (rest : List Instruction)
    → length code ≤ max_uint32
    → Stream code 0 (first ∷ rest)
    → (boundary (boundaries_from 0 (first ∷ rest) []) 0 ≡ some 0) × (first.offset ≡ 0)
unfolding boundaries_from boundary
boundary-first code first rest short (step {next} h d s) =
    let f = decode_one-Fits code 0 d in
    let at_zero : first.offset ≡ 0 = omega (arith, f.at_offset) in
    (
      boundary-later code 1 next rest ((first.offset, 0) ∷ []) short (omega arith) s
          ∙ unfold boundary in ground (arith, at_zero),
      at_zero,
    )
