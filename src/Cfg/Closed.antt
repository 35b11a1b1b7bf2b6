-- ===== src/Cfg/Closed.antt =====
-- cfg.go, `buildCFG`: every edge of the graph leads to the start of a block.
use shell_sight.Common.{
  ℕ, zero, suc, true, not, ◌&&◌, Option, none, some, List, [], ◌∷◌, length, take, drop, ◌≡◌, ◌⊎◌,
  arith, Bool-cases, Option-cases, inl, inr, ltb, ◌==◌, All,
}
use shell_sight.Common.Result.{ok, >>=-eq-ok, guard-eq-ok, ok_injective}
use shell_sight.Bytecode.Decode.{Instruction, uint32}
use shell_sight.Cfg.Offsets.{member, add, add_all, sorted_offsets}
use shell_sight.Cfg.Offsets.Laws.{Within, add-Within, add_all-Within, member-sorted_offsets}
use shell_sight.Cfg.Validate.{ExceptionHandler, Boundaries}
use shell_sight.Cfg.Build.{
  BasicBlock, add_handlers, last_instruction, add_continuations, add_fallthrough,
  is_ret_instruction, next_leader, block_successors, offset_or, link_blocks, final_of, cut_blocks,
  cut_block,
}
use shell_sight.Cfg.Leaders.{TargetsIn, HandlersIn}

add_handlers-Within :
    (start block_end : ℕ) (hs : List ExceptionHandler) (set b : List ℕ)
    → HandlersIn b hs
    → Within set b
    → Within (add_handlers start block_end hs set) b
unfolding add_handlers
add_handlers-Within start block_end [] set b a w = w
add_handlers-Within start block_end (h ∷ hs) set b a w =
    elim (Bool-cases (ltb start h.end && ltb h.start block_end)) [
      | inl meets ↦ rw meets (
          add_handlers-Within start block_end hs (add h.handler set) b a.1
            (add-Within h.handler set b a.0 w))
      | inr apart ↦ rw apart (add_handlers-Within start block_end hs set b a.1 w)
    ]

add_continuations-Within :
    (final : Instruction) (cs set b out : List ℕ)
    → Within cs b
    → Within set b
    → add_continuations final cs set ≡ ok out
    → Within out b
unfolding add_continuations
add_continuations-Within final cs set b out c w h = elim (Bool-cases (is_ret_instruction final)) [
  | inl is_ret ↦
      let (some_cs, h1) =
        guard-eq-ok (not (length cs == 0)) _ _ (rw (is_ret, add_continuations) at h) in
      let e : add_all cs set ≡ out = cc h1 in rw (← e) (add_all-Within cs set b c w)
  | inr other ↦ let e : set ≡ out = cc (rw (other, add_continuations) at h) in rw (← e) w
]

-- The next leader, where there is one, is in the set.
abbrev NextIn : List ℕ → Option ℕ → Type 0
NextIn b none = Unit {0}
NextIn b (some next) = member next b ≡ true

-- A fall-through adds the next leader or nothing.
abbrev FallsTo : Option ℕ → List ℕ → List ℕ → Type 0
FallsTo none set out = out ≡ set
FallsTo (some o) set out = (out ≡ set) ⊎ (out ≡ add o set)

add_fallthrough-FallsTo :
    (final : Instruction) (next : Option ℕ) (n : ℕ) (set out : List ℕ)
    → add_fallthrough final next n set ≡ ok out
    → FallsTo next set out
unfolding add_fallthrough
add_fallthrough-FallsTo final none n set out h = cc
add_fallthrough-FallsTo final (some o) n set out h = ground arith

FallsTo-Within :
    (next : Option ℕ) (set b out : List ℕ)
    → NextIn b next
    → Within set b
    → FallsTo next set out
    → Within out b
FallsTo-Within none set b out c w e = rw e w
FallsTo-Within (some o) set b out c w (inl e) = rw e w
FallsTo-Within (some o) set b out c w (inr e) = rw e (add-Within o set b c w)

absurd_member : (b : List ℕ) (y : ℕ) → member y [] ≡ true → member y b ≡ true
unfolding member
absurd_member b y m = cc

block_successors-Within :
    (final : Instruction) (start : ℕ) (next : Option ℕ) (cs : List ℕ) (hs : List ExceptionHandler)
    (n : ℕ) (b out : List ℕ)
    → Within final.targets b
    → Within cs b
    → NextIn b next
    → HandlersIn b hs
    → block_successors final start next cs hs n ≡ ok out
    → Within out b
unfolding block_successors
block_successors-Within final start next cs hs n b out t c x a h =
    let (s1, e1, h1) = >>=-eq-ok (add_continuations final cs (add_all final.targets [])) _ h in
    let (s2, e2, h2) = >>=-eq-ok (add_fallthrough final next n s1) _ h1 in
    let w0 = add_all-Within final.targets [] b t (absurd_member b) in
    let w1 = add_continuations-Within final cs _ b s1 c w0 e1 in
    let w2 = FallsTo-Within next s1 b s2 x w1 (add_fallthrough-FallsTo final next n s1 s2 e2) in
    let w3 = add_handlers-Within start (offset_or next (uint32 n)) hs s2 b a w2 in
    let e : sorted_offsets (add_handlers start (offset_or next (uint32 n)) hs s2) ≡ out = cc h2 in
    rw (← e) (λ y m. w3 y (rw member-sorted_offsets at m))

last_instruction-TargetsIn :
    (b : List ℕ) (ins : Instruction) (rest : List Instruction)
    → TargetsIn b (ins ∷ rest)
    → Within (last_instruction ins rest).targets b
unfolding last_instruction
last_instruction-TargetsIn b ins [] h = h.0
last_instruction-TargetsIn b ins (next ∷ rest) h = last_instruction-TargetsIn b next rest h.1

-- Every edge of a list of blocks leads to an offset of `b`.
abbrev pub EdgesIn : List ℕ → List BasicBlock → Type 0
EdgesIn b blocks = All (λ block. Within block.successors b) blocks

abbrev pub BlocksIn : List ℕ → List BasicBlock → Type 0
BlocksIn b blocks = All (λ block. TargetsIn b block.instructions) blocks

same_of_some : {x y : Instruction} → some x ≡ some y → x ≡ y
same_of_some e = cc

final_of-TargetsIn :
    (b : List ℕ) (xs : List Instruction) (final : Instruction)
    → TargetsIn b xs
    → final_of xs ≡ some final
    → Within final.targets b
final_of-TargetsIn b [] final h e = cc
final_of-TargetsIn b (x ∷ xs) final h e =
    rw (← same_of_some e) (last_instruction-TargetsIn b x xs h)

Within-tail : (x : ℕ) (xs : List ℕ) → Within xs (x ∷ xs)
unfolding member
Within-tail x xs y m = ground arith

NextIn-leader : (b rest : List ℕ) → Within rest b → NextIn b (next_leader rest)
unfolding member
NextIn-leader b [] w = tt
NextIn-leader b (next ∷ rest) w = w next (ground arith)

pub link_blocks-EdgesIn :
    (cs : List ℕ) (hs : List ExceptionHandler) (n : ℕ) (b : List ℕ) (blocks : List BasicBlock)
    (order : List ℕ) (out : List BasicBlock)
    → Within cs b
    → HandlersIn b hs
    → BlocksIn b blocks
    → Within order b
    → link_blocks cs hs n blocks order ≡ ok out
    → EdgesIn b out
unfolding link_blocks
link_blocks-EdgesIn cs hs n b [] order out c a t w h = let e : [] ≡ out = cc h in rw (← e) tt
link_blocks-EdgesIn cs hs n b (x ∷ xs) [] out c a t w h = let e : [] ≡ out = cc h in rw (← e) tt
link_blocks-EdgesIn cs hs n b (block ∷ blocks) (start ∷ rest) out c a t w h =
    elim (Option-cases (final_of block.instructions)) [
      | inl empty ↦ cc (rw (empty, link_blocks) at h)
      | inr (final, found) ↦
          let h0 = rw (found, link_blocks) at h in
          let (succ, e1, h1) =
            >>=-eq-ok (block_successors final start (next_leader rest) cs hs n) _ h0 in
          let (linked, e2, h2) = >>=-eq-ok (link_blocks cs hs n blocks rest) _ h1 in
          let e : record block { successors = succ } ∷ linked ≡ out = cc h2 in
          let rest_in : Within rest b = λ y m. w y (Within-tail start rest y m) in
          rw (← e) (
            block_successors-Within final start (next_leader rest) cs hs n b succ
                (final_of-TargetsIn b block.instructions final t.0 found) c
                (NextIn-leader b rest rest_in) a e1,
            link_blocks-EdgesIn cs hs n b blocks rest linked c a t.1 rest_in e2,
          )
    ]

take-TargetsIn :
    (b : List ℕ) (k : ℕ) (xs : List Instruction) → TargetsIn b xs → TargetsIn b (take k xs)
take-TargetsIn b zero xs h = tt
take-TargetsIn b (suc k) [] h = tt
take-TargetsIn b (suc k) (x ∷ xs) h = (h.0, take-TargetsIn b k xs h.1)

drop-TargetsIn :
    (b : List ℕ) (k : ℕ) (xs : List Instruction) → TargetsIn b xs → TargetsIn b (drop k xs)
drop-TargetsIn b zero xs h = h
drop-TargetsIn b (suc k) [] h = tt
drop-TargetsIn b (suc k) (x ∷ xs) h = drop-TargetsIn b k xs h.1

pub cut_blocks-BlocksIn :
    (m : Boundaries) (xs : List Instruction) (order b : List ℕ) (out : List BasicBlock)
    → TargetsIn b xs
    → cut_blocks m xs order ≡ ok out
    → BlocksIn b out
unfolding cut_blocks
cut_blocks-BlocksIn m xs [] b out t h = let e : [] ≡ out = cc h in rw (← e) tt
cut_blocks-BlocksIn m xs (start ∷ rest) b out t h =
    let (lt, h1) = guard-eq-ok _ _ _ h in
    let (blocks, e1, h2) = >>=-eq-ok (cut_blocks m xs rest) _ h1 in
    let e : cut_block m xs start rest ∷ blocks ≡ out = ok_injective h2 in
    rw (← e)
      (take-TargetsIn b _ _ (drop-TargetsIn b _ xs t), cut_blocks-BlocksIn m xs rest b blocks t e1)
