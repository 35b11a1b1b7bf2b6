-- ===== src/Bytecode/Shapes.antt =====
-- bytecode.go: the instructions as the Java virtual machine lays them out, apart from the decoder.
use shell_sight.Common.{
  ℕ, zero, suc, ◌+◌, ◌-◌, pred, ◌*◌, ◌%◌, ◌≤◌, ◌<◌, ◌⊎◌, ◌↔◌, true, false, List, [], ◌∷◌, length,
  get_or, take, drop, ◌≡◌, ◌≢◌,
}
use shell_sight.Common.Int.{pos, ◌≤ℤ◌, ◌<ℤ◌, pos_part, neg_part}
use shell_sight.Bytecode.Words.{Bytes, to_int32}
use shell_sight.Bytecode.Decode.{Instruction}
use shell_sight.Bytecode.Widths.{width_of}
use shell_sight.Bytecode.Jumps.{Jumps, short_at, word_at}

-- if<cond>, if_icmp<cond>, if_acmp<cond>, goto, jsr, ifnull and ifnonnull.
abbrev pub IsShortBranch : ℕ → Type 0
IsShortBranch op = (0x99 ≤ op) × (op ≤ 0xa8) ⊎ ((op ≡ 0xc6) ⊎ (op ≡ 0xc7))

-- goto_w and jsr_w.
abbrev pub IsLongBranch : ℕ → Type 0
IsLongBranch op = (op ≡ 0xc8) ⊎ (op ≡ 0xc9)

-- goto, jsr, ret, the switches, the returns, athrow, goto_w and jsr_w.
abbrev pub Leaves : ℕ → Type 0
Leaves op = (0xa7 ≤ op) × (op ≤ 0xb1) ⊎ ((op ≡ 0xbf) ⊎ (op ≡ 0xc8) ⊎ (op ≡ 0xc9))

-- The targets of an instruction of fixed width: that of its branch, or none.
abbrev pub HasTargets : ℕ → ℕ → Bytes → List ℕ → Type 0
HasTargets op offset operands targets =
    IsShortBranch op
      × ((target : ℕ) × (targets ≡ target ∷ []) × Jumps 32_768 offset (short_at operands 0) target)
    ⊎ (IsLongBranch op
          × ((target : ℕ) × (targets ≡ target ∷ [])
              × Jumps 2_147_483_648 offset (word_at operands 0) target)
        ⊎ (IsShortBranch op → ⊥) × (IsLongBranch op → ⊥) × (targets ≡ []))

-- The operands that the format fixes: the count and the zero of invokeinterface, the zeros of
-- invokedynamic, the type code of newarray and the dimensions of multianewarray.
abbrev pub AreLegal : ℕ → Bytes → Type 0
AreLegal op operands =
    (op ≡ 0xb9 → (get_or operands 2 0 ≢ 0) × (get_or operands 3 0 ≡ 0))
    × (op ≡ 0xba → (get_or operands 2 0 ≡ 0) × (get_or operands 3 0 ≡ 0))
    × (op ≡ 0xbc → (4 ≤ get_or operands 0 0) × (get_or operands 0 0 ≤ 11))
    × (op ≡ 0xc5 → get_or operands 2 0 ≢ 0)

abbrev pub IsFixed : Bytes → ℕ → Instruction → ℕ → Type 0
IsFixed code offset ins next =
    (width : ℕ) × (width_of ins.opcode ≡ pos width)
    × (next ≡ offset + 1 + width)
    × HasTargets ins.opcode offset ins.operands ins.targets
    × AreLegal ins.opcode ins.operands
    × ((ins.fallthrough ≡ true) ↔ (Leaves ins.opcode → ⊥))

-- The loads and stores of a local, and ret.
abbrev pub IsWidened : ℕ → Type 0
IsWidened op = (0x15 ≤ op) × (op ≤ 0x19) ⊎ ((0x36 ≤ op) × (op ≤ 0x3a) ⊎ (op ≡ 0xa9))

-- wide before iinc takes five operand bytes, before another instruction three; only ret leaves.
abbrev pub IsWide : Bytes → ℕ → Instruction → ℕ → Type 0
IsWide code offset ins next =
    (ins.opcode ≡ 0xc4)
    × ((get_or code (offset + 1) 0 ≡ 0x84) × (next ≡ offset + 6)
        ⊎ IsWidened (get_or code (offset + 1) 0) × (next ≡ offset + 4))
    × (ins.targets ≡ [])
    × ((ins.fallthrough ≡ true) ↔ (get_or code (offset + 1) 0 ≢ 0xa9))

-- One target for each word from position `p` on.
abbrev pub TableTargets : Bytes → ℕ → ℕ → List ℕ → Type 0
TableTargets code offset p [] = Unit {0}
TableTargets code offset p (target ∷ targets) =
    Jumps 2_147_483_648 offset (word_at code p) target × TableTargets code offset (p + 4) targets

-- One target for each pair from position `p` on, in its second word.
abbrev pub PairTargets : Bytes → ℕ → ℕ → List ℕ → Type 0
PairTargets code offset p [] = Unit {0}
PairTargets code offset p (target ∷ targets) =
    Jumps 2_147_483_648 offset (word_at code (p + 4)) target
    × PairTargets code offset (p + 8) targets

-- The keys of the `n` pairs behind the one at position `p` grow, starting from its key.
abbrev pub AreGrowing : ℕ → Bytes → ℕ → Type 0
AreGrowing zero code p = Unit {0}
AreGrowing (suc n) code p =
    to_int32 (word_at code p) <ℤ to_int32 (word_at code (p + 8)) × AreGrowing n code (p + 8)

-- low, high and one target for each number from low to high.
abbrev pub IsTable : Bytes → ℕ → ℕ → List ℕ → ℕ → Type 0
IsTable code offset body targets next =
    let low = to_int32 (word_at code (body + 4)) in
    let high = to_int32 (word_at code (body + 8)) in
    (low ≤ℤ high)
    × (length targets + pos_part low + neg_part high ≡ pos_part high + neg_part low + 1)
    × (next ≡ body + 12 + length targets * 4)
    × TableTargets code offset (body + 12) targets

-- The number of pairs, and pairs of a key and a target with growing keys.
abbrev pub IsLookup : Bytes → ℕ → ℕ → List ℕ → ℕ → Type 0
IsLookup code offset body targets next =
    (to_int32 (word_at code (body + 4)) ≡ pos (length targets))
    × (next ≡ body + 8 + length targets * 8)
    × AreGrowing (pred (length targets)) code (body + 8)
    × PairTargets code offset (body + 8) targets

-- The body of a switch begins at the next multiple of four, behind zeros, with the default.
abbrev pub IsSwitch : Bytes → ℕ → Instruction → ℕ → Type 0
IsSwitch code offset ins next =
    (body default : ℕ) × (targets : List ℕ) × (offset + 1 ≤ body)
    × (body ≤ offset + 4)
    × (body % 4 ≡ 0)
    × ((p : ℕ) → offset + 1 ≤ p → p < body → get_or code p 0 ≡ 0)
    × Jumps 2_147_483_648 offset (word_at code body) default
    × (ins.targets ≡ default ∷ targets)
    × (ins.fallthrough ≡ false)
    × ((ins.opcode ≡ 0xaa) × IsTable code offset body targets next
        ⊎ (ins.opcode ≡ 0xab) × IsLookup code offset body targets next)

-- `ins` is the instruction at `offset` of the code, and the next one stands at `next`.
pub record IsInstruction (code : Bytes) (offset : ℕ) (ins : Instruction) (next : ℕ) : Type 0 where
  pub at_offset : ins.offset ≡ offset
  pub same_opcode : ins.opcode ≡ get_or code offset 0
  pub within : next ≤ length code
  pub same_operands : ins.operands ≡ take (next - (offset + 1)) (drop (offset + 1) code)
  pub shape :
      IsFixed code offset ins next ⊎ (IsWide code offset ins next ⊎ IsSwitch code offset ins next)
