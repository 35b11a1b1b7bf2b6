-- ===== src/Bytecode/Layouts.antt =====
-- bytecode.go: each decoder against the layout of its instructions.
use shell_sight.Common.{
  ℕ, suc, ◌+◌, ◌≤◌, ◌<◌, Bool-cases, Bool, true, false, not, ◌||◌, inl, inr, if◌then◌else◌, List,
  [], ◌∷◌, length, get_or, ◌≡◌, ◌⊎◌, ◌↔◌, refl, sym, ap, ◌∙◌, arith, ltb, leb, ◌==◌,
}
use shell_sight.Common.Int.{pos, negsuc}
use shell_sight.Common.Result.{ok, >>=-eq-ok}
use shell_sight.Bytecode.Words.{Bytes, checked_add_uint64, max_uint32, clone_byte_range}
use shell_sight.Bytecode.Opcodes.{opcode_falls_through, is_legal_wide_index_opcode}
use shell_sight.Bytecode.Decode.{
  Instruction, uint32, fixed_targets, valid_fixed_operands, decode_fixed_instruction,
  decode_wide_instruction, decode_switch_instruction, switch_header, switch_targets,
}
use shell_sight.Bytecode.Widths.{width_of}
use shell_sight.Bytecode.Shapes.{
  Leaves, HasTargets, AreLegal, IsFixed, IsWide, IsSwitch, IsTable, IsLookup,
}
use shell_sight.Bytecode.Targets.{IsWidened-iff, falls_iff, legal_iff, fixed_targets_iff}
use shell_sight.Bytecode.Switches.Fronts.{add_some}
use shell_sight.Bytecode.Switches.{
  table_switch_sound, table_switch_complete, lookup_switch_sound, lookup_switch_complete,
  switch_header_sound, switch_header_complete,
}

Bool_ext : (a b : Bool) {P : Type 0} → (a ≡ true) ↔ P → (b ≡ true) ↔ P → a ≡ b
Bool_ext a b h k = ground arith

instruction_ext :
    (i j : Instruction)
    → i.offset ≡ j.offset
    → i.opcode ≡ j.opcode
    → i.operands ≡ j.operands
    → i.targets ≡ j.targets
    → i.fallthrough ≡ j.fallthrough
    → i ≡ j
instruction_ext i j a b c d e = cc

fixed_front :
    (code : Bytes) (offset op width : ℕ) {ins : Instruction} {next : ℕ}
    → decode_fixed_instruction code offset op width ≡ ok (ins, next)
    → (next ≡ offset + 1 + width)
      × (fixed_targets op offset ins.operands ≡ ok ins.targets)
      × (valid_fixed_operands op ins.operands ≡ true)
      × (ins.fallthrough ≡ opcode_falls_through op)
unfolding decode_fixed_instruction checked_add_uint64
fixed_front code offset op width e = ground arith

wide_front :
    (code : Bytes) (offset : ℕ) {ins : Instruction} {next : ℕ}
    → decode_wide_instruction code offset ≡ ok (ins, next)
    → (ins.opcode ≡ 0xc4)
      × ((get_or code (offset + 1) 0 ≡ 0x84) × (next ≡ offset + 6)
          ⊎ (is_legal_wide_index_opcode (get_or code (offset + 1) 0) ≡ true) × (next ≡ offset + 4))
      × (ins.targets ≡ [])
      × (ins.fallthrough ≡ not (get_or code (offset + 1) 0 == 0xa9))
unfolding decode_wide_instruction checked_add_uint64
wide_front code offset e = ground arith

pub variable_width : (op : ℕ) → width_of op ≡ negsuc 1 → (op ≡ 0xc4) ⊎ ((op ≡ 0xaa) ⊎ (op ≡ 0xab))
unfolding width_of
variable_width op e = ground arith

pub no_other_width : (op n : ℕ) → width_of op ≡ negsuc (suc (suc n)) → ⊥
unfolding width_of
no_other_width op n e = ground arith

module _ (code : Bytes) (offset : ℕ) (short : length code ≤ max_uint32)
    (inside : offset < length code) where
  offset_kept : uint32 offset ≡ offset
  offset_kept = omega arith

  pub IsFixed-sound :
      (width : ℕ) {ins : Instruction} {next : ℕ}
      → ins.opcode ≡ get_or code offset 0
      → width_of (get_or code offset 0) ≡ pos width
      → decode_fixed_instruction code offset (get_or code offset 0) width ≡ ok (ins, next)
      → IsFixed code offset ins next
  IsFixed-sound width {ins} {next} same w e =
      let op = get_or code offset 0 in
      let (behind, targets, legal, falls) = fixed_front code offset op width e in
      rw same (
        width,
        w,
        behind,
        (fixed_targets_iff op offset ins.operands ins.targets (omega arith)).0 targets,
        (legal_iff op ins.operands).0 legal,
        rw falls (falls_iff op),
      )

  pub fixed_complete :
      (width : ℕ) {ins : Instruction} {next : ℕ}
      → ins.offset ≡ offset
      → next ≤ length code
      → ins.operands ≡ clone_byte_range code (offset + 1) next
      → next ≡ offset + 1 + width
      → HasTargets ins.opcode offset ins.operands ins.targets
      → AreLegal ins.opcode ins.operands
      → (ins.fallthrough ≡ true) ↔ (Leaves ins.opcode → ⊥)
      → decode_fixed_instruction code offset ins.opcode width ≡ ok (ins, next)
  unfolding decode_fixed_instruction
  fixed_complete width {ins} {next} at within slice behind targets legal falls =
      let fits : leb next (length code) ≡ true = ground (arith, within) in
      let falls_is =
        Bool_ext (opcode_falls_through ins.opcode) ins.fallthrough (falls_iff ins.opcode) falls in
      rw
        (
          add_some offset 1 (omega arith),
          add_some (offset + 1) width (omega arith),
          ← behind,
          fits,
          ← slice,
          (fixed_targets_iff ins.opcode offset ins.operands ins.targets (omega arith)).1 targets,
          (legal_iff ins.opcode ins.operands).1 legal,
        )
        (ap (λ i. ok (i, next))
          (instruction_ext _ ins (offset_kept ∙ sym at) refl refl refl falls_is))

  pub IsWide-sound :
      {ins : Instruction} {next : ℕ}
      → decode_wide_instruction code offset ≡ ok (ins, next)
      → IsWide code offset ins next
  IsWide-sound {ins} {next} e =
      let (op, forms, targets, falls) = wide_front code offset e in
      let sub = get_or code (offset + 1) 0 in
      (
        op,
        elim forms [
          | inl iinc ↦ inl iinc
          | inr (legal, behind) ↦ inr ((IsWidened-iff sub).0 legal, behind)
        ],
        targets,
        rw falls (ground arith),
      )

  pub wide_complete :
      {ins : Instruction} {next : ℕ}
      → ins.offset ≡ offset
      → next ≤ length code
      → ins.operands ≡ clone_byte_range code (offset + 1) next
      → IsWide code offset ins next
      → decode_wide_instruction code offset ≡ ok (ins, next)
  unfolding decode_wide_instruction
  wide_complete {ins} {next} at within slice (op, forms, targets, falls) =
      let sub = get_or code (offset + 1) 0 in
      let there : ltb (offset + 1) (length code) ≡ true = elim forms [
        | inl (iinc, behind) ↦ ground (arith, behind, within)
        | inr (legal, behind) ↦ ground (arith, behind, within)
      ] in
      let fits : leb next (length code) ≡ true = ground (arith, within) in
      let taken : (sub == 0x84 || is_legal_wide_index_opcode sub) ≡ true = elim forms [
        | inl (iinc, behind) ↦ ground (arith, iinc)
        | inr (legal, behind) ↦ let known = (IsWidened-iff sub).1 legal in ground (arith, known)
      ] in
      let behind : offset + 1 + (if sub == 0x84 then 5 else 3) ≡ next = elim forms [
        | inl (iinc, far) ↦ ground (arith, iinc, far)
        | inr (legal, near) ↦ ground (arith, legal, near)
      ] in
      let falls_is : not (sub == 0xa9) ≡ ins.fallthrough = ground (arith, falls) in
      rw
        (
          add_some offset 1 (omega arith),
          there,
          taken,
          add_some (offset + 1) (if sub == 0x84 then 5 else 3) (ground (arith, behind, within)),
          behind,
          fits,
          ← slice,
        )
        (ap (λ i. ok (i, next))
          (instruction_ext _ ins (offset_kept ∙ sym at) (sym op) refl (sym targets) falls_is))

  switch_body_sound :
      (op body d : ℕ) {ts : List ℕ} {next : ℕ}
      → body ≤ length code
      → switch_targets op code offset body d ≡ ok (ts, next)
      → (targets : List ℕ) × (ts ≡ d ∷ targets)
        × ((op ≡ 0xaa) × IsTable code offset body targets next
            ⊎ (op ≡ 0xab) × IsLookup code offset body targets next)
  unfolding switch_targets
  switch_body_sound op body d small e = elim (Bool-cases (op == 0xaa)) [
    | inl table ↦
        let (targets, ts, within, is) =
          table_switch_sound code offset short (omega arith) body d small (rw table at e) in
        (targets, ts, inl (ground (arith, table), is))
    | inr other ↦ elim (Bool-cases (op == 0xab)) [
      | inl lookup ↦
          let (targets, ts, within, is) =
            lookup_switch_sound code offset short (omega arith) body d (rw (other, lookup) at e) in
          (targets, ts, inr (ground (arith, lookup), is))
      | inr neither ↦ cc (rw (other, neither) at e)
    ]
  ]

  IsSwitch-made :
      (body d : ℕ) (ins : Instruction) (next : ℕ) {op behind : ℕ} {ts : List ℕ}
      → op ≡ ins.opcode
      → ts ≡ ins.targets
      → behind ≡ next
      → ins.fallthrough ≡ false
      → switch_header code offset ≡ ok (body, d)
      → switch_targets op code offset body d ≡ ok (ts, behind)
      → IsSwitch code offset ins next
  IsSwitch-made body d ins next op_is targets_are next_is stays he re =
      let (fits, (after, near, aligned, zeros, jump)) =
        switch_header_sound code offset short (omega arith) body d he in
      let (targets, ts, forms) =
        switch_body_sound ins.opcode body d {next = next} (omega (arith, fits))
          (rw (op_is, next_is) at re) in
      (body, d, targets, after, near, aligned, zeros, jump, sym targets_are ∙ ts, stays, forms)

  pub IsSwitch-sound :
      (op : ℕ) {ins : Instruction} {next : ℕ}
      → decode_switch_instruction code offset op ≡ ok (ins, next)
      → IsSwitch code offset ins next
  unfolding decode_switch_instruction
  IsSwitch-sound op {ins} {next} e =
      let (header, he, e1) = >>=-eq-ok (switch_header code offset) _ e in
      let (r, re, e2) = >>=-eq-ok (switch_targets op code offset header.0 header.1) _ e1 in
      IsSwitch-made header.0 header.1 ins next {op = op} {behind = r.1} {ts = r.0} (cc e2) (cc e2)
        (cc e2) (cc e2) he re

  pub switch_complete :
      {ins : Instruction} {next : ℕ}
      → ins.offset ≡ offset
      → next ≤ length code
      → ins.operands ≡ clone_byte_range code (offset + 1) next
      → IsSwitch code offset ins next
      → decode_switch_instruction code offset ins.opcode ≡ ok (ins, next)
  unfolding decode_switch_instruction switch_targets
  switch_complete {ins} {next} at within slice
        (body, default, targets, after, near, aligned, zeros, jump, are, stays, forms) =
      let header =
        switch_header_complete code offset short (omega arith) body default
          (elim forms [
            | inl (op, (ordered, size, behind, jumps)) ↦ omega (arith, within, behind)
            | inr (op, (count, behind, growing, jumps)) ↦ omega (arith, within, behind)
          ])
          (after, near, aligned, zeros, jump) in
      let found : switch_targets ins.opcode code offset body default
          ≡ ok (default ∷ targets, next) =
        elim forms [
          | inl (op, is) ↦
              rw op (
                table_switch_complete code offset short (omega arith) body default targets within
                  is)
          | inr (op, is) ↦ rw op (
              lookup_switch_complete code offset short (omega arith) body default targets within is)
        ] in
      rw (header, found, ← slice)
        (ap (λ i. ok (i, next))
          (instruction_ext _ ins (offset_kept ∙ sym at) refl refl (sym are) (sym stays)))
