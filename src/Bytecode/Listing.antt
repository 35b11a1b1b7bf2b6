-- ===== src/Bytecode/Listing.antt =====
-- bytecode.go: the whole decoder against the layout of the instructions.
use shell_sight.Common.{
  ℕ, zero, suc, ◌+◌, ◌≤◌, ◌<◌, inl, inr, List, [], ◌∷◌, length, get_or, ◌≡◌, ◌↔◌, ◌⊎◌, sym, ◌∙◌,
  arith,
}
use shell_sight.Common.Int.{ℤ, pos, negsuc}
use shell_sight.Common.Result.{ok}
use shell_sight.Bytecode.Words.{Bytes, max_uint32}
use shell_sight.Bytecode.Opcodes.{operand_width}
use shell_sight.Bytecode.Decode.{
  Instruction, decode_wide_instruction, decode_switch_instruction, decode_variable, decode_by_width,
  decode_one, decode_instructions,
}
use shell_sight.Bytecode.Fits.{decode_one-Fits}
use shell_sight.Bytecode.Encode.{clone_byte_range-take}
use shell_sight.Bytecode.Widths.{width_of, operand_width-eq-width_of}
use shell_sight.Bytecode.Shapes.{IsFixed, IsWide, IsSwitch, IsInstruction}
use shell_sight.Bytecode.Layouts.{
  variable_width, no_other_width, IsFixed-sound, fixed_complete, IsWide-sound, wide_complete,
  IsSwitch-sound, switch_complete,
}
use shell_sight.Bytecode.Stream.{Stream, Allows, done, step, decode_instructions-iff_Stream}

-- The instructions that stand in the code from `offset` to its end, as they are laid out.
pub data Listing (code : Bytes) : ℕ → List Instruction → Type 0 where
  ends : {offset : ℕ} → length code ≤ offset → Listing code offset []
  goes_on :
      {offset next : ℕ} {ins : Instruction} {rest : List Instruction}
      → offset < length code
      → IsInstruction code offset ins next
      → Listing code next rest
      → Listing code offset (ins ∷ rest)

module _ (code : Bytes) (offset : ℕ) (short : length code ≤ max_uint32)
    (inside : offset < length code) where
  variable_sound :
      (op : ℕ) {ins : Instruction} {next : ℕ}
      → width_of op ≡ negsuc 1
      → decode_variable code offset op ≡ ok (ins, next)
      → IsFixed code offset ins next ⊎ (IsWide code offset ins next ⊎ IsSwitch code offset ins next)
  unfolding decode_variable
  variable_sound op w e = elim (variable_width op w) [
    | inl wide ↦ inr (inl (IsWide-sound code offset short inside (rw wide at e)))
    | inr switch ↦ elim switch [
      | inl table ↦ inr (inr (IsSwitch-sound code offset short inside 0xaa (rw table at e)))
      | inr lookup ↦ inr (inr (IsSwitch-sound code offset short inside 0xab (rw lookup at e)))
    ]
  ]

  shape_sound :
      (w : ℤ) {ins : Instruction} {next : ℕ}
      → width_of (get_or code offset 0) ≡ w
      → ins.opcode ≡ get_or code offset 0
      → decode_by_width w code offset (get_or code offset 0) ≡ ok (ins, next)
      → IsFixed code offset ins next ⊎ (IsWide code offset ins next ⊎ IsSwitch code offset ins next)
  unfolding decode_by_width
  shape_sound (pos width) w same e = inl (IsFixed-sound code offset short inside width same w e)
  shape_sound (negsuc zero) w same e = cc
  shape_sound (negsuc (suc zero)) w same e = variable_sound (get_or code offset 0) w e
  shape_sound (negsuc (suc (suc n))) w same e = absurd (no_other_width (get_or code offset 0) n w)

  decode_one_sound :
      {ins : Instruction} {next : ℕ}
      → decode_one code offset ≡ ok (ins, next)
      → IsInstruction code offset ins next
  unfolding decode_one
  decode_one_sound {ins} {next} e =
      let fits = decode_one-Fits code offset e in
      let width = operand_width-eq-width_of (get_or code offset 0) in
      record {
        at_offset = fits.at_offset ∙ omega arith;
        same_opcode = fits.same_opcode;
        within = fits.within;
        same_operands = fits.same_operands ∙ clone_byte_range-take code (offset + 1) next;
        shape = shape_sound (operand_width (get_or code offset 0)) (sym width) fits.same_opcode e;
      }

  wide_read :
      {ins : Instruction} {next : ℕ}
      → IsWide code offset ins next
      → decode_wide_instruction code offset ≡ ok (ins, next)
      → decode_by_width (width_of ins.opcode) code offset ins.opcode ≡ ok (ins, next)
  unfolding decode_by_width decode_variable width_of
  wide_read (op, forms, none_left, falls) e = rw op (rw op at e)

  switch_read :
      {ins : Instruction} {next : ℕ}
      → IsSwitch code offset ins next
      → decode_switch_instruction code offset ins.opcode ≡ ok (ins, next)
      → decode_by_width (width_of ins.opcode) code offset ins.opcode ≡ ok (ins, next)
  unfolding decode_by_width decode_variable width_of
  switch_read {ins} (body, default, targets, after, near, aligned, zeros, jump, are, stays, forms)
        e =
      elim forms [ inl (op, is) ↦ rw op (rw op at e) | inr (op, is) ↦ rw op (rw op at e) ]

  decode_one_complete :
      {ins : Instruction} {next : ℕ}
      → IsInstruction code offset ins next
      → decode_one code offset ≡ ok (ins, next)
  unfolding decode_one decode_by_width decode_variable width_of
  decode_one_complete {ins} {next} is =
      let width = operand_width-eq-width_of ins.opcode in
      let slice = is.same_operands ∙ sym (clone_byte_range-take code (offset + 1) next) in
      rw (← is.same_opcode, width)
        (elim is.shape [
          | inl (w, width_is, behind, targets, legal, falls) ↦ rw width_is (
              fixed_complete code offset short inside w is.at_offset is.within slice behind targets
                legal falls)
          | inr variable ↦ elim variable [
            | inl wide ↦
                wide_read wide
                  (wide_complete code offset short inside is.at_offset is.within slice wide)
            | inr switch ↦
                switch_read switch
                  (switch_complete code offset short inside is.at_offset is.within slice switch)
          ]
        ])

Stream-Listing :
    (code : Bytes) (offset : ℕ) (out : List Instruction)
    → length code ≤ max_uint32
    → Stream code offset out
    → Listing code offset out
Stream-Listing code offset [] short (done h) = ends h
Stream-Listing code offset (ins ∷ rest) short (step {next} h d s) =
    goes_on h (decode_one_sound code offset short h d) (Stream-Listing code next rest short s)

Listing-Stream :
    (code : Bytes) (offset : ℕ) (out : List Instruction)
    → length code ≤ max_uint32
    → Listing code offset out
    → Stream code offset out
Listing-Stream code offset [] short (ends h) = done h
Listing-Stream code offset (ins ∷ rest) short (goes_on {next} h d s) =
    step h (decode_one_complete code offset short h d) (Listing-Stream code next rest short s)

-- On code whose offsets fit in 32 bits, decoding succeeds with a list of instructions exactly when the
-- list is what is laid out in the code from offset 0 to its end and the limit allows so many: each
-- instruction has its offset, its opcode, the bytes up to the next one as operands, the targets that
-- its distances give, the padding, counts and keys that the format asks of it, and the mark of falling
-- through exactly where control may go on behind it.
pub decode_instructions-iff_Listing :
    (code : Bytes) (limit : ℤ) (out : List Instruction)
    → length code ≤ max_uint32
    → (decode_instructions code limit ≡ ok out) ↔ (Listing code 0 out × Allows limit (length out))
decode_instructions-iff_Listing code limit out short =
    let by_step = decode_instructions-iff_Stream code limit out short in
    (
      λ h. let (s, a) = by_step.0 h in (Stream-Listing code 0 out short s, a),
      λ (l, a). by_step.1 (Listing-Stream code 0 out short l, a),
    )
