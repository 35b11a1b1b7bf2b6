-- ===== src/Bytecode/Fits.antt =====
-- bytecode.go: what each decoder says of the bytes behind the opcode.
use shell_sight.Common.{
  ℕ, zero, suc, ◌+◌, ◌≤◌, ◌||◌, List, length, get_or, ◌≡◌, refl, arith, ◌==◌, Bool-cases, inl, inr,
  Option, none, some,
}
use shell_sight.Common.Int.{ℤ, pos, negsuc}
use shell_sight.Common.Result.{ok, >>=-eq-ok, or_err}
use shell_sight.Bytecode.Words.{Bytes, checked_add_uint64, clone_byte_range}
use shell_sight.Bytecode.Opcodes.{operand_width}
use shell_sight.Bytecode.Decode.{
  Instruction, DecodeError, uint32, decode_fixed_instruction, decode_wide_instruction,
  decode_switch_instruction, switch_header, decode_variable, decode_by_width, decode_one,
  switch_targets, table_switch, lookup_switch,
}

-- `ins` stands at `offset` of the code, and the next instruction at `next`.
pub record Fits (code : Bytes) (offset : ℕ) (ins : Instruction) (next : ℕ) : Type 0 where
  pub at_offset : ins.offset ≡ uint32 offset
  pub same_opcode : ins.opcode ≡ get_or code offset 0
  pub same_operands : ins.operands ≡ clone_byte_range code (offset + 1) next
  pub advances : offset + 1 ≤ next
  pub within : next ≤ length code

pub checked_add_exact : (a b : ℕ) {c : ℕ} → checked_add_uint64 a b ≡ some c → c ≡ a + b
unfolding checked_add_uint64
checked_add_exact a b h = ground arith

pub or_err-eq-ok :
    {A : Type 0} (o : Option A) (e : DecodeError) {a : A} → or_err o e ≡ ok a → o ≡ some a
or_err-eq-ok none e h = cc
or_err-eq-ok (some b) e h = cc

decode_fixed-Fits :
    (code : Bytes) (offset width : ℕ) {ins : Instruction} {next : ℕ}
    → decode_fixed_instruction code offset (get_or code offset 0) width ≡ ok (ins, next)
    → Fits code offset ins next
unfolding decode_fixed_instruction checked_add_uint64
decode_fixed-Fits code offset width h = ground arith

decode_wide-Fits :
    (code : Bytes) (offset : ℕ) {ins : Instruction} {next : ℕ}
    → get_or code offset 0 ≡ 0xc4
    → decode_wide_instruction code offset ≡ ok (ins, next)
    → Fits code offset ins next
unfolding decode_wide_instruction checked_add_uint64
decode_wide-Fits code offset e h = ground arith

table_switch-within :
    (code : Bytes) (offset body d : ℕ) {ts : List ℕ} {next : ℕ}
    → table_switch code offset body d ≡ ok (ts, next)
    → (body ≤ next) × (next ≤ length code)
unfolding table_switch checked_add_uint64
table_switch-within code offset body d h = ground arith

lookup_switch-within :
    (code : Bytes) (offset body d : ℕ) {ts : List ℕ} {next : ℕ}
    → lookup_switch code offset body d ≡ ok (ts, next)
    → (body ≤ next) × (next ≤ length code)
unfolding lookup_switch checked_add_uint64
lookup_switch-within code offset body d h = ground arith

switch_targets-within :
    (opcode : ℕ) (code : Bytes) (offset body d : ℕ) {ts : List ℕ} {next : ℕ}
    → switch_targets opcode code offset body d ≡ ok (ts, next)
    → (body ≤ next) × (next ≤ length code)
unfolding switch_targets
switch_targets-within opcode code offset body d h = elim (Bool-cases (opcode == 0xaa)) [
  | inl table ↦ table_switch-within code offset body d (rw table at h)
  | inr other ↦ elim (Bool-cases (opcode == 0xab)) [
    | inl lookup ↦ lookup_switch-within code offset body d (rw (other, lookup) at h)
    | inr neither ↦ cc (rw (other, neither) at h)
  ]
]

switch_header-after :
    (code : Bytes) (offset : ℕ) {r : ℕ × ℕ} → switch_header code offset ≡ ok r → offset + 1 ≤ r.0
unfolding switch_header checked_add_uint64
switch_header-after code offset h = ground arith

decode_switch-Fits :
    (code : Bytes) (offset opcode : ℕ) {ins : Instruction} {next : ℕ}
    → opcode ≡ get_or code offset 0
    → decode_switch_instruction code offset opcode ≡ ok (ins, next)
    → Fits code offset ins next
unfolding decode_switch_instruction
decode_switch-Fits code offset opcode e h =
    let (header, he, h1) = >>=-eq-ok (switch_header code offset) _ h in
    let (r, re, h2) = >>=-eq-ok (switch_targets opcode code offset header.0 header.1) _ h1 in
    let after = switch_header-after code offset he in
    let within =
      switch_targets-within opcode code offset header.0 header.1 {ts = r.0} {next = r.1} re in
    ground (arith, after, within, h2)

decode_variable-Fits :
    (code : Bytes) (offset opcode : ℕ) {ins : Instruction} {next : ℕ}
    → opcode ≡ get_or code offset 0
    → decode_variable code offset opcode ≡ ok (ins, next)
    → Fits code offset ins next
unfolding decode_variable
decode_variable-Fits code offset opcode e h = elim (Bool-cases (opcode == 0xaa || opcode == 0xab)) [
  | inl switch ↦ decode_switch-Fits code offset opcode e (rw switch at h)
  | inr other ↦ elim (Bool-cases (opcode == 0xc4)) [
    | inl wide ↦ decode_wide-Fits code offset (ground (arith, wide)) (rw (other, wide) at h)
    | inr neither ↦ cc (rw (other, neither) at h)
  ]
]

decode_by_width-Fits :
    (width : ℤ) (code : Bytes) (offset : ℕ) {ins : Instruction} {next : ℕ}
    → decode_by_width width code offset (get_or code offset 0) ≡ ok (ins, next)
    → Fits code offset ins next
unfolding decode_by_width
decode_by_width-Fits (pos w) code offset h = decode_fixed-Fits code offset w h
decode_by_width-Fits (negsuc zero) code offset h = cc
decode_by_width-Fits (negsuc (suc zero)) code offset h = decode_variable-Fits code offset _ refl h
decode_by_width-Fits (negsuc (suc (suc n))) code offset h = decode_fixed-Fits code offset _ h

-- Whatever `decode_one` returns stands in the code where it says: its opcode is the byte at the
-- offset, its operands are the bytes up to the next offset, and that is further on and in the code.
pub decode_one-Fits :
    (code : Bytes) (offset : ℕ) {ins : Instruction} {next : ℕ}
    → decode_one code offset ≡ ok (ins, next)
    → Fits code offset ins next
unfolding decode_one
decode_one-Fits code offset h =
    decode_by_width-Fits (operand_width (get_or code offset 0)) code offset h
