-- ===== src/Cfg/Accepts.antt =====
-- cfg.go, `validateInstructionStream`: which streams `buildCFG` accepts for a piece of code.
use shell_sight.Common.{
  ℕ, suc, ◌+◌, ◌-◌, ◌≤◌, true, false, not, List, [], ◌∷◌, length, drop, ◌≡◌, ◌↔◌, refl, sym, ap,
  ◌∙◌, arith, ◌==◌, length-take, length-drop,
}
use shell_sight.Common.Int.{pos}
use shell_sight.Common.Result.{ok, >>=-eq-ok, guard-eq-ok, map_err, map_err-eq-ok}
use shell_sight.Bytecode.Words.{Bytes, max_uint32, checked_add_uint64, clone_byte_range}
use shell_sight.Bytecode.Decode.{
  Instruction, decode_instructions, decode_instructions_counted, decode_from,
}
use shell_sight.Bytecode.Fits.{Fits, decode_one-Fits}
use shell_sight.Bytecode.Encode.{clone_byte_range-take}
use shell_sight.Bytecode.Stream.{Allows, Stream, done, step, decode_instructions-iff_Stream}
use shell_sight.Cfg.Validate.{
  equal, same_instruction, validate_items, validate_metadata, not_decodable,
  validate_instruction_stream,
}

pub equal_iff : (xs ys : List ℕ) → (equal xs ys ≡ true) ↔ (xs ≡ ys)
unfolding equal
equal_iff (x ∷ xs) (y ∷ ys) = ground (arith, equal_iff xs ys)
equal_iff [] [] = ground arith
equal_iff [] (y ∷ ys) = ground arith
equal_iff (x ∷ xs) [] = ground arith

same_instruction-eq : (got want : Instruction) → same_instruction got want ≡ true → got ≡ want
unfolding same_instruction
same_instruction-eq got want h =
    ground (arith, equal_iff got.operands want.operands, equal_iff got.targets want.targets)

same_instruction_refl : (ins : Instruction) → same_instruction ins ins ≡ true
unfolding same_instruction
same_instruction_refl ins = ground (
  arith,
  (equal_iff ins.operands ins.operands).1 refl,
  (equal_iff ins.targets ins.targets).1 refl,
)

validate_metadata_sound :
    (index : ℕ) (gots wants : List Instruction)
    → length gots ≡ length wants
    → validate_metadata index gots wants ≡ ok tt
    → gots ≡ wants
unfolding validate_metadata
validate_metadata_sound index [] [] e h = refl
validate_metadata_sound index [] (w ∷ wants) e h = absurd (omega arith)
validate_metadata_sound index (g ∷ gots) [] e h = absurd (omega arith)
validate_metadata_sound index (g ∷ gots) (w ∷ wants) e h =
    let (same, h1) = guard-eq-ok (same_instruction g w) _ _ h in
    cc (
      same_instruction-eq g w same,
      validate_metadata_sound (suc index) gots wants (omega arith) h1,
    )

validate_metadata_refl : (index : ℕ) (xs : List Instruction) → validate_metadata index xs xs ≡ ok tt
unfolding validate_metadata
validate_metadata_refl index [] = refl
validate_metadata_refl index (x ∷ xs) =
    rw (same_instruction_refl x) (validate_metadata_refl (suc index) xs)

Fits-length :
    (code : Bytes) (offset : ℕ) (ins : Instruction) (next : ℕ)
    → Fits code offset ins next
    → offset + 1 + length ins.operands ≡ next
Fits-length code offset ins next f =
    rw (f.same_operands, clone_byte_range-take)
      (omega (
        arith,
        length-take (next - (offset + 1)) (drop (offset + 1) code),
        length-drop (offset + 1) code,
        f.advances,
        f.within,
      ))

validate_items-Fits :
    (code : Bytes) (index offset : ℕ) (ins : Instruction) (next : ℕ) (rest : List Instruction)
    → length code ≤ max_uint32
    → Fits code offset ins next
    → validate_items code index offset (ins ∷ rest) ≡ validate_items code (suc index) next rest
unfolding validate_items checked_add_uint64
validate_items-Fits code index offset ins next rest short f = ground (
  arith,
  Fits-length code offset ins next f,
  equal_iff ins.operands (clone_byte_range code (offset + 1) next),
  f.at_offset,
  f.same_opcode,
  f.same_operands,
  f.advances,
  f.within,
)

validate_items-Stream :
    (code : Bytes) (index offset : ℕ) (out : List Instruction)
    → length code ≤ max_uint32
    → offset ≤ length code
    → Stream code offset out
    → validate_items code index offset out ≡ ok (length code)
validate_items-Stream code index offset [] short le (done h) =
    unfold validate_items in ap ok (omega arith)
validate_items-Stream code index offset (ins ∷ rest) short le (step {next} h d s) =
    let f = decode_one-Fits code offset d in
    validate_items-Fits code index offset ins next rest short f
    ∙ validate_items-Stream code (suc index) next rest short f.within s

count_allowed : (n : ℕ) → Allows (pos n) n
count_allowed n = omega arith

validate_sound :
    (code : Bytes) (given : List Instruction)
    → validate_instruction_stream code given ≡ ok tt
    → decode_instructions code (pos (length given)) ≡ ok given
unfolding validate_instruction_stream
validate_sound [] [] h = unfold decode_instructions decode_instructions_counted decode_from in refl
validate_sound [] (x ∷ xs) h = ground arith
validate_sound (b ∷ bs) given h =
    let nonempty : (length (b ∷ bs) == 0) ≡ false = ground arith in
    let h0 = rw (nonempty, validate_instruction_stream) at h in
    let (n, h1) = guard-eq-ok (not (length given == 0)) _ _ h0 in
    let (end, e, h2) = >>=-eq-ok (validate_items (b ∷ bs) 0 0 given) _ h1 in
    let (n', h3) = guard-eq-ok (end == length (b ∷ bs)) _ _ h2 in
    let (decoded, d, h4) =
      >>=-eq-ok (map_err not_decodable (decode_instructions (b ∷ bs) (pos (length given)))) _ h3 in
    let (same, h5) = guard-eq-ok (length decoded == length given) _ _ h4 in
    let equal_lists = validate_metadata_sound 0 given decoded (ground (arith, same)) h5 in
    map_err-eq-ok not_decodable (decode_instructions (b ∷ bs) (pos (length given))) d
    ∙ ap ok (sym equal_lists)

validate_complete :
    (code : Bytes) (out : List Instruction)
    → length code ≤ max_uint32
    → Stream code 0 out
    → decode_instructions code (pos (length out)) ≡ ok out
    → validate_instruction_stream code out ≡ ok tt
unfolding validate_instruction_stream
validate_complete [] [] short s h = refl
validate_complete [] (x ∷ xs) short (step lt d s) h = absurd (omega arith)
validate_complete (b ∷ bs) [] short (done le) h = absurd (omega arith)
validate_complete (b ∷ bs) (x ∷ xs) short s h =
    rw (validate_items-Stream (b ∷ bs) 0 0 (x ∷ xs) short (omega arith) s, h)
      (ground (arith, validate_metadata_refl 0 (x ∷ xs)))

-- On code whose offsets fit in 32 bits, the validation that `buildCFG` begins with accepts a list of
-- instructions exactly when it is the stream of instructions that stand in the code.
pub validate_instruction_stream-iff_Stream :
    (code : Bytes) (given : List Instruction)
    → length code ≤ max_uint32
    → (validate_instruction_stream code given ≡ ok tt → Stream code 0 given)
      × (Stream code 0 given → validate_instruction_stream code given ≡ ok tt)
validate_instruction_stream-iff_Stream code given short = (
  λ h.
      ((decode_instructions-iff_Stream code (pos (length given)) given short).0
        (validate_sound code given h)).0,
  λ s. validate_complete code given short s (
      (decode_instructions-iff_Stream code (pos (length given)) given short).1
        (s, count_allowed (length given))),
)
