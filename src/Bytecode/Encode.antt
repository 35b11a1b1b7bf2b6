-- ===== src/Bytecode/Encode.antt =====
-- bytecode.go: the instructions that the decoder returns, put back together.
use native.Mathlib.Numerals.{add-one}
use shell_sight.Common.{
  ℕ, suc, ◌-◌, ◌≤◌, List, [], ◌∷◌, ◌++◌, length, take, drop, drop-suc, drop-drop, take-append-drop,
  drop-beyond, ◌≡◌, sym, ◌∙◌, arith, Bool-cases, inl, inr, ◌==◌,
}
use shell_sight.Common.Int.{ℤ}
use shell_sight.Common.Result.{ok}
use shell_sight.Bytecode.Words.{Bytes, max_uint32, clone_byte_range}
use shell_sight.Bytecode.Decode.{Instruction, decode_instructions}
use shell_sight.Bytecode.Fits.{Fits, decode_one-Fits}
use shell_sight.Bytecode.Stream.{Stream, done, step, decode_instructions-iff_Stream}

-- The bytes of a list of instructions: each opcode with its operands behind it.
unfoldable pub encode : List Instruction → Bytes
encode [] = []
encode (ins ∷ rest) = ins.opcode ∷ (ins.operands ++ encode rest)

pub clone_byte_range-take :
    (code : Bytes) (start end : ℕ)
    → clone_byte_range code start end ≡ take (end - start) (drop start code)
unfolding clone_byte_range
clone_byte_range-take code start end = elim (Bool-cases (start == end)) [
  | inl same ↦ let none_left : end - start ≡ 0 = ground (arith, same) in rw (same, none_left)
  | inr differ ↦ rw differ
]

-- The bytes from `offset` on are the opcode, the operands and the bytes from `next` on.
Fits-bytes :
    (code : Bytes) (offset : ℕ) (ins : Instruction) (next : ℕ)
    → Fits code offset ins next
    → drop offset code ≡ ins.opcode ∷ (ins.operands ++ drop next code)
Fits-bytes code offset ins next f =
    drop-suc offset code 0 (omega arith)
    ∙ rw (f.same_opcode, f.same_operands, clone_byte_range-take)
        (rw (
          add-one offset,
          ← drop-drop (suc offset) (next - suc offset) next code (omega arith),
          take-append-drop (next - suc offset) (drop (suc offset) code),
        ))

Stream-encode :
    (code : Bytes) (offset : ℕ) (out : List Instruction)
    → Stream code offset out
    → encode out ≡ drop offset code
unfolding encode
Stream-encode code offset [] (done h) = sym (drop-beyond offset code h)
Stream-encode code offset (ins ∷ rest) (step {next} h d s) =
    rw (Stream-encode code next rest s)
      (sym (Fits-bytes code offset ins next (decode_one-Fits code offset d)))

-- What the decoder returns, written out again, is the code that it was given, byte for byte.
pub encode-decode_instructions :
    (code : Bytes) (limit : ℤ) (out : List Instruction)
    → length code ≤ max_uint32
    → decode_instructions code limit ≡ ok out
    → encode out ≡ code
encode-decode_instructions code limit out short h =
    Stream-encode code 0 out ((decode_instructions-iff_Stream code limit out short).0 h).0
