-- ===== src/Mutf8.antt =====
-- mutf8.go: the decoder of the modified UTF-8 of class files. The text that is built is the list of
-- its runes; the decoder stands at an offset with the bytes from there on.
use shell_sight.Common.{
  ℕ, zero, suc, ◌+◌, ◌-◌, ◌*◌, ◌/◌, ◌%◌, Bool, true, false, not, ◌&&◌, ◌||◌, List, [], ◌∷◌, ◌++◌,
  length, drop, if◌then◌else◌, ltb, leb, ◌==◌,
}
use shell_sight.Common.Result.{Result, ok, err}
use shell_sight.Bytecode.Words.{Bytes}
pub mod Encode
pub mod Units
pub mod Runs
pub mod Rounds
pub mod Exact

-- The errors, with the byte offset that their texts name; `out_of_fuel` is the end of the fuel.
pub data Mutf8Error : Type 0 where
  raw_nul truncated_two truncated_three bad_continuation invalid_nul overlong unpaired_high
        unpaired_low :
      ℕ → Mutf8Error
  invalid_leading : ℕ → ℕ → Mutf8Error
  out_of_fuel : Mutf8Error

-- A unit of UTF-16, and the number of bytes that it takes.
abbrev pub Unit16 : Type 0
Unit16 = Result Mutf8Error (ℕ × ℕ)

abbrev two_unit : ℕ → ℕ → ℕ → ℕ → Unit16
two_unit offset first second unit =
    if unit == 0
    then if not (first == 0xc0) || not (second == 0x80) then err (invalid_nul offset) else ok (0, 2)
    else if ltb unit 0x80
    then err (overlong offset)
    else ok (unit, 2)

-- `x & 0xc0 != 0x80` is `x / 64 ≠ 2` at a byte, and `x & 0x3f` is `x % 64`; so with the other masks.
unfoldable pub two_bytes : ℕ → ℕ → Bytes → Unit16
two_bytes offset first [] = err (truncated_two offset)
two_bytes offset first (second ∷ more) =
    if not (second / 64 == 2)
    then err (bad_continuation (suc offset))
    else two_unit offset first second (first % 32 * 64 + second % 64)

unfoldable pub three_bytes : ℕ → ℕ → Bytes → Unit16
three_bytes offset first [] = err (truncated_three offset)
three_bytes offset first (second ∷ []) = err (truncated_three offset)
three_bytes offset first (second ∷ third ∷ more) =
    if not (second / 64 == 2)
    then err (bad_continuation (offset + 1))
    else if not (third / 64 == 2)
    then err (bad_continuation (offset + 2))
    else if ltb (first % 16 * 4096 + second % 64 * 64 + third % 64) 0x800
    then err (overlong offset)
    else ok (first % 16 * 4096 + second % 64 * 64 + third % 64, 3)

-- The `switch` on the first byte.
unfoldable pub read_unit : ℕ → ℕ → Bytes → Unit16
read_unit offset first more =
    if first == 0
    then err (raw_nul offset)
    else if leb first 0x7f
    then ok (first, 1)
    else if first / 32 == 6
    then two_bytes offset first more
    else if first / 16 == 14
    then three_bytes offset first more
    else err (invalid_leading offset first)

-- `utf16.DecodeRune` at a pair of surrogates.
abbrev pub decode_rune : ℕ → ℕ → ℕ
decode_rune high low = (high - 0xd800) * 1024 + (low - 0xdc00) + 0x1_0000

-- `writeUnit`: the high surrogate that waits, 0 for none, and the text.
unfoldable pub write_unit : ℕ → ℕ → List ℕ → ℕ → Result Mutf8Error (ℕ × List ℕ)
write_unit offset high decoded unit =
    if not (high == 0)
    then if ltb unit 0xdc00 || ltb 0xdfff unit
      then err (unpaired_high offset)
      else ok (0, decoded ++ decode_rune high unit ∷ [])
    else if leb 0xd800 unit && leb unit 0xdbff
    then ok (unit, decoded)
    else if leb 0xdc00 unit && leb unit 0xdfff
    then err (unpaired_low offset)
    else ok (0, decoded ++ unit ∷ [])

unfoldable pub decode_from : ℕ → Bytes → ℕ → ℕ → List ℕ → Result Mutf8Error (List ℕ)
decode_from zero bytes offset high decoded = err out_of_fuel
decode_from (suc fuel) [] offset high decoded =
    if not (high == 0) then err (unpaired_high offset) else ok decoded
decode_from (suc fuel) (first ∷ more) offset high decoded = elim (read_unit offset first more) [
  | err e ↦ err e
  | ok (unit, width) ↦ elim (write_unit offset high decoded unit) [
    | err e ↦ err e
    | ok (high', decoded') ↦
        decode_from fuel (drop (width - 1) more) (offset + width) high' decoded'
  ]
]

unfoldable pub decode_modified_utf8 : Bytes → Result Mutf8Error (List ℕ)
decode_modified_utf8 bytes = decode_from (length bytes + 1) bytes 0 0 []
