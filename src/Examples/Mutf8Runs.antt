-- ===== src/Examples/Mutf8Runs.antt =====
-- Runs of mutf8.go.
use shell_sight.Common.{ℕ, ◌≡◌, refl, arith, List, [], ◌∷◌, All}
use shell_sight.Common.Result.{ok, err}
use shell_sight.Bytecode.Words.{Bytes}
use shell_sight.Mutf8.{
  decode_modified_utf8, decode_from, read_unit, two_bytes, three_bytes, write_unit, overlong,
  unpaired_high,
}
use shell_sight.Mutf8.Encode.{IsByte, IsScalarValue, encode, rune_bytes, unit_bytes}
use shell_sight.Mutf8.Exact.{decode_modified_utf8-iff_encode}

-- NUL, é, € and 😀.
abbrev text : List ℕ
text = 0 ∷ 0xe9 ∷ 0x20ac ∷ 0x1_f600 ∷ []

abbrev text_bytes : Bytes
text_bytes =
    0xc0 ∷ 0x80 ∷ 0xc3 ∷ 0xa9 ∷ 0xe2 ∷ 0x82 ∷ 0xac ∷ 0xed ∷ 0xa0 ∷ 0xbd ∷ 0xed ∷ 0xb8 ∷ 0x80 ∷ []

text_encodes : text_bytes ≡ encode text
unfolding encode rune_bytes unit_bytes
text_encodes = refl

text_scalars : All IsScalarValue text
text_scalars = ground arith

text_are_bytes : All IsByte text_bytes
text_are_bytes = omega arith

decode_modified_utf8-iff_encode_example : decode_modified_utf8 text_bytes ≡ ok text
decode_modified_utf8-iff_encode_example =
    (decode_modified_utf8-iff_encode text_bytes text text_are_bytes).1 (text_scalars, text_encodes)

overlong_run : decode_modified_utf8 (0xc1 ∷ 0x80 ∷ []) ≡ err (overlong 0)
unfolding decode_modified_utf8 decode_from read_unit two_bytes
overlong_run = refl

unpaired_run : decode_modified_utf8 (0xed ∷ 0xa0 ∷ 0x80 ∷ b'a' ∷ []) ≡ err (unpaired_high 3)
unfolding decode_modified_utf8 decode_from read_unit three_bytes write_unit
unpaired_run = refl
