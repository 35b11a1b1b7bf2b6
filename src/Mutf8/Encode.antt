-- ===== src/Mutf8/Encode.antt =====
-- The modified UTF-8 that the class file format gives a text: each rune in one or two units of UTF-16,
-- and each unit in one to three bytes.
use shell_sight.Common.{
  ℕ, ◌+◌, ◌-◌, ◌/◌, ◌%◌, ◌<◌, ◌⊎◌, List, [], ◌∷◌, ◌++◌, if◌then◌else◌, ltb, ◌==◌,
}
use shell_sight.Bytecode.Words.{Bytes}

abbrev pub IsByte : ℕ → Type 0
IsByte byte = byte < 256

-- A Unicode scalar value.
abbrev pub IsScalarValue : ℕ → Type 0
IsScalarValue c = (c < 0xd800) ⊎ (0xdfff < c) × (c < 0x11_0000)

unfoldable pub unit_bytes : ℕ → Bytes
unit_bytes u =
    if u == 0
    then 0xc0 ∷ 0x80 ∷ []
    else if ltb u 0x80
    then u ∷ []
    else if ltb u 0x800
    then (0xc0 + u / 64) ∷ (0x80 + u % 64) ∷ []
    else (0xe0 + u / 4096) ∷ (0x80 + u / 64 % 64) ∷ (0x80 + u % 64) ∷ []

unfoldable pub rune_bytes : ℕ → Bytes
rune_bytes c =
    if ltb c 0x1_0000
    then unit_bytes c
    else unit_bytes (0xd800 + (c - 0x1_0000) / 1024) ++ unit_bytes (0xdc00 + (c - 0x1_0000) % 1024)

unfoldable pub encode : List ℕ → Bytes
encode [] = []
encode (c ∷ cs) = rune_bytes c ++ encode cs
