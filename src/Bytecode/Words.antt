-- ===== src/Bytecode/Words.antt =====
-- bytecode.go: checked arithmetic, big-endian reads and branch targets.
use shell_sight.Common.{
  ℕ, ◌+◌, ◌-◌, ◌*◌, ◌/◌, not, ◌&&◌, Option, none, some, List, [], length, get_or, take, drop,
  if◌then◌else◌, ltb, ◌==◌,
}
use shell_sight.Common.Int.{ℤ, pos, negsuc}
use shell_sight.Common.Result.{Result, ok, err}

abbrev pub Bytes : Type 0
Bytes = List ℕ

abbrev pub max_uint32 : ℕ
max_uint32 = 4_294_967_295

abbrev pub max_uint64 : ℕ
max_uint64 = 18_446_744_073_709_551_615

-- `maxInt` on a platform with 64-bit `int`.
abbrev pub max_int : ℕ
max_int = 9_223_372_036_854_775_807

unfoldable pub checked_add_uint64 : ℕ → ℕ → Option ℕ
checked_add_uint64 a b = if ltb (max_uint64 - a) b then none else some (a + b)

unfoldable pub checked_mul_uint64 : ℕ → ℕ → Option ℕ
checked_mul_uint64 a b = if not (a == 0) && ltb (max_uint64 / a) b then none else some (a * b)

-- `append([]byte(nil), data[start:end]...)`; the callers have checked `start ≤ end ≤ len(data)`.
unfoldable pub clone_byte_range : Bytes → ℕ → ℕ → Bytes
clone_byte_range code start end = if start == end then [] else take (end - start) (drop start code)

-- `binary.BigEndian.Uint16` and `Uint32`.
unfoldable pub be_uint16 : Bytes → ℕ
be_uint16 b = get_or b 0 0 * 256 + get_or b 1 0

unfoldable pub be_uint32 : Bytes → ℕ
be_uint32 b = get_or b 0 0 * 16_777_216 + get_or b 1 0 * 65_536 + get_or b 2 0 * 256 + get_or b 3 0

-- The conversions `int16(x)` and `int32(x)`: two's complement.
unfoldable pub to_int16 : ℕ → ℤ
to_int16 x = if ltb x 32_768 then pos x else negsuc (65_535 - x)

unfoldable pub to_int32 : ℕ → ℤ
to_int32 x = if ltb x 2_147_483_648 then pos x else negsuc (4_294_967_295 - x)

unfoldable pub read_int32 : Bytes → ℕ → Option ℤ
unfolding checked_add_uint64 be_uint32 to_int32
read_int32 code offset = elim (checked_add_uint64 offset 4) [
  | none ↦ none
  | some end ↦
      if ltb (length code) end
      then none
      else some (to_int32 (be_uint32 (take 4 (drop offset code))))
]

-- `v, _ := readInt32(…)`: an error leaves 0.
abbrev pub int_or_zero : Option ℤ → ℤ
int_or_zero none = pos 0
int_or_zero (some v) = v

pub data TargetError : Type 0 where
  base_exceeds_uint32 target_underflows target_overflows : TargetError

-- `resolveAbsoluteTarget`; `negsuc n` is the delta -(n + 1).
unfoldable pub resolve_absolute_target : ℕ → ℤ → Result TargetError ℕ
resolve_absolute_target base (negsuc n) =
    if ltb max_uint32 base
    then err base_exceeds_uint32
    else if ltb base (n + 1)
    then err target_underflows
    else ok (base - (n + 1))
resolve_absolute_target base (pos n) =
    if ltb max_uint32 base
    then err base_exceeds_uint32
    else if ltb (max_uint32 - base) n
    then err target_overflows
    else ok (base + n)
