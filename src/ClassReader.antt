-- ===== src/ClassReader.antt =====
-- classreader.go: the reader of the bytes of a class file, which moves an offset forward. A reader
-- that fails does not move.
use shell_sight.Common.{ℕ, ◌+◌, ◌-◌, ◌*◌, List, length, get_or, take, drop, if◌then◌else◌, ltb}
use shell_sight.Common.Result.{Result, ok, err, ◌>>=◌}
use shell_sight.Bytecode.Words.{Bytes, be_uint16, be_uint32}
pub mod Moves
pub mod Numbers
pub mod Widths

-- A reader starts with `off = 0`.
pub record ClassReader : Type 0 where
  pub bytes : Bytes
  pub off : ℕ

-- The offset, the bytes wanted and the bytes that remain.
pub data ReadError : Type 0 where
  past_end : ℕ → ℕ → ℕ → ReadError

unfoldable pub remaining : ClassReader → ℕ
remaining r = length r.bytes - r.off

abbrev pub Read : Type 0 → Type 0
Read A = Result ReadError (A × ClassReader)

-- `bytes`: the slice, and the reader after it.
unfoldable pub read_bytes : ℕ → ClassReader → Read Bytes
unfolding remaining
read_bytes n r =
    if ltb (remaining r) n
    then err (past_end r.off n (remaining r))
    else ok (take n (drop r.off r.bytes), record { bytes = r.bytes; off = r.off + n })

-- `binary.BigEndian.Uint64`.
unfoldable pub be_uint64 : Bytes → ℕ
unfolding be_uint32
be_uint64 b = be_uint32 b * 4_294_967_296 + be_uint32 (drop 4 b)

abbrev pub through : (Bytes → ℕ) → Bytes × ClassReader → Read ℕ
through value (slice, after) = ok (value slice, after)

unfoldable pub u1 : ClassReader → Read ℕ
u1 r = read_bytes 1 r >>= through (λ slice. get_or slice 0 0)

unfoldable pub u2 : ClassReader → Read ℕ
u2 r = read_bytes 2 r >>= through be_uint16

unfoldable pub u4 : ClassReader → Read ℕ
u4 r = read_bytes 4 r >>= through be_uint32

unfoldable pub u8 : ClassReader → Read ℕ
u8 r = read_bytes 8 r >>= through be_uint64

abbrev pub moved : Bytes × ClassReader → Result ReadError ClassReader
moved (slice, after) = ok after

unfoldable pub skip : ℕ → ClassReader → Result ReadError ClassReader
skip n r = read_bytes n r >>= moved
