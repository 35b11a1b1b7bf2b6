-- ===== src/Pool.antt =====
-- classparser.go and classmodel.go: the constant pool of a class file and the references into it.
use shell_sight.Common.{
  ℕ, zero, suc, ◌+◌, ◌-◌, ◌*◌, ◌/◌, ◌%◌, Bool, true, false, not, ◌&&◌, ◌||◌, List, [], ◌∷◌, ◌++◌,
  length, if◌then◌else◌, ltb, leb, ◌==◌,
}
use shell_sight.Common.Result.{Result, ok, err, ◌>>=◌, map_err}
use shell_sight.Bytecode.Words.{Bytes}
use shell_sight.ClassReader.{ClassReader, ReadError, read_bytes, u1, u2, u4, u8}
use shell_sight.Mutf8.{Mutf8Error, decode_modified_utf8}
pub mod Items
pub mod Reads
pub mod Finds
pub mod Exact

-- The constants `cpUtf8` and so on.
abbrev pub cp_utf8 : ℕ
cp_utf8 = 1

abbrev pub cp_integer : ℕ
cp_integer = 3

abbrev pub cp_float : ℕ
cp_float = 4

abbrev pub cp_long : ℕ
cp_long = 5

abbrev pub cp_double : ℕ
cp_double = 6

abbrev pub cp_class : ℕ
cp_class = 7

abbrev pub cp_string : ℕ
cp_string = 8

abbrev pub cp_fieldref : ℕ
cp_fieldref = 9

abbrev pub cp_methodref : ℕ
cp_methodref = 10

abbrev pub cp_interface_methodref : ℕ
cp_interface_methodref = 11

abbrev pub cp_name_and_type : ℕ
cp_name_and_type = 12

abbrev pub cp_method_handle : ℕ
cp_method_handle = 15

abbrev pub cp_method_type : ℕ
cp_method_type = 16

abbrev pub cp_dynamic : ℕ
cp_dynamic = 17

abbrev pub cp_invoke_dynamic : ℕ
cp_invoke_dynamic = 18

abbrev pub cp_module : ℕ
cp_module = 19

abbrev pub cp_package : ℕ
cp_package = 20

-- The UTF-8 that `WriteRune` gives a rune; a Go string is the list of its bytes.
unfoldable pub utf8_rune : ℕ → Bytes
utf8_rune c =
    if ltb c 0x80
    then c ∷ []
    else if ltb c 0x800
    then (0xc0 + c / 64) ∷ (0x80 + c % 64) ∷ []
    else if ltb c 0x1_0000
    then (0xe0 + c / 4096) ∷ (0x80 + c / 64 % 64) ∷ (0x80 + c % 64) ∷ []
    else (0xf0 + c / 262_144) ∷ (0x80 + c / 4096 % 64) ∷ (0x80 + c / 64 % 64) ∷ (0x80 + c % 64) ∷ []

unfoldable pub utf8 : List ℕ → Bytes
utf8 [] = []
utf8 (c ∷ cs) = utf8_rune c ++ utf8 cs

pub record CpEntry : Type 0 where
  pub tag : ℕ
  pub a : ℕ
  pub b : ℕ
  pub bits : ℕ
  pub text : Bytes

-- The zero value, which stands in the slots that no constant uses.
abbrev pub no_entry : CpEntry
no_entry = record { tag = 0; a = 0; b = 0; bits = 0; text = [] }

-- The errors, with the index of the constant; `out_of_fuel` is the end of the fuel.
pub data PoolError : Type 0 where
  reading : ReadError → PoolError
  zero_count : PoolError
  in_entry : ℕ → ReadError → PoolError
  bad_text : ℕ → Mutf8Error → PoolError
  no_unusable_slot invalid_kind invalid_tag : ℕ → ℕ → PoolError
  out_of_fuel : PoolError

-- What one round of the loop puts into the pool, and the reader after it.
abbrev pub Slots : Type 0
Slots = Result PoolError (List CpEntry × ClassReader)

abbrev text_slot : List ℕ → CpEntry
text_slot runes = record { tag = cp_utf8; a = 0; b = 0; bits = 0; text = utf8 runes }

unfoldable pub text_entry : ℕ → ClassReader → Slots
text_entry index r = do
  measured ← map_err (in_entry index) (u2 r)
  payload ← map_err (in_entry index) (read_bytes measured.0 measured.1)
  runes ← map_err (bad_text index) (decode_modified_utf8 payload.0)
  ok (text_slot runes ∷ [], payload.1)

abbrev bits_slot : ℕ → ℕ → CpEntry
bits_slot tag bits = record { tag = tag; a = 0; b = 0; bits = bits; text = [] }

unfoldable pub word_entry : ℕ → ℕ → ClassReader → Slots
word_entry index tag r = do
  bits ← map_err (in_entry index) (u4 r)
  ok (bits_slot tag bits.0 ∷ [], bits.1)

abbrev pub wide_slots : ℕ → ℕ × ClassReader → Slots
wide_slots tag (bits, after) = ok (bits_slot tag bits ∷ no_entry ∷ [], after)

-- A long or a double takes the slot after it too.
unfoldable pub wide_entry : ℕ → ℕ → ℕ → ClassReader → Slots
wide_entry index count tag r =
    if leb count (suc index)
    then err (no_unusable_slot index tag)
    else map_err (in_entry index) (u8 r) >>= wide_slots tag

abbrev index_slot : ℕ → ℕ → ℕ → CpEntry
index_slot tag a b = record { tag = tag; a = a; b = b; bits = 0; text = [] }

unfoldable pub one_entry : ℕ → ℕ → ClassReader → Slots
one_entry index tag r = do a ← map_err (in_entry index) (u2 r); ok (index_slot tag a.0 0 ∷ [], a.1)

unfoldable pub two_entry : ℕ → ℕ → ClassReader → Slots
two_entry index tag r = do
  a ← map_err (in_entry index) (u2 r)
  b ← map_err (in_entry index) (u2 a.1)
  ok (index_slot tag a.0 b.0 ∷ [], b.1)

abbrev pub handle_slot : ℕ → ℕ → CpEntry
handle_slot kind b = index_slot cp_method_handle kind b

abbrev pub valid_kind : ℕ → ℕ → ℕ × ClassReader → Slots
valid_kind index kind (b, after) =
    if ltb kind 1 || ltb 9 kind
    then err (invalid_kind index kind)
    else ok (handle_slot kind b ∷ [], after)

unfoldable pub handle_entry : ℕ → ClassReader → Slots
handle_entry index r = do
  kind ← map_err (in_entry index) (u1 r)
  b ← map_err (in_entry index) (u2 kind.1)
  valid_kind index kind.0 b

abbrev pub has_one_index : ℕ → Bool
has_one_index tag =
    tag == cp_class
    || tag == cp_string
    || tag == cp_method_type
    || tag == cp_module
    || tag == cp_package

abbrev pub has_two_indexes : ℕ → Bool
has_two_indexes tag =
    tag == cp_fieldref
    || tag == cp_methodref
    || tag == cp_interface_methodref
    || tag == cp_name_and_type
    || tag == cp_dynamic
    || tag == cp_invoke_dynamic

-- The `switch` on the tag.
unfoldable pub parse_entry : ℕ → ℕ → ℕ × ClassReader → Slots
parse_entry index count (tag, r) =
    if tag == cp_utf8
    then text_entry index r
    else if tag == cp_integer || tag == cp_float
    then word_entry index tag r
    else if tag == cp_long || tag == cp_double
    then wide_entry index count tag r
    else if has_one_index tag
    then one_entry index tag r
    else if has_two_indexes tag
    then two_entry index tag r
    else if tag == cp_method_handle
    then handle_entry index r
    else err (invalid_tag index tag)

unfoldable pub next_entry : ℕ → ℕ → ClassReader → Slots
next_entry index count r = map_err (in_entry index) (u1 r) >>= parse_entry index count

-- The loop; `pool` holds the slots below `index`.
unfoldable pub parse_entries : ℕ → ℕ → ℕ → List CpEntry → ClassReader → Slots
parse_entries zero index count pool r = err out_of_fuel
parse_entries (suc fuel) index count pool r = elim (ltb index count) [
  | false ↦ ok (pool, r)
  | true ↦ elim (next_entry index count r) [
    | err e ↦ err e
    | ok (slots, after) ↦ parse_entries fuel (index + length slots) count (pool ++ slots) after
  ]
]

abbrev pub parse_counted : ℕ × ClassReader → Slots
parse_counted (count, r) =
    if count == 0 then err zero_count else parse_entries count 1 count (no_entry ∷ []) r

unfoldable pub parse_constant_pool : ClassReader → Slots
parse_constant_pool r = map_err reading (u2 r) >>= parse_counted
