-- ===== src/Examples/PoolRuns.antt =====
-- Runs of the parser of the constant pool.
use shell_sight.Common.{◌≡◌, inl, refl, arith, List, [], ◌∷◌, ◌++◌, length, All}
use shell_sight.Common.Result.{ok, err}
use shell_sight.Bytecode.Words.{Bytes, be_uint16}
use shell_sight.ClassReader.{ClassReader, read_bytes, remaining, u1, u2}
use shell_sight.ClassReader.Numbers.{rest_of, IsByteReader}
use shell_sight.Mutf8.Encode.{encode, rune_bytes, unit_bytes}
use shell_sight.Pool.{
  CpEntry, no_entry, no_unusable_slot, parse_constant_pool, parse_entries, parse_entry, next_entry,
  wide_entry, utf8, utf8_rune, cp_class, cp_long,
}
use shell_sight.Pool.Items.{
  Item, text, wide, one, IsItem, print_item, print_items, slots_of, layout,
}
use shell_sight.Pool.Exact.{parse_constant_pool-iff_items}

-- The text é, the class of that name and the long 42, and a byte behind them.
abbrev items : List Item
items = text (0xe9 ∷ []) ∷ one cp_class 1 ∷ wide cp_long 42 ∷ []

abbrev pool_bytes : Bytes
pool_bytes =
    0 ∷ 5 ∷ 1 ∷ 0 ∷ 2 ∷ 0xc3 ∷ 0xa9 ∷ 7 ∷ 0 ∷ 1 ∷ 5 ∷ 0 ∷ 0 ∷ 0 ∷ 0 ∷ 0 ∷ 0 ∷ 0 ∷ 42 ∷ 0xff ∷ []

abbrev pool_reader : ClassReader
pool_reader = record { bytes = pool_bytes; off = 0 }

abbrev pool : List CpEntry
pool =
    no_entry
    ∷ record { tag = 1; a = 0; b = 0; bits = 0; text = 0xc3 ∷ 0xa9 ∷ [] }
    ∷ record { tag = 7; a = 1; b = 0; bits = 0; text = [] }
    ∷ record { tag = 5; a = 0; b = 0; bits = 42; text = [] }
    ∷ no_entry
    ∷ []

pool_laid : pool ≡ no_entry ∷ layout items
unfolding layout slots_of utf8 utf8_rune
pool_laid = refl

pool_printed : pool_bytes ≡ 0 ∷ 5 ∷ print_items items ++ 0xff ∷ []
unfolding print_items print_item encode rune_bytes unit_bytes
pool_printed = refl

text_fits : length (encode (0xe9 ∷ [])) ≡ 2
unfolding encode rune_bytes unit_bytes
text_fits = refl

reader_good : IsByteReader pool_reader
reader_good = (omega arith, omega arith)

items_good : All IsItem items
unfolding IsItem
items_good =
    let fits = text_fits in
    (((ground arith, tt), omega arith), ((refl, omega arith), ((inl refl, omega arith), tt)))

parse_constant_pool-iff_items_example :
    (after : ClassReader) × (parse_constant_pool pool_reader ≡ ok (pool, after))
    × (rest_of after ≡ 0xff ∷ [])
parse_constant_pool-iff_items_example =
    (parse_constant_pool-iff_items pool_reader pool (0xff ∷ []) reader_good).1
      (items, items_good, pool_laid, omega arith, pool_printed)

-- A long in the last slot has no room.
cramped_run :
    parse_constant_pool
      (record { bytes = 0 ∷ 2 ∷ 5 ∷ 0 ∷ 0 ∷ 0 ∷ 0 ∷ 0 ∷ 0 ∷ 0 ∷ 42 ∷ []; off = 0 })
    ≡ err (no_unusable_slot 1 5)
unfolding parse_constant_pool parse_entries next_entry parse_entry wide_entry u1 u2 read_bytes
    remaining be_uint16
cramped_run = refl
