-- ===== src/Pool/Items.antt =====
-- The constants that the class file format has, as they are printed, and the slots that they take.
use shell_sight.Common.{ℕ, ◌≤◌, ◌<◌, ◌≡◌, ◌⊎◌, true, List, [], ◌∷◌, ◌++◌, length, All}
use shell_sight.Bytecode.Words.{Bytes}
use shell_sight.ClassReader.Numbers.{print1, print2, print4, print8}
use shell_sight.Mutf8.Encode.{IsScalarValue, encode}
use shell_sight.Pool.{
  CpEntry, no_entry, has_one_index, has_two_indexes, utf8, cp_utf8, cp_method_handle, cp_integer,
  cp_float, cp_long, cp_double,
}

-- `number` has four bytes, `wide` eight; `one` and `two` hold indexes.
pub data Item : Type 0 where
  text : List ℕ → Item
  number wide : ℕ → ℕ → Item
  one : ℕ → ℕ → Item
  two : ℕ → ℕ → ℕ → Item
  handle : ℕ → ℕ → Item

unfoldable pub IsItem : Item → Type 0
IsItem (text runes) = All IsScalarValue runes × (length (encode runes) < 65_536)
IsItem (number tag bits) = ((tag ≡ cp_integer) ⊎ (tag ≡ cp_float)) × (bits < 4_294_967_296)
IsItem (wide tag bits) = ((tag ≡ cp_long) ⊎ (tag ≡ cp_double)) × (bits < 18_446_744_073_709_551_616)
IsItem (one tag a) = (has_one_index tag ≡ true) × (a < 65_536)
IsItem (two tag a b) = (has_two_indexes tag ≡ true) × (a < 65_536) × (b < 65_536)
IsItem (handle kind b) = (1 ≤ kind) × (kind ≤ 9) × (b < 65_536)

unfoldable pub print_item : Item → Bytes
print_item (text runes) = print1 cp_utf8 ++ print2 (length (encode runes)) ++ encode runes
print_item (number tag bits) = print1 tag ++ print4 bits
print_item (wide tag bits) = print1 tag ++ print8 bits
print_item (one tag a) = print1 tag ++ print2 a
print_item (two tag a b) = print1 tag ++ print2 a ++ print2 b
print_item (handle kind b) = print1 cp_method_handle ++ print1 kind ++ print2 b

abbrev plain : ℕ → ℕ → ℕ → CpEntry
plain tag a b = record { tag = tag; a = a; b = b; bits = 0; text = [] }

unfoldable pub slots_of : Item → List CpEntry
slots_of (text runes) = record { tag = cp_utf8; a = 0; b = 0; bits = 0; text = utf8 runes } ∷ []
slots_of (number tag bits) = record { tag = tag; a = 0; b = 0; bits = bits; text = [] } ∷ []
slots_of (wide tag bits) =
    record { tag = tag; a = 0; b = 0; bits = bits; text = [] } ∷ no_entry ∷ []
slots_of (one tag a) = plain tag a 0 ∷ []
slots_of (two tag a b) = plain tag a b ∷ []
slots_of (handle kind b) = plain cp_method_handle kind b ∷ []

unfoldable pub print_items : List Item → Bytes
print_items [] = []
print_items (x ∷ xs) = print_item x ++ print_items xs

unfoldable pub layout : List Item → List CpEntry
layout [] = []
layout (x ∷ xs) = slots_of x ++ layout xs
