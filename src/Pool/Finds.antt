-- ===== src/Pool/Finds.antt =====
-- A printed constant is read by one round of `parseConstantPool`.
use shell_sight.Common.{
  ℕ, suc, ◌+◌, ◌≤◌, ◌<◌, ◌≡◌, ◌⊎◌, refl, ap, ◌∙◌, subst, arith, true, List, [], ◌∷◌, ◌++◌, length,
  All,
}
use shell_sight.Common.Result.{ok, ◌>>=◌, map_err}
use shell_sight.Bytecode.Words.{Bytes}
use shell_sight.Mutf8.Encode.{encode, IsScalarValue, IsByte}
use shell_sight.Mutf8.Exact.{decode_modified_utf8-iff_encode}
use shell_sight.ClassReader.{ClassReader, u8}
use shell_sight.ClassReader.Numbers.{
  rest_of, IsByteReader, print1, print2, print4, print8, read_bytes_complete, All-before,
}
use shell_sight.ClassReader.Widths.{u1_complete, u2_complete, u4_complete, u8_complete}
use shell_sight.Pool.{
  CpEntry, Slots, in_entry, text_entry, word_entry, wide_entry, one_entry, two_entry, handle_entry,
  has_one_index, has_two_indexes, parse_entry, next_entry, cp_utf8, cp_integer, cp_float, cp_long,
  cp_double, cp_method_handle, wide_slots, handle_slot, valid_kind,
}
use shell_sight.Pool.Items.{
  Item, text, number, wide, one, two, handle, IsItem, print_item, slots_of,
}

-- A read gives these slots and leaves these bytes.
abbrev pub Gives : Slots → List CpEntry → Bytes → Type 0
Gives m slots left =
    (after : ClassReader) × (m ≡ ok (slots, after)) × (rest_of after ≡ left) × IsByteReader after

number_finds :
    (index tag bits : ℕ) (left : Bytes) (r : ClassReader)
    → bits < 4_294_967_296
    → IsByteReader r
    → rest_of r ≡ print4 bits ++ left
    → Gives (word_entry index tag r) (slots_of (number tag bits)) left
unfolding word_entry slots_of
number_finds index tag bits left r small good split =
    let (after, read, behind, good') = u4_complete bits small left r good split in
    (after, rw read refl, behind, good')

wide_finds :
    (index count tag bits : ℕ) (left : Bytes) (r : ClassReader)
    → bits < 18_446_744_073_709_551_616
    → suc index < count
    → IsByteReader r
    → rest_of r ≡ print8 bits ++ left
    → Gives (wide_entry index count tag r) (slots_of (wide tag bits)) left
unfolding slots_of
wide_finds index count tag bits left r small room good split =
    let (after, read, behind, good') = u8_complete bits small left r good split in
    (
      after,
      roomy index count tag r room ∙ ap (λ m. map_err (in_entry index) m >>= wide_slots tag) read,
      behind,
      good',
    )
  where
    roomy :
        (index count tag : ℕ) (r : ClassReader)
        → suc index < count
        → wide_entry index count tag r ≡ (map_err (in_entry index) (u8 r) >>= wide_slots tag)
    roomy index count tag r room = unfold wide_entry in ground arith

one_finds :
    (index tag a : ℕ) (left : Bytes) (r : ClassReader)
    → a < 65_536
    → IsByteReader r
    → rest_of r ≡ print2 a ++ left
    → Gives (one_entry index tag r) (slots_of (one tag a)) left
unfolding one_entry slots_of
one_finds index tag a left r small good split =
    let (after, read, behind, good') = u2_complete a small left r good split in
    (after, rw read refl, behind, good')

two_finds :
    (index tag a b : ℕ) (left : Bytes) (r : ClassReader)
    → a < 65_536
    → b < 65_536
    → IsByteReader r
    → rest_of r ≡ print2 a ++ print2 b ++ left
    → Gives (two_entry index tag r) (slots_of (two tag a b)) left
unfolding two_entry slots_of
two_finds index tag a b left r small1 small2 good split =
    let (mid, read1, behind1, good1) = u2_complete a small1 (print2 b ++ left) r good split in
    let (after, read2, behind2, good2) = u2_complete b small2 left mid good1 behind1 in
    (after, rw read1 (rw read2 refl), behind2, good2)

handle_finds :
    (index kind b : ℕ) (left : Bytes) (r : ClassReader)
    → 1 ≤ kind
    → kind ≤ 9
    → b < 65_536
    → IsByteReader r
    → rest_of r ≡ print1 kind ++ print2 b ++ left
    → Gives (handle_entry index r) (slots_of (handle kind b)) left
unfolding handle_entry slots_of
handle_finds index kind b left r low high small good split =
    let (mid, read1, behind1, good1) =
      u1_complete kind (omega arith) (print2 b ++ left) r good split in
    let (after, read2, behind2, good2) = u2_complete b small left mid good1 behind1 in
    (after, rw read1 (rw read2 (kinds index kind b after low high)), behind2, good2)
  where
    kinds :
        (index kind b : ℕ) (r : ClassReader)
        → 1 ≤ kind
        → kind ≤ 9
        → valid_kind index kind (b, r) ≡ ok (handle_slot kind b ∷ [], r)
    kinds index kind b r low high = ground arith

text_finds :
    (index : ℕ) (runes : List ℕ) (left : Bytes) (r : ClassReader)
    → All IsScalarValue runes
    → length (encode runes) < 65_536
    → All IsByte (encode runes)
    → IsByteReader r
    → rest_of r ≡ print2 (length (encode runes)) ++ encode runes ++ left
    → Gives (text_entry index r) (slots_of (text runes)) left
unfolding text_entry slots_of
text_finds index runes left r scalars short bytes good split =
    let (mid, read1, behind1, good1) =
      u2_complete (length (encode runes)) short (encode runes ++ left) r good split in
    let (after, read2, behind2, good2) =
      read_bytes_complete (encode runes) left mid good1 behind1 in
    let decoded = (decode_modified_utf8-iff_encode (encode runes) runes bytes).1 (scalars, refl) in
    (after, rw read1 (rw read2 (rw decoded refl)), behind2, good2)

-- After the tag, the switch chooses the read of the constant.
tagged :
    (index count tag : ℕ) (rest left : Bytes) (r : ClassReader) (slots : List CpEntry)
    → tag < 256
    → IsByteReader r
    → rest_of r ≡ print1 tag ++ rest
    → ((mid : ClassReader)
        → rest_of mid ≡ rest
        → IsByteReader mid
        → Gives (parse_entry index count (tag, mid)) slots left)
    → Gives (next_entry index count r) slots left
unfolding next_entry
tagged index count tag rest left r slots small good split then_read =
    let (mid, read, behind, good') = u1_complete tag small rest r good split in
    let (after, read', behind', good'') = then_read mid behind good' in
    (
      after,
      ap (λ m. map_err (in_entry index) m >>= parse_entry index count) read ∙ read',
      behind',
      good'',
    )

module _ (index count : ℕ) (r : ClassReader) where
  at_text : parse_entry index count (cp_utf8, r) ≡ text_entry index r
  at_text = unfold parse_entry in refl

  at_number :
      (tag : ℕ)
      → (tag ≡ cp_integer) ⊎ (tag ≡ cp_float)
      → parse_entry index count (tag, r) ≡ word_entry index tag r
  at_number tag is = unfold parse_entry in ground arith

  at_wide :
      (tag : ℕ)
      → (tag ≡ cp_long) ⊎ (tag ≡ cp_double)
      → parse_entry index count (tag, r) ≡ wide_entry index count tag r
  at_wide tag is = unfold parse_entry in ground arith

  at_one :
      (tag : ℕ)
      → has_one_index tag ≡ true
      → parse_entry index count (tag, r) ≡ one_entry index tag r
  at_one tag is = unfold parse_entry in ground arith

  at_two :
      (tag : ℕ)
      → has_two_indexes tag ≡ true
      → parse_entry index count (tag, r) ≡ two_entry index tag r
  at_two tag is = unfold parse_entry in ground arith

  at_handle : parse_entry index count (cp_method_handle, r) ≡ handle_entry index r
  at_handle = unfold parse_entry in refl

one_small : (tag : ℕ) → has_one_index tag ≡ true → tag < 256
one_small tag is = ground arith

two_small : (tag : ℕ) → has_two_indexes tag ≡ true → tag < 256
two_small tag is = ground arith

Gives-same :
    {m n : Slots} {slots : List CpEntry} {left : Bytes}
    → m ≡ n
    → Gives n slots left
    → Gives m slots left
Gives-same same (after, read, behind, good) = (after, same ∙ read, behind, good)

pub next_finds :
    (x : Item) (index count : ℕ) (left : Bytes) (r : ClassReader)
    → IsItem x
    → index + length (slots_of x) ≤ count
    → IsByteReader r
    → rest_of r ≡ print_item x ++ left
    → Gives (next_entry index count r) (slots_of x) left
unfolding IsItem print_item
next_finds (text runes) index count left r (scalars, short) room good split =
    tagged index count cp_utf8 (print2 (length (encode runes)) ++ encode runes ++ left) left r _
      (omega arith) good split
      λ mid behind good'. Gives-same (at_text index count mid) (
        text_finds index runes left mid scalars short
          (All-before (encode runes) left (subst (All IsByte) behind good'.1).1.1) good' behind)
next_finds (number tag bits) index count left r (is, small) room good split =
    tagged index count tag (print4 bits ++ left) left r _ (omega arith) good split
      λ mid behind good'.
        Gives-same (at_number index count mid tag is)
          (number_finds index tag bits left mid small good' behind)
next_finds (wide tag bits) index count left r (is, small) room good split =
    tagged index count tag (print8 bits ++ left) left r _ (omega arith) good split
      λ mid behind good'. Gives-same (at_wide index count mid tag is) (
        wide_finds index count tag bits left mid small (unfold slots_of in omega arith) good'
          behind)
next_finds (one tag a) index count left r (is, small) room good split =
    tagged index count tag (print2 a ++ left) left r _ (one_small tag is) good split
      λ mid behind good'.
        Gives-same (at_one index count mid tag is)
          (one_finds index tag a left mid small good' behind)
next_finds (two tag a b) index count left r (is, small1, small2) room good split =
    tagged index count tag (print2 a ++ print2 b ++ left) left r _ (two_small tag is) good split
      λ mid behind good'.
        Gives-same (at_two index count mid tag is)
          (two_finds index tag a b left mid small1 small2 good' behind)
next_finds (handle kind b) index count left r (low, high, small) room good split =
    tagged index count cp_method_handle (print1 kind ++ print2 b ++ left) left r _ (omega arith)
      good split
      λ mid behind good'.
        Gives-same (at_handle index count mid)
          (handle_finds index kind b left mid low high small good' behind)
