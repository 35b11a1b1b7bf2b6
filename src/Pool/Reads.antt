-- ===== src/Pool/Reads.antt =====
-- What one round of `parseConstantPool` reads.
use shell_sight.Common.{
  ℕ, suc, ◌≤◌, ◌<◌, ◌≡◌, ◌⊎◌, inl, inr, refl, sym, ap, ◌∙◌, subst, arith, true, List, [], ◌∷◌, ◌++◌,
  append_assoc, length,
}
use shell_sight.Common.Result.{ok, ◌>>=◌, >>=-eq-ok, map_err, map_err-eq-ok, ok_injective}
use shell_sight.Bytecode.Words.{Bytes}
use shell_sight.Mutf8.{decode_modified_utf8}
use shell_sight.Mutf8.Encode.{encode}
use shell_sight.Mutf8.Exact.{decode_modified_utf8-iff_encode}
use shell_sight.ClassReader.{ClassReader, read_bytes, u1, u2, u4, u8}
use shell_sight.ClassReader.Numbers.{
  rest_of, IsByteReader, Took, print1, print2, print4, print8, read_bytes_sound,
}
use shell_sight.ClassReader.Widths.{u1_sound, u2_sound, u4_sound, u8_sound}
use shell_sight.Pool.{
  CpEntry, in_entry, bad_text, text_entry, word_entry, wide_entry, one_entry, two_entry,
  handle_entry, has_one_index, has_two_indexes, parse_entry, next_entry, wide_slots, handle_slot,
  valid_kind, cp_utf8, cp_integer, cp_float, cp_long, cp_double, cp_method_handle,
}
use shell_sight.Pool.Items.{
  Item, text, number, wide, one, two, handle, IsItem, print_item, slots_of,
}

pub Took-append : (p q : Bytes) (r a b : ClassReader) → Took p r a → Took q a b → Took (p ++ q) r b
Took-append p q r a b (split, good) (split', good') =
    (split ∙ ap (λ l. p ++ l) split' ∙ sym (append_assoc p q (rest_of b)), good')

-- A constant was read from the bytes after its tag.
abbrev ReadsItem : ℕ → ℕ → ℕ → List CpEntry → ClassReader → ClassReader → Type 0
ReadsItem tag index count slots r after =
    (x : Item) × (body : Bytes) × IsItem x
    × (print_item x ≡ print1 tag ++ body)
    × (slots ≡ slots_of x)
    × Took body r after
    × ((length slots ≡ 1) ⊎ (length slots ≡ 2) × (suc index < count))

text_sound :
    (index count : ℕ) (r : ClassReader) (slots : List CpEntry) (after : ClassReader)
    → IsByteReader r
    → text_entry index r ≡ ok (slots, after)
    → ReadsItem cp_utf8 index count slots r after
unfolding text_entry print_item slots_of IsItem
text_sound index count r slots after good h =
    let ((size, r1), measured, h1) = >>=-eq-ok (map_err (in_entry index) (u2 r)) _ h in
    let ((payload, r2), read, h2) =
      >>=-eq-ok (map_err (in_entry index) (read_bytes size r1)) _ h1 in
    let (runes, decoded, h3) =
      >>=-eq-ok (map_err (bad_text index) (decode_modified_utf8 payload)) _ h2 in
    let (small, took1) = u2_sound r size r1 good (map_err-eq-ok _ _ measured) in
    let (long, bytes, took2) =
      read_bytes_sound size r1 payload r2 took1.1 (map_err-eq-ok _ _ read) in
    let (scalars, is) =
      (decode_modified_utf8-iff_encode payload runes bytes).0 (map_err-eq-ok _ _ decoded) in
    let pair = ok_injective h3 in
    let whole = Took-append (print2 size) payload r r1 r2 took1 took2 in
    let sized : size ≡ length (encode runes) = sym long ∙ ap length is in
    (
      text runes,
      print2 (length (encode runes)) ++ encode runes,
      (scalars, subst (λ n. n < 65_536) sized small),
      refl,
      sym (ap (λ q. q.0) pair),
      subst (λ a. Took (print2 (length (encode runes)) ++ encode runes) r a) (ap (λ q. q.1) pair)
          (subst (λ n. Took (print2 n ++ encode runes) r r2) sized
            (subst (λ b. Took (print2 size ++ b) r r2) is whole)),
      inl (sym (ap (λ q. length q.0) pair)),
    )

word_sound :
    (index count tag : ℕ) (r : ClassReader) (slots : List CpEntry) (after : ClassReader)
    → (tag ≡ cp_integer) ⊎ (tag ≡ cp_float)
    → IsByteReader r
    → word_entry index tag r ≡ ok (slots, after)
    → ReadsItem tag index count slots r after
unfolding word_entry print_item slots_of IsItem
word_sound index count tag r slots after kind good h =
    let ((bits, r1), read, h1) = >>=-eq-ok (map_err (in_entry index) (u4 r)) _ h in
    let (small, took) = u4_sound r bits r1 good (map_err-eq-ok _ _ read) in
    let pair = ok_injective h1 in
    (
      number tag bits,
      print4 bits,
      (kind, small),
      refl,
      sym (ap (λ q. q.0) pair),
      subst (λ a. Took (print4 bits) r a) (ap (λ q. q.1) pair) took,
      inl (sym (ap (λ q. length q.0) pair)),
    )

wide_sound :
    (index count tag : ℕ) (r : ClassReader) (slots : List CpEntry) (after : ClassReader)
    → (tag ≡ cp_long) ⊎ (tag ≡ cp_double)
    → IsByteReader r
    → suc index < count
    → (map_err (in_entry index) (u8 r) >>= wide_slots tag) ≡ ok (slots, after)
    → ReadsItem tag index count slots r after
unfolding print_item slots_of IsItem
wide_sound index count tag r slots after kind good room h =
    let ((bits, r1), read, h1) = >>=-eq-ok (map_err (in_entry index) (u8 r)) (wide_slots tag) h in
    let (small, took) = u8_sound r bits r1 good (map_err-eq-ok _ _ read) in
    let pair = ok_injective h1 in
    (
      wide tag bits,
      print8 bits,
      (kind, small),
      refl,
      sym (ap (λ q. q.0) pair),
      subst (λ a. Took (print8 bits) r a) (ap (λ q. q.1) pair) took,
      inr (sym (ap (λ q. length q.0) pair), room),
    )

one_sound :
    (index count tag : ℕ) (r : ClassReader) (slots : List CpEntry) (after : ClassReader)
    → has_one_index tag ≡ true
    → IsByteReader r
    → one_entry index tag r ≡ ok (slots, after)
    → ReadsItem tag index count slots r after
unfolding one_entry print_item slots_of IsItem
one_sound index count tag r slots after kind good h =
    let ((a, r1), read, h1) = >>=-eq-ok (map_err (in_entry index) (u2 r)) _ h in
    let (small, took) = u2_sound r a r1 good (map_err-eq-ok _ _ read) in
    let pair = ok_injective h1 in
    (
      one tag a,
      print2 a,
      (kind, small),
      refl,
      sym (ap (λ q. q.0) pair),
      subst (λ x. Took (print2 a) r x) (ap (λ q. q.1) pair) took,
      inl (sym (ap (λ q. length q.0) pair)),
    )

two_sound :
    (index count tag : ℕ) (r : ClassReader) (slots : List CpEntry) (after : ClassReader)
    → has_two_indexes tag ≡ true
    → IsByteReader r
    → two_entry index tag r ≡ ok (slots, after)
    → ReadsItem tag index count slots r after
unfolding two_entry print_item slots_of IsItem
two_sound index count tag r slots after kind good h =
    let ((a, r1), read1, h1) = >>=-eq-ok (map_err (in_entry index) (u2 r)) _ h in
    let ((b, r2), read2, h2) = >>=-eq-ok (map_err (in_entry index) (u2 r1)) _ h1 in
    let (small1, took1) = u2_sound r a r1 good (map_err-eq-ok _ _ read1) in
    let (small2, took2) = u2_sound r1 b r2 took1.1 (map_err-eq-ok _ _ read2) in
    let pair = ok_injective h2 in
    (
      two tag a b,
      print2 a ++ print2 b,
      (kind, small1, small2),
      refl,
      sym (ap (λ q. q.0) pair),
      subst (λ x. Took (print2 a ++ print2 b) r x) (ap (λ q. q.1) pair)
          (Took-append (print2 a) (print2 b) r r1 r2 took1 took2),
      inl (sym (ap (λ q. length q.0) pair)),
    )

kind_sound :
    (index kind b : ℕ) (r : ClassReader) (slots : List CpEntry) (after : ClassReader)
    → valid_kind index kind (b, r) ≡ ok (slots, after)
    → (1 ≤ kind) × (kind ≤ 9) × (handle_slot kind b ∷ [] ≡ slots) × (r ≡ after)
kind_sound index kind b r slots after h = ground arith

handle_sound :
    (index count : ℕ) (r : ClassReader) (slots : List CpEntry) (after : ClassReader)
    → IsByteReader r
    → handle_entry index r ≡ ok (slots, after)
    → ReadsItem cp_method_handle index count slots r after
unfolding handle_entry print_item slots_of IsItem
handle_sound index count r slots after good h =
    let ((kind, r1), read1, h1) = >>=-eq-ok (map_err (in_entry index) (u1 r)) _ h in
    let ((b, r2), read2, h2) =
      >>=-eq-ok (map_err (in_entry index) (u2 r1)) (valid_kind index kind) h1 in
    let (small1, took1) = u1_sound r kind r1 good (map_err-eq-ok _ _ read1) in
    let (small2, took2) = u2_sound r1 b r2 took1.1 (map_err-eq-ok _ _ read2) in
    let (low, high, same, same_after) = kind_sound index kind b r2 slots after h2 in
    (
      handle kind b,
      print1 kind ++ print2 b,
      (low, high, small2),
      refl,
      sym same,
      subst (λ x. Took (print1 kind ++ print2 b) r x) same_after
          (Took-append (print1 kind) (print2 b) r r1 r2 took1 took2),
      inl (sym (ap length same)),
    )

-- The ways in which a tag and its constant are read.
entry_cases :
    (index count tag : ℕ) (r : ClassReader) (slots : List CpEntry) (after : ClassReader)
    → parse_entry index count (tag, r) ≡ ok (slots, after)
    → (tag ≡ cp_utf8) × (text_entry index r ≡ ok (slots, after))
      ⊎ (((tag ≡ cp_integer) ⊎ (tag ≡ cp_float)) × (word_entry index tag r ≡ ok (slots, after))
          ⊎ (((tag ≡ cp_long) ⊎ (tag ≡ cp_double))
                × (wide_entry index count tag r ≡ ok (slots, after))
              ⊎ ((has_one_index tag ≡ true) × (one_entry index tag r ≡ ok (slots, after))
                  ⊎ ((has_two_indexes tag ≡ true) × (two_entry index tag r ≡ ok (slots, after))
                      ⊎ (tag ≡ cp_method_handle) × (handle_entry index r ≡ ok (slots, after))))))
unfolding parse_entry
entry_cases index count tag r slots after h = ground arith

wide_room :
    (index count tag : ℕ) (r : ClassReader) (slots : List CpEntry) (after : ClassReader)
    → wide_entry index count tag r ≡ ok (slots, after)
    → (suc index < count)
      × ((map_err (in_entry index) (u8 r) >>= wide_slots tag) ≡ ok (slots, after))
unfolding wide_entry
wide_room index count tag r slots after h = ground arith

entry_sound :
    (index count tag : ℕ) (r : ClassReader) (slots : List CpEntry) (after : ClassReader)
    → IsByteReader r
    → parse_entry index count (tag, r) ≡ ok (slots, after)
    → ReadsItem tag index count slots r after
entry_sound index count tag r slots after good h =
    elim (entry_cases index count tag r slots after h) [
      | inl (is, text_read) ↦
          subst (λ t. ReadsItem t index count slots r after) (sym is)
            (text_sound index count r slots after good text_read)
      | inr (inl (is, read)) ↦ word_sound index count tag r slots after is good read
      | inr (inr (inl (is, read))) ↦
          let (room, bits) = wide_room index count tag r slots after read in
          wide_sound index count tag r slots after is good room bits
      | inr (inr (inr (inl (is, read)))) ↦ one_sound index count tag r slots after is good read
      | inr (inr (inr (inr (inl (is, read))))) ↦
          two_sound index count tag r slots after is good read
      | inr (inr (inr (inr (inr (is, read))))) ↦
          subst (λ t. ReadsItem t index count slots r after) (sym is)
            (handle_sound index count r slots after good read)
    ]

pub next_sound :
    (index count : ℕ) (r : ClassReader) (slots : List CpEntry) (after : ClassReader)
    → IsByteReader r
    → next_entry index count r ≡ ok (slots, after)
    → (x : Item) × IsItem x
      × (slots ≡ slots_of x)
      × Took (print_item x) r after
      × ((length slots ≡ 1) ⊎ (length slots ≡ 2) × (suc index < count))
unfolding next_entry
next_sound index count r slots after good h =
    let ((tag, r1), read, h1) =
      >>=-eq-ok (map_err (in_entry index) (u1 r)) (parse_entry index count) h in
    let (small, took1) = u1_sound r tag r1 good (map_err-eq-ok _ _ read) in
    let (x, body, is, printed, same, took2, sizes) =
      entry_sound index count tag r1 slots after took1.1 h1 in
    (
      x,
      is,
      same,
      subst (λ p. Took p r after) (sym printed)
          (Took-append (print1 tag) body r r1 after took1 took2),
      sizes,
    )
