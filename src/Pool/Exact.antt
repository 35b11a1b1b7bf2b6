-- ===== src/Pool/Exact.antt =====
-- What `parseConstantPool` accepts is a printed sequence of constants, laid out in the slots.
use shell_sight.Common.{
  ℕ, zero, suc, ◌+◌, ◌≤◌, ◌<◌, ◌≡◌, ◌⊎◌, ◌↔◌, inl, inr, refl, sym, ap, ◌∙◌, subst, arith, List, [],
  ◌∷◌, ◌++◌, append_assoc, append-nil, length, length-append, All,
}
use shell_sight.Common.Result.{
  ok, err, ◌>>=◌, >>=-eq-ok, map_err, map_err-eq-ok, ok_injective, Result-cases,
}
use shell_sight.Bytecode.Words.{Bytes}
use shell_sight.ClassReader.{ClassReader, u2}
use shell_sight.ClassReader.Numbers.{rest_of, IsByteReader, Took, print2}
use shell_sight.ClassReader.Widths.{u2_sound, u2_complete}
use shell_sight.Pool.{
  CpEntry, no_entry, PoolError, reading, next_entry, parse_entries, parse_counted,
  parse_constant_pool, out_of_fuel,
}
use shell_sight.Pool.Items.{
  Item, text, number, wide, one, two, handle, IsItem, print_item, print_items, slots_of, layout,
}
use shell_sight.Pool.Reads.{Took-append, next_sound}
use shell_sight.Pool.Finds.{Gives, next_finds}

-- What the loop reads from `index` on.
abbrev ReadsItems : ℕ → ℕ → List CpEntry → ClassReader → List CpEntry → ClassReader → Type 0
ReadsItems index count pool r out after =
    (items : List Item) × All IsItem items
    × (out ≡ pool ++ layout items)
    × Took (print_items items) r after
    × (index + length (layout items) ≡ count)

under_or_over : (index count : ℕ) → index ≤ count → (index ≡ count) ⊎ (index < count)
under_or_over index count below = omega arith

room :
    (index count size : ℕ)
    → index < count
    → (size ≡ 1) ⊎ (size ≡ 2) × (suc index < count)
    → index + size ≤ count
room index count size under sizes = omega arith

-- One round of the loop.
ends :
    (fuel index count : ℕ) (pool : List CpEntry) (r : ClassReader)
    → count ≤ index
    → parse_entries (suc fuel) index count pool r ≡ ok (pool, r)
unfolding parse_entries
ends fuel index count pool r over = ground arith

goes_on :
    (fuel index count : ℕ) (pool : List CpEntry) (r : ClassReader) (slots : List CpEntry)
    (after : ClassReader)
    → index < count
    → next_entry index count r ≡ ok (slots, after)
    → parse_entries (suc fuel) index count pool r
      ≡ parse_entries fuel (index + length slots) count (pool ++ slots) after
unfolding parse_entries
goes_on fuel index count pool r slots after under read = ground arith

fails :
    (fuel index count : ℕ) (pool : List CpEntry) (r : ClassReader) (e : PoolError)
    → index < count
    → next_entry index count r ≡ err e
    → parse_entries (suc fuel) index count pool r ≡ err e
unfolding parse_entries
fails fuel index count pool r e under read = ground arith

starves :
    (index count : ℕ) (pool : List CpEntry) (r : ClassReader)
    → parse_entries zero index count pool r ≡ err out_of_fuel
unfolding parse_entries
starves index count pool r = refl

parse_entries_sound :
    (fuel index count : ℕ) (pool : List CpEntry) (r : ClassReader) (out : List CpEntry)
    (after : ClassReader)
    → IsByteReader r
    → index ≤ count
    → parse_entries fuel index count pool r ≡ ok (out, after)
    → ReadsItems index count pool r out after
unfolding print_items layout
parse_entries_sound zero index count pool r out after good below h = cc (starves index count pool r)
parse_entries_sound (suc fuel) index count pool r out after good below h =
    elim (under_or_over index count below) [
      | inl same ↦
          let pair = ok_injective (sym (ends fuel index count pool r (omega arith)) ∙ h) in
          (
            [],
            tt,
            sym (ap (λ q. q.0) pair) ∙ sym (append-nil pool),
            subst (λ a. Took [] r a) (ap (λ q. q.1) pair) (refl, good),
            omega arith,
          )
      | inr under ↦ elim (Result-cases (next_entry index count r)) [
        | inr (e, failed) ↦ cc (fails fuel index count pool r e under failed)
        | inl ((slots, mid), read) ↦
            let (x, is, same, took, sizes) = next_sound index count r slots mid good read in
            let (xs, all, laid, took', reached) =
              parse_entries_sound fuel (index + length slots) count (pool ++ slots) mid out after
                took.1 (room index count (length slots) under sizes)
                (sym (goes_on fuel index count pool r slots mid under read) ∙ h) in
            (
              x ∷ xs,
              (is, all),
              laid ∙ append_assoc pool slots (layout xs) ∙ ap (λ s. pool ++ (s ++ layout xs)) same,
              Took-append (print_item x) (print_items xs) r mid after took took',
              let split = length-append (slots_of x) (layout xs) in
                  let size = ap length same in omega arith,
            )
      ]
    ]

counted :
    (count : ℕ) (r : ClassReader) (pool : List CpEntry) (after : ClassReader)
    → parse_counted (count, r) ≡ ok (pool, after)
    → (1 ≤ count) × (parse_entries count 1 count (no_entry ∷ []) r ≡ ok (pool, after))
counted count r pool after h = ground arith

parse_constant_pool_sound :
    (r : ClassReader) (pool : List CpEntry) (after : ClassReader)
    → IsByteReader r
    → parse_constant_pool r ≡ ok (pool, after)
    → (items : List Item) × All IsItem items
      × (pool ≡ no_entry ∷ layout items)
      × (length pool < 65_536)
      × Took (print2 (length pool) ++ print_items items) r after
unfolding parse_constant_pool
parse_constant_pool_sound r pool after good h =
    let ((count, r1), read, h1) = >>=-eq-ok (map_err reading (u2 r)) parse_counted h in
    let (small, took1) = u2_sound r count r1 good (map_err-eq-ok _ _ read) in
    let (positive, looped) = counted count r1 pool after h1 in
    let (items, all, laid, took2, reached) =
      parse_entries_sound count 1 count (no_entry ∷ []) r1 pool after took1.1 positive looped in
    let sized : count ≡ length pool = let size = ap length laid in omega arith in
    (
      items,
      all,
      laid,
      omega arith,
      subst (λ n. Took (print2 n ++ print_items items) r after) sized
          (Took-append (print2 count) (print_items items) r r1 after took1 took2),
    )

some_slot : (x : Item) → 1 ≤ length (slots_of x)
unfolding slots_of
some_slot (text runes) = omega arith
some_slot (number tag bits) = omega arith
some_slot (wide tag bits) = omega arith
some_slot (one tag a) = omega arith
some_slot (two tag a b) = omega arith
some_slot (handle kind b) = omega arith

parse_entries_complete :
    (items : List Item) (fuel index count : ℕ) (pool : List CpEntry) (r : ClassReader)
    (left : Bytes)
    → All IsItem items
    → index + length (layout items) ≡ count
    → suc count ≤ fuel + index
    → IsByteReader r
    → rest_of r ≡ print_items items ++ left
    → Gives (parse_entries fuel index count pool r) (pool ++ layout items) left
unfolding print_items layout
parse_entries_complete items zero index count pool r left all reached enough good split =
    absurd (omega arith)
parse_entries_complete [] (suc fuel) index count pool r left all reached enough good split = (
  r,
  ends fuel index count pool r (omega arith) ∙ ap (λ p. ok (p, r)) (sym (append-nil pool)),
  split,
  good,
)
parse_entries_complete (x ∷ xs) (suc fuel) index count pool r left (is, all) reached enough good
      split =
    let size = length-append (slots_of x) (layout xs) in
    let some = some_slot x in
    let (mid, read, behind, good') =
      next_finds x index count (print_items xs ++ left) r is (omega arith) good
        (split ∙ append_assoc (print_item x) (print_items xs) left) in
    let (after, read', behind', good'') =
      parse_entries_complete xs fuel (index + length (slots_of x)) count (pool ++ slots_of x) mid
        left all (omega arith) (omega arith) good' behind in
    (
      after,
      goes_on fuel index count pool r (slots_of x) mid (omega arith) read
          ∙ read'
          ∙ ap (λ p. ok (p, after)) (append_assoc pool (slots_of x) (layout xs)),
      behind',
      good'',
    )

parse_constant_pool_complete :
    (items : List Item) (r : ClassReader) (left : Bytes)
    → All IsItem items
    → suc (length (layout items)) < 65_536
    → IsByteReader r
    → rest_of r ≡ print2 (suc (length (layout items))) ++ print_items items ++ left
    → Gives (parse_constant_pool r) (no_entry ∷ layout items) left
unfolding parse_constant_pool
parse_constant_pool_complete items r left all small good split =
    let count : ℕ = suc (length (layout items)) in
    let (mid, read, behind, good') =
      u2_complete count small (print_items items ++ left) r good split in
    let (after, read', behind', good'') =
      parse_entries_complete items count 1 count (no_entry ∷ []) mid left all (omega arith)
        (omega arith) good' behind in
    (
      after,
      ap (λ m. map_err reading m >>= parse_counted) read ∙ counts count mid (omega arith) ∙ read',
      behind',
      good'',
    )
  where
    counts :
        (count : ℕ) (r : ClassReader)
        → 1 ≤ count
        → parse_counted (count, r) ≡ parse_entries count 1 count (no_entry ∷ []) r
    counts count r positive = ground arith

-- From a reader within its bytes, the constant pool is parsed exactly when the bytes left are a
-- count of slots and then constants of the class file format as they are printed, one behind the
-- other, that fill these slots. The pool is the unused slot 0 and the slots of the constants in
-- their order, a long or a double with an unusable slot behind it, and the reader stands behind
-- the last constant.
pub parse_constant_pool-iff_items :
    (r : ClassReader) (pool : List CpEntry) (left : Bytes)
    → IsByteReader r
    → ((after : ClassReader) × (parse_constant_pool r ≡ ok (pool, after)) × (rest_of after ≡ left))
      ↔ ((items : List Item) × All IsItem items
          × (pool ≡ no_entry ∷ layout items)
          × (length pool < 65_536)
          × (rest_of r ≡ print2 (length pool) ++ print_items items ++ left))
parse_constant_pool-iff_items r pool left good = (
  (λ (after, parsed, behind).
      let (items, all, laid, small, (split, _)) =
        parse_constant_pool_sound r pool after good parsed in
      (
        items,
        all,
        laid,
        small,
        split
            ∙ append_assoc (print2 (length pool)) (print_items items) (rest_of after)
            ∙ ap (λ l. print2 (length pool) ++ print_items items ++ l) behind,
      )),
  λ (items, all, laid, small, split).
      let size = ap length laid in
      let (after, parsed, behind, _) =
        parse_constant_pool_complete items r left all (omega arith) good
          (split ∙ ap (λ n. print2 n ++ print_items items ++ left) size) in
      (after, parsed ∙ ap (λ p. ok (p, after)) (sym laid), behind),
)
