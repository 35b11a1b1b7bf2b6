-- ===== src/Descriptor/Objects.antt =====
-- Slices of the text, and `parseObject` on them.
use shell_sight.Common.{
  take-length, drop-length, ℕ, suc, ◌+◌, ◌-◌, ◌≤◌, ◌<◌, ◌≡◌, ◌≢◌, inl, inr, refl, sym, ap, ◌∙◌,
  Bool, true, false, [], ◌∷◌, ◌++◌, length, drop, drop-drop, arith, length-append, length-drop,
}
use shell_sight.Common.Result.{ok, >>=-eq-ok}
use shell_sight.Bytecode.Words.{Bytes}
use shell_sight.Descriptor.{DescriptorType, name_loop, close_object, parse_object, slice}
use shell_sight.Descriptor.Grammar.{IsName}
use shell_sight.Descriptor.Names.{name_loop_sound, name_loop_complete}

module _ (value : Bytes) where
  -- A piece of the text that stands at an index.
  pub slice-piece :
      (s more : Bytes) (i e : ℕ) → drop i value ≡ s ++ more → e ≡ i + length s → slice value i e ≡ s
  slice-piece s more i e at_i ends =
      let width : e - i ≡ length s = omega arith in
      unfold slice in rw (width, at_i) (take-length s more)

  pub drop-piece :
      (s more : Bytes) (i e : ℕ) → drop i value ≡ s ++ more → e ≡ i + length s → drop e value ≡ more
  drop-piece s more i e at_i ends =
      sym (drop-drop i (length s) e value ends) ∙ rw at_i (drop-length s more)

  pub length-piece :
      (s more : Bytes) (i : ℕ)
      → drop i value ≡ s ++ more
      → i ≤ length value
      → i + length s + length more ≡ length value
  length-piece s more i at_i inside =
      let total : length value - i ≡ length s + length more =
        sym (length-drop i value) ∙ ap length at_i ∙ length-append s more in
      omega arith

  abbrev object_type : Bytes → ℕ → Bool → ℕ → DescriptorType
  object_type name start array end = record {
    descriptor = slice value start end;
    object = name;
    width = 1;
    array = array;
    void = false;
  }

  close_object_complete :
      (start : ℕ) (array : Bool) (name_start part index : ℕ)
      → index < length value
      → name_start < index
      → part < index
      → close_object value start array name_start (part, index)
        ≡ ok (object_type (slice value name_start index) start array (suc index), suc index)
  unfolding close_object
  close_object_complete start array name_start part index h1 h2 h3 = ground arith

  close_object_sound :
      (start : ℕ) (array : Bool) (name_start part index : ℕ) (d : DescriptorType) (e : ℕ)
      → close_object value start array name_start (part, index) ≡ ok (d, e)
      → (index < length value)
        × (index ≢ part)
        × (e ≡ suc index)
        × (d ≡ object_type (slice value name_start index) start array (suc index))
  unfolding close_object
  close_object_sound start array name_start part index d e h = ground arith

  name_pos : (name : Bytes) → IsName true name → 0 < length name
  name_pos [] good = absurd (ground arith)
  name_pos (x ∷ name) good = omega arith

  pub parse_object_complete :
      (name after : Bytes) (start : ℕ) (array : Bool) (i : ℕ)
      → i ≤ length value
      → drop i value ≡ b'L' ∷ name ++ b';' ∷ after
      → IsName true name
      → parse_object value start array i
        ≡ ok (
          record {
            descriptor = slice value start (i + length name + 2);
            object = name;
            width = 1;
            array = array;
            void = false;
          },
          i + length name + 2,
        )
  unfolding parse_object
  parse_object_complete name after start array i inside at_i good =
      let at_name : drop (suc i) value ≡ name ++ b';' ∷ after =
        drop-piece (b'L' ∷ []) _ i (suc i) at_i (omega arith) in
      let (part, read, before) = name_loop_complete name after (suc i) (suc i) true refl good in
      let room = length-piece (b'L' ∷ name) (b';' ∷ after) i at_i inside in
      let named : slice value (suc i) (suc i + length name) ≡ name =
        slice-piece name (b';' ∷ after) (suc i) (suc i + length name) at_name refl in
      let closed =
        close_object_complete start array (suc i) part (suc i + length name) (omega arith)
          (omega (arith, name_pos name good)) before in
      let ends : suc (suc i + length name) ≡ i + length name + 2 = omega arith in
      rw (at_name, read) (rw (named, ends) at closed)

  pub parse_object_sound :
      (more : Bytes) (start : ℕ) (array : Bool) (i : ℕ) (d : DescriptorType) (e : ℕ)
      → i ≤ length value
      → drop i value ≡ b'L' ∷ more
      → parse_object value start array i ≡ ok (d, e)
      → (name after : Bytes) × (more ≡ name ++ b';' ∷ after)
        × IsName true name
        × (e ≡ i + length name + 2)
        × (d ≡ record {
          descriptor = slice value start e;
          object = name;
          width = 1;
          array = array;
          void = false;
        })
  unfolding parse_object
  parse_object_sound more start array i d e inside at_i h =
      let at_name : drop (suc i) value ≡ more =
        drop-piece (b'L' ∷ []) more i (suc i) at_i (omega arith) in
      let ((part, index), read, closed) =
        >>=-eq-ok (name_loop (drop (suc i) value) (suc i) (suc i))
          (close_object value start array (suc i)) h in
      let (inside', apart, ends, found) =
        close_object_sound start array (suc i) part index d e closed in
      let (name, rest, split, reached, before, end, good) =
        name_loop_sound more (suc i) (suc i) true part index refl (rw at_name at read) in
      elim end [
        | inl none_left ↦
            let room = length-piece (b'L' ∷ []) more i at_i inside in
            let name_ends : length more ≡ length name + length rest =
              ap length split ∙ length-append name rest in
            let empty : length rest ≡ 0 = ap length none_left in absurd (omega arith)
        | inr (after, stops) ↦
            let named : slice value (suc i) index ≡ name =
              slice-piece name rest (suc i) index (at_name ∙ split) reached in
            (
              name,
              after,
              split ∙ ap (λ r. name ++ r) stops,
              good (omega arith),
              omega arith,
              rw (found, named, ends) refl,
            )
      ]
