-- ===== src/Descriptor/Types.antt =====
-- `parseType` reads exactly the field types of the grammar.
use shell_sight.Common.{
  none, ℕ, zero, suc, ◌+◌, ◌≤◌, ◌≡◌, ◌≢◌, ◌⊎◌, inl, inr, refl, sym, ap, ◌∙◌, Bool, true, false, [],
  ◌∷◌, ◌++◌, length, drop, arith, length-append, append_assoc,
}
use shell_sight.Common.Result.{ok}
use shell_sight.Bytecode.Words.{Bytes}
use shell_sight.Descriptor.{
  DescriptorType, Parsed, slice, is_single, is_double, parse_object, skip_dimensions,
  array_component, parse_array, parse_byte, parse_type_deep, max_jvm_array_dimensions,
}
use shell_sight.Descriptor.Grammar.{
  Scalar, single, double, class, scalar, arrays, IsScalar, IsField, print_scalar, print_field,
  brackets, describe, describe_result,
}
use shell_sight.Descriptor.Objects.{slice-piece, drop-piece, length-piece, parse_object_complete}

pub brackets-append : (n : ℕ) (s after : Bytes) → brackets n s ++ after ≡ brackets n (s ++ after)
unfolding brackets
brackets-append zero s after = refl
brackets-append (suc n) s after = ap (◌∷◌ b'[') (brackets-append n s after)

pub length-brackets : (n : ℕ) (s : Bytes) → length (brackets n s) ≡ n + length s
unfolding brackets
length-brackets zero s = omega arith
length-brackets (suc n) s = omega (arith, length-brackets n s)

-- The first byte of a scalar.
unfoldable pub IsOpening : Bytes → Type 0
IsOpening [] = ⊥
IsOpening (byte ∷ more) = (byte ≢ b'[') × (byte ≢ b'V')

pub opening : (s : Scalar) (after : Bytes) → IsScalar s → IsOpening (print_scalar s ++ after)
unfolding IsOpening
opening (single byte) after good = ground arith
opening (double byte) after good = ground arith
opening (class name) after good = ground arith

skip_dimensions_complete :
    (n : ℕ) (s : Bytes) (dimensions i : ℕ)
    → IsOpening s
    → dimensions + n ≤ max_jvm_array_dimensions
    → skip_dimensions (brackets n s) dimensions i ≡ ok (i + n)
unfolding skip_dimensions brackets IsOpening
skip_dimensions_complete zero [] dimensions i opens few = elim opens [ ]
skip_dimensions_complete zero (byte ∷ more) dimensions i opens few = ground arith
skip_dimensions_complete (suc n) s dimensions i opens few =
    ground (arith, skip_dimensions_complete n s (suc dimensions) (suc i) opens (omega arith))

skip_dimensions-round :
    (byte : ℕ) (more : Bytes) (dimensions i e : ℕ)
    → skip_dimensions (byte ∷ more) dimensions i ≡ ok e
    → (byte ≡ b'[')
        × (suc dimensions ≤ max_jvm_array_dimensions)
        × (skip_dimensions more (suc dimensions) (suc i) ≡ ok e)
      ⊎ (i ≡ e)
unfolding skip_dimensions
skip_dimensions-round byte more dimensions i e h = ground arith

pub skip_dimensions_sound :
    (s : Bytes) (dimensions i e : ℕ)
    → skip_dimensions s dimensions i ≡ ok e
    → (n : ℕ) × (more : Bytes) × (s ≡ brackets n more)
      × (e ≡ i + n)
      × ((n ≡ 0) ⊎ (dimensions + n ≤ max_jvm_array_dimensions))
unfolding brackets
skip_dimensions_sound [] dimensions i e h =
    (0, [], refl, unfold skip_dimensions in ground arith, inl refl)
skip_dimensions_sound (byte ∷ more) dimensions i e h =
    elim (skip_dimensions-round byte more dimensions i e h) [
      | inl (bracket, few, rest) ↦
          let (n, s, split, ends, small) =
            skip_dimensions_sound more (suc dimensions) (suc i) e rest in
          (suc n, s, rw (bracket, split) refl, omega arith, inr (omega (arith, small, few)))
      | inr stop ↦ (0, byte ∷ more, refl, omega arith, inl refl)
    ]

module _ (value : Bytes) where
  -- What stands at an index, and what is read there.
  abbrev pub ScalarAt : ℕ → DescriptorType → ℕ → Type 0
  ScalarAt i t e =
      (s : Scalar) × (after : Bytes) × (drop i value ≡ print_scalar s ++ after)
      × IsScalar s
      × (e ≡ i + length (print_scalar s))
      × (t ≡ describe (scalar s))

  pub byte_cases :
      (rec : ℕ → Parsed) (allow : Bool) (i byte : ℕ) (more : Bytes) (t : DescriptorType) (e : ℕ)
      → parse_byte rec value allow i (byte ∷ more) ≡ ok (t, e)
      → (byte ≡ b'V') × (allow ≡ true) × (e ≡ suc i) × (t ≡ describe_result none)
        ⊎ (is_single byte ≡ true)
          × (e ≡ suc i)
          × (t ≡ record {
            descriptor = slice value i (suc i);
            object = [];
            width = 1;
            array = false;
            void = false;
          })
        ⊎ (is_double byte ≡ true)
          × (e ≡ suc i)
          × (t ≡ record {
            descriptor = slice value i (suc i);
            object = [];
            width = 2;
            array = false;
            void = false;
          })
        ⊎ (byte ≡ b'L') × (parse_object value i false i ≡ ok (t, e))
        ⊎ (byte ≡ b'[') × (parse_array rec value i ≡ ok (t, e))
  unfolding parse_byte
  byte_cases rec allow i byte more t e h = ground arith

  pub byte_class :
      (rec : ℕ → Parsed) (allow : Bool) (i : ℕ) (more : Bytes)
      → parse_byte rec value allow i (b'L' ∷ more) ≡ parse_object value i false i
  unfolding parse_byte
  byte_class rec allow i more = refl

  pub byte_array :
      (rec : ℕ → Parsed) (allow : Bool) (i : ℕ) (more : Bytes)
      → parse_byte rec value allow i (b'[' ∷ more) ≡ parse_array rec value i
  unfolding parse_byte
  byte_array rec allow i more = refl

  byte_scalar :
      (s : Scalar) (rec : ℕ → Parsed) (allow : Bool) (i : ℕ) (after : Bytes)
      → i ≤ length value
      → drop i value ≡ print_scalar s ++ after
      → IsScalar s
      → parse_byte rec value allow i (print_scalar s ++ after)
        ≡ ok (describe (scalar s), i + length (print_scalar s))
  byte_scalar (single byte) rec allow i after inside at_i good =
      let named = slice-piece value (byte ∷ []) after i (i + 1) at_i refl in
      unfold parse_byte in ground arith
  byte_scalar (double byte) rec allow i after inside at_i good =
      let named = slice-piece value (byte ∷ []) after i (i + 1) at_i refl in
      unfold parse_byte in ground arith
  byte_scalar (class name) rec allow i after inside at_i good =
      let at_i' = at_i ∙ ap (◌∷◌ b'L') (append_assoc name (b';' ∷ []) after) in
      let read = parse_object_complete value name after i false i inside at_i' good in
      let ends : length (print_scalar (class name)) ≡ length name + 2 =
        omega (arith, length-append name (b';' ∷ [])) in
      let sum : i + length name + 2 ≡ i + length (print_scalar (class name)) = omega arith in
      let sliced =
        slice-piece value (print_scalar (class name)) after i (i + length name + 2) at_i sum in
      byte_class rec allow i _ ∙ read ∙ rw (sliced, sum) refl

  pub scalar_complete :
      (s : Scalar) (deeper : ℕ) (allow : Bool) (i : ℕ) (after : Bytes)
      → i ≤ length value
      → drop i value ≡ print_scalar s ++ after
      → IsScalar s
      → parse_type_deep (suc deeper) value allow i
        ≡ ok (describe (scalar s), i + length (print_scalar s))
  unfolding parse_type_deep
  scalar_complete s deeper allow i after inside at_i good =
      rw at_i (byte_scalar s (parse_type_deep deeper value false) allow i after inside at_i good)

  component_complete :
      (s : Scalar) (deeper : ℕ) (i : ℕ) (after : Bytes)
      → i ≤ length value
      → drop i value ≡ print_scalar s ++ after
      → IsScalar s
      → array_component (parse_type_deep (suc deeper) value false) value (print_scalar s ++ after) i
        ≡ ok (describe (scalar s), i + length (print_scalar s))
  unfolding array_component
  component_complete (single byte) deeper i after inside at_i good =
      let read = scalar_complete (single byte) deeper false i after inside at_i good in ground arith
  component_complete (double byte) deeper i after inside at_i good =
      let read = scalar_complete (double byte) deeper false i after inside at_i good in ground arith
  component_complete (class name) deeper i after inside at_i good =
      sym (byte_class (parse_type_deep deeper value false) false i _)
      ∙ byte_scalar (class name) (parse_type_deep deeper value false) false i after inside at_i good

  pub array_complete :
      (n : ℕ) (s : Scalar) (deeper : ℕ) (i : ℕ) (after : Bytes)
      → i ≤ length value
      → drop i value ≡ print_field (arrays n s) ++ after
      → IsField (arrays n s)
      → parse_array (parse_type_deep (suc deeper) value false) value i
        ≡ ok (describe (arrays n s), i + length (print_field (arrays n s)))
  unfolding parse_array brackets
  array_complete n s deeper i after inside at_i (good, few) =
      let at_opening : drop i value ≡ brackets (suc n) (print_scalar s ++ after) =
        at_i ∙ brackets-append (suc n) (print_scalar s) after in
      let skipped =
        skip_dimensions_complete (suc n) (print_scalar s ++ after) 0 i (opening s after good)
          (omega arith) in
      let at_scalar : drop (i + suc n) value ≡ print_scalar s ++ after =
        drop-piece value (brackets (suc n) []) (print_scalar s ++ after) i (i + suc n)
          (at_opening ∙ sym (brackets-append (suc n) [] (print_scalar s ++ after)))
          (omega (arith, length-brackets (suc n) [])) in
      let room = length-piece value (print_field (arrays n s)) after i at_i inside in
      let printed = length-brackets n (print_scalar s) in
      let read = component_complete s deeper (i + suc n) after (omega arith) at_scalar good in
      let ends : i + suc n + length (print_scalar s) ≡ i + length (print_field (arrays n s)) =
        omega arith in
      let sliced =
        slice-piece value (print_field (arrays n s)) after i (i + length (print_field (arrays n s)))
          at_i refl in
      rw (at_opening, skipped, at_scalar, read, ends, sliced) refl
