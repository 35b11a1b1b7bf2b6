-- ===== src/Descriptor/Reads.antt =====
-- What `parseType` has read, when it returns a type.
use shell_sight.Common.{
  Option, none, some, ℕ, zero, suc, ◌+◌, ◌≤◌, ◌≡◌, ◌≢◌, ◌⊎◌, inl, inr, refl, sym, ap, subst, ◌∙◌,
  Bool, true, false, [], ◌∷◌, ◌++◌, length, drop, arith, length-append, append_assoc,
}
use shell_sight.Common.Result.{ok, ◌>>=◌, >>=-eq-ok, ok_injective}
use shell_sight.Bytecode.Words.{Bytes}
use shell_sight.Descriptor.{
  DescriptorType, Parsed, slice, parse_object, skip_dimensions, array_component, array_type,
  parse_array, parse_byte, parse_type_deep, parse_type, max_jvm_array_dimensions,
}
use shell_sight.Descriptor.Grammar.{
  Scalar, FieldType, single, double, class, scalar, arrays, IsScalar, IsField, print_scalar,
  print_field, brackets, describe, describe_result, print_result, IsResult, class_name,
}
use shell_sight.Descriptor.Objects.{slice-piece, drop-piece, length-piece, parse_object_sound}
use shell_sight.Descriptor.Types.{
  ScalarAt, IsOpening, opening, byte_cases, skip_dimensions_sound, brackets-append, length-brackets,
  scalar_complete, array_complete, byte_array,
}

pub Bytes-cases : (s : Bytes) → (s ≡ []) ⊎ ((byte : ℕ) × (more : Bytes) × (s ≡ byte ∷ more))
Bytes-cases [] = inl refl
Bytes-cases (byte ∷ more) = inr (byte, more, refl)

module _ (value : Bytes) where
  -- A result that stands at an index, and the index after it.
  abbrev pub ResultAt : Bool → ℕ → DescriptorType → ℕ → Type 0
  ResultAt allow i t e =
      (r : Option FieldType) × (after : Bytes) × (drop i value ≡ print_result r ++ after)
      × IsResult r
      × (e ≡ i + length (print_result r))
      × (t ≡ describe_result r)
      × (r ≡ none → allow ≡ true)

  object_sound :
      (i : ℕ) (more : Bytes) (t : DescriptorType) (e : ℕ)
      → i ≤ length value
      → drop i value ≡ b'L' ∷ more
      → parse_object value i false i ≡ ok (t, e)
      → ScalarAt value i t e
  object_sound i more t e inside at_i h =
      let (name, after, split, good, ends, found) =
        parse_object_sound value more i false i t e inside at_i h in
      let placed : drop i value ≡ print_scalar (class name) ++ after =
        at_i ∙ ap (◌∷◌ b'L') (split ∙ sym (append_assoc name (b';' ∷ []) after)) in
      let reached : e ≡ i + length (print_scalar (class name)) =
        omega (arith, length-append name (b';' ∷ [])) in
      let sliced = slice-piece value (print_scalar (class name)) after i e placed reached in
      (class name, after, placed, good, reached, found ∙ rw sliced refl)

  scalar_sound :
      (rec : ℕ → Parsed) (allow : Bool) (i byte : ℕ) (more : Bytes) (t : DescriptorType) (e : ℕ)
      → i ≤ length value
      → drop i value ≡ byte ∷ more
      → parse_byte rec value allow i (byte ∷ more) ≡ ok (t, e)
      → (byte ≡ b'V') × (allow ≡ true) × (e ≡ suc i) × (t ≡ describe_result none)
        ⊎ ScalarAt value i t e
        ⊎ (byte ≡ b'[') × (parse_array rec value i ≡ ok (t, e))
  scalar_sound rec allow i byte more t e inside at_i h =
      let sliced : slice value i (suc i) ≡ byte ∷ [] =
        slice-piece value (byte ∷ []) more i (suc i) at_i (omega arith) in
      elim (byte_cases value rec allow i byte more t e h) [
        | inl void ↦ inl void
        | inr (inl (kind, ends, found)) ↦
            inr (inl (single byte, more, at_i, kind, omega arith, found ∙ rw sliced refl))
        | inr (inr (inl (kind, ends, found))) ↦
            inr (inl (double byte, more, at_i, kind, omega arith, found ∙ rw sliced refl))
        | inr (inr (inr (inl (letter, read)))) ↦
            inr (inl (object_sound i more t e inside (at_i ∙ ap (λ b. b ∷ more) letter) read))
        | inr (inr (inr (inr bracket))) ↦ inr (inr bracket)
      ]

  -- The call for the component of an array.
  inner_sound :
      (deeper i byte : ℕ) (more : Bytes) (t : DescriptorType) (e : ℕ)
      → i ≤ length value
      → drop i value ≡ byte ∷ more
      → byte ≢ b'['
      → parse_type_deep deeper value false i ≡ ok (t, e)
      → ScalarAt value i t e
  unfolding parse_type_deep
  inner_sound zero i byte more t e inside at_i plain h = cc
  inner_sound (suc deeper) i byte more t e inside at_i plain h =
      elim (scalar_sound (parse_type_deep deeper value false) false i byte more t e inside at_i
        (rw at_i at h)) [
          | inl (_, never, _, _) ↦ cc
          | inr (inl found) ↦ found
          | inr (inr (bracket, _)) ↦ absurd (plain bracket)
        ]

  component_cases :
      (rec : ℕ → Parsed) (i byte : ℕ) (more : Bytes) (t : DescriptorType) (e : ℕ)
      → array_component rec value (byte ∷ more) i ≡ ok (t, e)
      → (byte ≢ b'[')
        × ((byte ≡ b'L') × (parse_object value i false i ≡ ok (t, e)) ⊎ (rec i ≡ ok (t, e)))
  unfolding array_component
  component_cases rec i byte more t e h = ground arith

  component_sound :
      (deeper i : ℕ) (t : DescriptorType) (e : ℕ)
      → i ≤ length value
      → array_component (parse_type_deep deeper value false) value (drop i value) i ≡ ok (t, e)
      → ScalarAt value i t e
  component_sound deeper i t e inside h = elim (Bytes-cases (drop i value)) [
    | inl empty ↦ absurd (unfold array_component in cc (rw empty at h))
    | inr (byte, more, at_i) ↦
        let (plain, read) = component_cases _ i byte more t e (rw at_i at h) in
        elim read [
          | inl (letter, object) ↦
              object_sound i more t e inside (at_i ∙ ap (λ b. b ∷ more) letter) object
          | inr inner ↦ inner_sound deeper i byte more t e inside at_i plain inner
        ]
  ]

  brackets_placed :
      (n i : ℕ) (s : Bytes)
      → i ≤ length value
      → drop i value ≡ brackets n s
      → (drop (i + n) value ≡ s) × (i + n ≤ length value)
  brackets_placed n i s inside placed =
      let at_i = placed ∙ sym (brackets-append n [] s) in
      let printed = length-brackets n [] in
      let room = length-piece value (brackets n []) s i at_i inside in
      (drop-piece value (brackets n []) s i (i + n) at_i (omega arith), omega arith)

  -- The component of an array and the brackets before it.
  array_read :
      (n i : ℕ) (more after : Bytes) (s : Scalar)
      → drop i value ≡ b'[' ∷ more
      → drop i value ≡ brackets n (print_scalar s ++ after)
      → IsScalar s
      → (n ≡ 0) ⊎ (0 + n ≤ max_jvm_array_dimensions)
      → (m : ℕ) × (n ≡ suc m)
        × IsField (arrays m s)
        × (drop i value ≡ print_field (arrays m s) ++ after)
  unfolding brackets IsOpening
  array_read zero i more after s at_i placed good small =
      let (apart, _) = subst IsOpening (sym placed ∙ at_i) (opening s after good) in
      absurd (apart refl)
  array_read (suc m) i more after s at_i placed good small = (
    m,
    refl,
    (good, ground (arith, small)),
    placed ∙ sym (brackets-append (suc m) (print_scalar s) after),
  )

  array_sound :
      (deeper i : ℕ) (more : Bytes) (t : DescriptorType) (e : ℕ)
      → i ≤ length value
      → drop i value ≡ b'[' ∷ more
      → parse_array (parse_type_deep deeper value false) value i ≡ ok (t, e)
      → (f : FieldType) × (after : Bytes) × (drop i value ≡ print_field f ++ after)
        × IsField f
        × (e ≡ i + length (print_field f))
        × (t ≡ describe f)
  unfolding parse_array
  array_sound deeper i more t e inside at_i h =
      let (index, skipped, rest) =
        >>=-eq-ok (skip_dimensions (drop i value) 0 i)
          (λ index.
            array_component (parse_type_deep deeper value false) value (drop index value) index
            >>= array_type value i)
          h in
      let ((component, end), inner, built) =
        >>=-eq-ok
          (array_component (parse_type_deep deeper value false) value (drop index value) index)
          (array_type value i) rest in
      let (n, s, split, reached, small) = skip_dimensions_sound (drop i value) 0 i index skipped in
      let (at_index, inside') = brackets_placed n i s inside split in
      let (sc, after, at_scalar, good, reads, found) =
        component_sound deeper index component end (omega arith) inner in
      let same : s ≡ print_scalar sc ++ after = sym at_index ∙ rw (← reached) at_scalar in
      let (m, counted, field, placed) =
        array_read n i more after sc at_i (split ∙ ap (brackets n) same) good small in
      let printed = length-brackets m (print_scalar sc) in
      let ends : end ≡ i + length (print_field (arrays m sc)) = omega arith in
      let sliced = slice-piece value (print_field (arrays m sc)) after i end placed ends in
      let named : component.object ≡ class_name sc = ap (λ d. d.object) found in
      let pair = ok_injective built in
      let made : t ≡ describe (arrays m sc) = sym (ap (λ p. p.0) pair) ∙ rw (sliced, named) refl in
      (arrays m sc, after, placed, field, sym (ap (λ p. p.1) pair) ∙ ends, made)

  -- `parseType` reads a type of the grammar, or `V` where it may.
  pub parse_type_sound :
      (allow : Bool) (i : ℕ) (t : DescriptorType) (e : ℕ)
      → i ≤ length value
      → parse_type value allow i ≡ ok (t, e)
      → ResultAt allow i t e
  unfolding parse_type parse_type_deep
  parse_type_sound allow i t e inside h = elim (Bytes-cases (drop i value)) [
    | inl empty ↦ absurd (unfold parse_byte in cc (rw empty at h))
    | inr (byte, more, at_i) ↦
        elim (scalar_sound (parse_type_deep 1 value false) allow i byte more t e inside at_i
          (rw at_i at h)) [
            | inl (letter, allowed, ends, found) ↦ (
              none,
              more,
              at_i ∙ ap (λ b. b ∷ more) letter,
              tt,
              omega arith,
              found,
              λ void. allowed,
            )
            | inr (inl (s, after, placed, good, ends, found)) ↦
                (some (scalar s), after, placed, good, ends, found, λ void. cc)
            | inr (inr (bracket, read)) ↦
                let (f, after, placed, good, ends, found) =
                  array_sound 1 i more t e inside (at_i ∙ ap (λ b. b ∷ more) bracket) read in
                (some f, after, placed, good, ends, found, λ void. cc)
          ]
  ]

  -- And it reads each of them.
  pub parse_type_complete :
      (f : FieldType) (allow : Bool) (i : ℕ) (after : Bytes)
      → i ≤ length value
      → drop i value ≡ print_field f ++ after
      → IsField f
      → parse_type value allow i ≡ ok (describe f, i + length (print_field f))
  unfolding parse_type
  parse_type_complete (scalar s) allow i after inside at_i good =
      scalar_complete value s 1 allow i after inside at_i good
  parse_type_complete (arrays n s) allow i after inside at_i good =
      unfold parse_type_deep in
      rw at_i (
        byte_array value (parse_type_deep 1 value false) allow i _
        ∙ array_complete value n s 0 i after inside at_i good)

  pub parse_result_complete :
      (r : Option FieldType) (i : ℕ) (after : Bytes)
      → i ≤ length value
      → drop i value ≡ print_result r ++ after
      → IsResult r
      → parse_type value true i ≡ ok (describe_result r, i + length (print_result r))
  parse_result_complete none i after inside at_i good =
      let step : suc i ≡ i + 1 = omega arith in
      unfold parse_type parse_type_deep parse_byte in rw at_i (ground arith)
  parse_result_complete (some f) i after inside at_i good =
      parse_type_complete f true i after inside at_i good

  -- Where `V` may not stand, a field type is read.
  pub parse_field_sound :
      (i : ℕ) (t : DescriptorType) (e : ℕ)
      → i ≤ length value
      → parse_type value false i ≡ ok (t, e)
      → (f : FieldType) × (after : Bytes) × (drop i value ≡ print_field f ++ after)
        × IsField f
        × (e ≡ i + length (print_field f))
        × (t ≡ describe f)
  parse_field_sound i t e inside h =
      let (r, after, placed, good, ends, found, only) = parse_type_sound false i t e inside h in
      field_of r after placed good ends found only
    where
      field_of :
          (r : Option FieldType) (after : Bytes)
          → drop i value ≡ print_result r ++ after
          → IsResult r
          → e ≡ i + length (print_result r)
          → t ≡ describe_result r
          → (r ≡ none → false ≡ true)
          → (f : FieldType) × (after : Bytes) × (drop i value ≡ print_field f ++ after)
            × IsField f
            × (e ≡ i + length (print_field f))
            × (t ≡ describe f)
      field_of none after placed good ends found only = let never = only refl in cc
      field_of (some f) after placed good ends found only = (f, after, placed, good, ends, found)
