-- ===== src/Descriptor/Fields.antt =====
-- Which texts the parser of field descriptors accepts.
use shell_sight.Common.{
  ℕ, ◌+◌, ◌≤◌, ◌<◌, ◌≡◌, ◌↔◌, inl, inr, refl, sym, ap, ◌∙◌, false, ◌||◌, [], ◌∷◌, ◌++◌, length,
  drop, arith, append-nil, ◌==◌, ltb, Bool-cases,
}
use shell_sight.Common.Result.{ok, >>=-eq-ok}
use shell_sight.Bytecode.Words.{Bytes}
use shell_sight.Descriptor.{
  DescriptorType, parse_type, parse_field_descriptor, at_end, max_jvm_descriptor_bytes,
}
use shell_sight.Descriptor.Grammar.{
  FieldType, scalar, arrays, single, double, class, IsField, print_field, describe,
}
use shell_sight.Descriptor.Objects.{length-piece}
use shell_sight.Descriptor.Reads.{parse_field_sound, parse_type_complete}

nothing_left : (s after : Bytes) → length s ≡ length s + length after → after ≡ []
nothing_left s [] same = refl
nothing_left s (x ∷ after) same = absurd (omega arith)

-- The text ends where the last piece of it ends.
pub last_piece :
    (value s after : Bytes) (i : ℕ)
    → i ≤ length value
    → drop i value ≡ s ++ after
    → i + length s ≡ length value
    → drop i value ≡ s
last_piece value s after i inside placed ends =
    let room = length-piece value s after i placed inside in
    placed ∙ ap (λ r. s ++ r) (nothing_left s after (omega arith)) ∙ append-nil s

pub field_length : (f : FieldType) → 0 < length (print_field f)
field_length (scalar (single byte)) = omega arith
field_length (scalar (double byte)) = omega arith
field_length (scalar (class name)) = omega arith
field_length (arrays n s) = omega arith

pub at_end_sound :
    (value : Bytes) (t d : DescriptorType) (e : ℕ)
    → at_end value (t, e) ≡ ok d
    → (e ≡ length value) × (t ≡ d)
unfolding at_end
at_end_sound value t d e h = ground arith

pub at_end_complete :
    (value : Bytes) (t : DescriptorType) (e : ℕ) → e ≡ length value → at_end value (t, e) ≡ ok t
unfolding at_end
at_end_complete value t e h = ground arith

parse_field_sound_all :
    (value : Bytes) (d : DescriptorType)
    → parse_field_descriptor value ≡ ok d
    → (f : FieldType) × (value ≡ print_field f)
      × IsField f
      × (length value ≤ max_jvm_descriptor_bytes)
      × (d ≡ describe f)
unfolding parse_field_descriptor
parse_field_sound_all value d h =
    elim (Bool-cases (length value == 0 || ltb max_jvm_descriptor_bytes (length value))) [
      | inl bad ↦ cc (rw (bad, parse_field_descriptor) at h)
      | inr good ↦
          let ((t, e), read, closed) =
            >>=-eq-ok (parse_type value false 0) (at_end value)
              (rw (good, parse_field_descriptor) at h) in
          let (ends, same) = at_end_sound value t d e closed in
          let (f, after, placed, field, reached, found) =
            parse_field_sound value 0 t e (omega arith) read in
          let whole = last_piece value (print_field f) after 0 (omega arith) placed (omega arith) in
          (f, whole, field, ground arith, sym same ∙ found)
    ]

-- A field descriptor is accepted exactly when it is the text of a field type of the class file
-- grammar with at most 65535 bytes, and the parser then returns that type's text, class name, width
-- in slots and array flag.
pub parse_field_descriptor-iff_field :
    (value : Bytes) (d : DescriptorType)
    → (parse_field_descriptor value ≡ ok d) ↔ (
        (f : FieldType) × (value ≡ print_field f)
        × IsField f
        × (length value ≤ max_jvm_descriptor_bytes)
        × (d ≡ describe f))
unfolding parse_field_descriptor
parse_field_descriptor-iff_field value d = (
  parse_field_sound_all value d,
  λ (f, is, good, short, found).
      let read =
        parse_type_complete value f false 0 [] (omega arith) (is ∙ sym (append-nil (print_field f)))
          good in
      let some_bytes = field_length f in
      let size : length value ≡ length (print_field f) = ap length is in
      let allowed : (length value == 0 || ltb max_jvm_descriptor_bytes (length value)) ≡ false =
        ground arith in
      let closed = at_end_complete value (describe f) (0 + length (print_field f)) (omega arith) in
      rw (allowed, read, closed, found, parse_field_descriptor) refl,
)
