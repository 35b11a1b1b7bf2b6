-- ===== src/Descriptor/Methods.antt =====
-- Which texts the parser of method descriptors accepts.
use shell_sight.Common.{
  Option, none, some, ℕ, suc, ◌+◌, ◌≤◌, ◌<◌, ◌≡◌, ◌↔◌, refl, sym, ap, subst, ◌∙◌, true, List, [],
  ◌∷◌, map, length, drop, arith, length-append, append-nil,
}
use shell_sight.Common.Result.{ok, ◌>>=◌, >>=-eq-ok, map_err-eq-ok, map_err, ok_injective}
use shell_sight.Bytecode.Words.{Bytes}
use shell_sight.Descriptor.{
  DescriptorType, MethodDescriptor, in_result, parse_type, parse_parameters, parse_result,
  parse_method_descriptor, at_end, method_descriptor, max_jvm_parameter_slots,
  max_jvm_descriptor_bytes,
}
use shell_sight.Descriptor.Grammar.{
  FieldType, MethodType, IsResult, IsMethod, print_field, print_fields, print_result, print_method,
  describe, describe_result, describe_method, slots,
}
use shell_sight.Descriptor.Objects.{length-piece}
use shell_sight.Descriptor.Reads.{parse_type_sound, parse_result_complete}
use shell_sight.Descriptor.Parameters.{parse_parameters_sound, parse_parameters_complete}
use shell_sight.Descriptor.Fields.{last_piece, field_length, at_end_sound, at_end_complete}

result_sound :
    (value : Bytes) (ps : List DescriptorType) (sl i : ℕ) (d : MethodDescriptor)
    → i ≤ length value
    → parse_result value (ps, sl, i) ≡ ok d
    → (r : Option FieldType) × (drop i value ≡ print_result r)
      × IsResult r
      × (d ≡ record { parameters = ps; result = describe_result r; parameter_slots = sl })
unfolding parse_result
result_sound value ps sl i d inside h =
    let (t, ended, built) =
      >>=-eq-ok (map_err in_result (parse_type value true i) >>= at_end value)
        (method_descriptor ps sl) h in
    let ((t', e), read, closed) =
      >>=-eq-ok (map_err in_result (parse_type value true i)) (at_end value) ended in
    let (ends, same) = at_end_sound value t' t e closed in
    let (r, after, placed, good, reached, found, _) =
      parse_type_sound value true i t' e inside (map_err-eq-ok in_result _ read) in
    (
      r,
      last_piece value (print_result r) after i inside placed (omega arith),
      good,
      rw (sym found ∙ same) (sym (ok_injective built)),
    )

result_complete :
    (value : Bytes) (ps : List DescriptorType) (sl i : ℕ) (r : Option FieldType)
    → i ≤ length value
    → drop i value ≡ print_result r
    → IsResult r
    → parse_result value (ps, sl, i)
      ≡ ok record { parameters = ps; result = describe_result r; parameter_slots = sl }
unfolding parse_result
result_complete value ps sl i r inside placed good =
    let at_i = placed ∙ sym (append-nil (print_result r)) in
    let read = parse_result_complete value r i [] inside at_i good in
    let room = length-piece value (print_result r) [] i at_i inside in
    let closed =
      at_end_complete value (describe_result r) (i + length (print_result r)) (omega arith) in
    rw (read, closed) refl

method_opens :
    (byte : ℕ) (more : Bytes) (d : MethodDescriptor)
    → parse_method_descriptor (byte ∷ more) ≡ ok d
    → (byte ≡ b'(')
      × (suc (length more) ≤ max_jvm_descriptor_bytes)
      × (parse_parameters (suc (length more)) (byte ∷ more) 1 0 [] >>= parse_result (byte ∷ more)
          ≡ ok d)
unfolding parse_method_descriptor
method_opens byte more d h = ground arith

whole_text :
    (byte : ℕ) (more : Bytes) (ts : List FieldType) (r : Option FieldType) (after : Bytes)
    → byte ≡ b'('
    → more ≡ print_fields ts (b')' ∷ after)
    → after ≡ print_result r
    → byte ∷ more ≡ print_method record { takes = ts; gives = r }
unfolding print_method
whole_text byte more ts r after opens placed ends = rw (opens, placed, ends) refl

described :
    (ts : List FieldType) (r : Option FieldType) (ps : List DescriptorType) (sl : ℕ)
    → ps ≡ map describe ts
    → sl ≡ 0 + slots ts
    → ◌≡◌ {A = MethodDescriptor}
        record { parameters = ps; result = describe_result r; parameter_slots = sl }
        (describe_method record { takes = ts; gives = r })
unfolding describe_method
described ts r ps sl listed sum = let total : sl ≡ slots ts = omega arith in rw (listed, total) refl

length-print_fields :
    (ts : List FieldType) (after : Bytes)
    → length ts + length after ≤ length (print_fields ts after)
unfolding print_fields
length-print_fields [] after = omega arith
length-print_fields (t ∷ ts) after =
    let some_bytes = field_length t in
    omega
      (arith, length-print_fields ts after, length-append (print_field t) (print_fields ts after))

result_length : (r : Option FieldType) → 0 < length (print_result r)
result_length none = omega arith
result_length (some f) = field_length f

method_accepts :
    (more : Bytes)
    → 2 ≤ length more
    → suc (length more) ≤ max_jvm_descriptor_bytes
    → parse_method_descriptor (b'(' ∷ more)
      ≡ (parse_parameters (suc (length more)) (b'(' ∷ more) 1 0 [] >>= parse_result (b'(' ∷ more))
unfolding parse_method_descriptor
method_accepts more long short = ground arith

parse_method_complete :
    (m : MethodType)
    → IsMethod m
    → slots m.takes ≤ max_jvm_parameter_slots
    → length (print_method m) ≤ max_jvm_descriptor_bytes
    → parse_method_descriptor (print_method m) ≡ ok (describe_method m)
unfolding print_method IsMethod describe_method
parse_method_complete m (good, result_good) few short =
    let after = print_result m.gives in
    let more = print_fields m.takes (b')' ∷ after) in
    let long = length-print_fields m.takes (b')' ∷ after) in
    let one = result_length m.gives in
    let (e, read, left, inside) =
      parse_parameters_complete (b'(' ∷ more) m.takes (suc (length more)) 1 0 [] after (omega arith)
        refl good (omega arith) (omega arith) in
    let ends =
      result_complete (b'(' ∷ more) (map describe m.takes) (0 + slots m.takes) e m.gives inside left
        result_good in
    let total : 0 + slots m.takes ≡ slots m.takes = omega arith in
    method_accepts more (omega arith) (omega arith) ∙ rw read (ends ∙ rw total refl)

parse_method_sound :
    (value : Bytes) (d : MethodDescriptor)
    → parse_method_descriptor value ≡ ok d
    → (m : MethodType) × (value ≡ print_method m)
      × IsMethod m
      × (slots m.takes ≤ max_jvm_parameter_slots)
      × (length value ≤ max_jvm_descriptor_bytes)
      × (d ≡ describe_method m)
parse_method_sound [] d h = unfold parse_method_descriptor in cc
parse_method_sound (byte ∷ more) d h =
    let value = byte ∷ more in
    let (opens, short, chain) = method_opens byte more d h in
    let ((ps, sl, e), read, rest) =
      >>=-eq-ok (parse_parameters (length value) value 1 0 []) (parse_result value) chain in
    let (ts, after, placed, good, listed, sum, few, left, inside) =
      parse_parameters_sound value (length value) 1 0 [] ps sl e (omega arith) (omega arith) read in
    let (r, ends, result_good, found) = result_sound value ps sl e d inside rest in
    let m : MethodType = record { takes = ts; gives = r } in
    (
      m,
      whole_text byte more ts r after opens placed (sym left ∙ ends),
      unfold IsMethod in (good, result_good),
      omega arith,
      short,
      found ∙ described ts r ps sl listed sum,
    )

-- A method descriptor is accepted exactly when it is the text of a method type of the class file
-- grammar with at most 255 parameter slots and at most 65535 bytes, and the parser then returns the
-- descriptions of its parameters, in order, and of its result, and the sum of the slots.
pub parse_method_descriptor-iff_method :
    (value : Bytes) (d : MethodDescriptor)
    → (parse_method_descriptor value ≡ ok d) ↔ (
        (m : MethodType) × (value ≡ print_method m)
        × IsMethod m
        × (slots m.takes ≤ max_jvm_parameter_slots)
        × (length value ≤ max_jvm_descriptor_bytes)
        × (d ≡ describe_method m))
parse_method_descriptor-iff_method value d = (
  parse_method_sound value d,
  λ (m, is, good, few, short, found).
      ap parse_method_descriptor is
      ∙ parse_method_complete m good few (subst (λ v. length v ≤ max_jvm_descriptor_bytes) is short)
      ∙ ap ok (sym found),
)
