-- ===== src/ClassNames/Classes.antt =====
-- `validateInternalClassName` accepts the class names that descriptors have.
use shell_sight.Common.{
  ℕ, ◌+◌, ◌≤◌, ◌≡◌, ◌≢◌, ◌↔◌, inl, inr, refl, sym, ap, subst, arith, Bool, true, false, [], ◌∷◌,
  ◌++◌, length, length-append, ◌==◌, Bool-cases,
}
use shell_sight.Common.Result.{Result, ok, err, ◌>>=◌}
use shell_sight.Bytecode.Words.{Bytes}
use shell_sight.Descriptor.{max_jvm_descriptor_bytes, parse_field_descriptor}
use shell_sight.Descriptor.Grammar.{
  IsName, FieldType, IsField, print_field, describe, scalar, arrays, single, double, class,
}
use shell_sight.Descriptor.Fields.{parse_field_descriptor-iff_field}
use shell_sight.ClassNames.{NameError, class_name_loop, closed, validate_internal_class_name}

class_name_loop_iff :
    (name : Bytes) (begins : Bool) → (class_name_loop name begins ≡ ok false) ↔ IsName begins name
unfolding class_name_loop
class_name_loop_iff [] begins = ground arith
class_name_loop_iff (value ∷ more) begins =
    let after = class_name_loop_iff more true in
    let within = class_name_loop_iff more false in
    elim (Bool-cases (value == b'/')) [
      | inl slash ↦
          let is : value ≡ b'/' = ground arith in
          let starts : class_name_loop more (value == b'/') ≡ class_name_loop more true =
            ap (class_name_loop more) slash in
          ground arith
      | inr other ↦
          let not_slash : value ≢ b'/' = ground arith in
          let goes_on : class_name_loop more (value == b'/') ≡ class_name_loop more false =
            ap (class_name_loop more) other in
          ground arith
    ]

closes_iff : (m : Result NameError Bool) → ((m >>= closed) ≡ ok tt) ↔ (m ≡ ok false)
closes_iff (err e) = ((λ h. cc), λ h. cc)
closes_iff (ok true) = ((λ h. cc), λ h. cc)
closes_iff (ok false) = ((λ h. refl), λ h. refl)

pub validate_internal_class_name-iff_grammar :
    (name : Bytes) → (validate_internal_class_name name ≡ ok tt) ↔ IsName true name
unfolding validate_internal_class_name
validate_internal_class_name-iff_grammar [] = ground arith
validate_internal_class_name-iff_grammar (value ∷ more) =
    let loop = class_name_loop_iff (value ∷ more) true in
    let closes = closes_iff (class_name_loop (value ∷ more) true) in ground arith

too_long : (name : Bytes) (byte : ℕ) → b'L' ∷ name ++ b';' ∷ [] ≡ byte ∷ [] → ⊥
too_long name byte printed =
    let sizes = ap length printed in let size = length-append name (b';' ∷ []) in omega arith

-- The descriptor of a class, read as a type, is that of the class.
only_class :
    (name : Bytes) (f : FieldType)
    → IsField f
    → b'L' ∷ name ++ b';' ∷ [] ≡ print_field f
    → describe (scalar (class name)) ≡ describe f
    → IsName true name
only_class name (scalar (single byte)) is printed same = absurd (too_long name byte printed)
only_class name (scalar (double byte)) is printed same = absurd (too_long name byte printed)
only_class name (scalar (class found)) is printed same =
    subst (IsName true) (ap (λ d. d.object) (sym same)) is
only_class name (arrays n s) is printed same = cc printed

-- A text of at most 65533 bytes is accepted as the internal name of a class exactly when the field
-- descriptor `L`, the text, `;` is parsed, as one class with this text as its name.
pub validate_internal_class_name-iff_descriptor :
    (name : Bytes)
    → length name + 2 ≤ max_jvm_descriptor_bytes
    → (validate_internal_class_name name ≡ ok tt)
      ↔ (parse_field_descriptor (b'L' ∷ name ++ b';' ∷ []) ≡ ok (describe (scalar (class name))))
validate_internal_class_name-iff_descriptor name short =
    let value : Bytes = b'L' ∷ name ++ b';' ∷ [] in
    let size = length-append name (b';' ∷ []) in
    (
      (λ checked. (parse_field_descriptor-iff_field value (describe (scalar (class name)))).1 (
        scalar (class name),
        refl,
        (validate_internal_class_name-iff_grammar name).0 checked,
        omega arith,
        refl,
      )),
      λ parsed.
          let (f, printed, is, _, same) =
            (parse_field_descriptor-iff_field value (describe (scalar (class name)))).0 parsed in
          (validate_internal_class_name-iff_grammar name).1 (only_class name f is printed same),
    )
