-- ===== src/Constants/Names.antt =====
-- The names and descriptors that the checks of references accept.
use shell_sight.Common.{
  ℕ, ◌≤◌, ◌≡◌, ◌≢◌, ◌↔◌, inl, inr, refl, sym, ap, ◌∙◌, Bool, true, false, [], ◌∷◌, length, ◌==◌,
  ==_iff, Bool-cases, if◌then◌else◌,
}
use shell_sight.Common.Result.{Result, ok, ◌>>=◌, >>=-eq-ok, map_err, map_err-eq-ok}
use shell_sight.Bytecode.Words.{Bytes}
use shell_sight.Descriptor.{
  DescriptorType, parse_field_descriptor, parse_method_descriptor, max_jvm_descriptor_bytes,
}
use shell_sight.Descriptor.Grammar.{
  IsName, Scalar, FieldType, scalar, arrays, IsField, print_field, describe, MethodType,
  describe_method,
}
use shell_sight.Descriptor.Fields.{parse_field_descriptor-iff_field}
use shell_sight.Descriptor.Methods.{parse_method_descriptor-iff_method}
use shell_sight.ClassNames.{validate_internal_class_name, validate_unqualified_name}
use shell_sight.ClassNames.Classes.{validate_internal_class_name-iff_grammar}
use shell_sight.ClassNames.Members.{IsMember, validate_unqualified_name-iff_member}
use shell_sight.Constants.{ReferenceError, Lookup, bad_name, bad_type}
use shell_sight.Constants.Validate.{
  Accepts, done, field_text, method_text, must_be_array, validate_class_constant_name,
}
use shell_sight.Constants.Spec.{IsFieldText, IsMethodText, IsClassConstant}
use shell_sight.Constants.Found.{then_ok}

-- A step and what follows it.
pub chain_iff :
    {A : Type 0} (m : Lookup A) (next : A → Accepts) {P Q : A → Type 0}
    → ((a : A) → (m ≡ ok a) ↔ P a)
    → ((a : A) → (next a ≡ ok tt) ↔ Q a)
    → ((m >>= next) ≡ ok tt) ↔ ((a : A) × P a × Q a)
chain_iff m next first second = (
  (λ h. let (a, got, rest) = >>=-eq-ok m next h in (a, (first a).0 got, (second a).0 rest)),
  λ (a, p, q). then_ok next ((first a).1 p) ((second a).1 q),
)

pub done_iff :
    {A : Type 0} (m : Lookup A) {P : A → Type 0}
    → ((a : A) → (m ≡ ok a) ↔ P a)
    → ((m >>= done) ≡ ok tt) ↔ ((a : A) × P a)
done_iff m first = (
  (λ h. let (a, got, rest) = >>=-eq-ok m done h in (a, (first a).0 got)),
  λ (a, p). then_ok done ((first a).1 p) refl,
)

pub wrap_iff :
    {D A : Type 0} (w : D → ReferenceError) (m : Result D A) (a : A)
    → (map_err w m ≡ ok a) ↔ (m ≡ ok a)
wrap_iff w m a = (map_err-eq-ok w m, λ h. ap (map_err w) h)

pub class_checked :
    (name : Bytes)
    → (map_err bad_name (validate_internal_class_name name) ≡ ok tt) ↔ IsName true name
class_checked name =
    let wrap = wrap_iff bad_name (validate_internal_class_name name) tt in
    let valid = validate_internal_class_name-iff_grammar name in
    ((λ h. valid.0 (wrap.0 h)), λ h. wrap.1 (valid.1 h))

pub member_checked :
    (name : Bytes) (method : Bool)
    → (map_err bad_name (validate_unqualified_name name method) ≡ ok tt) ↔ IsMember method name
member_checked name method =
    let wrap = wrap_iff bad_name (validate_unqualified_name name method) tt in
    let valid = validate_unqualified_name-iff_member name method in
    ((λ h. valid.0 (wrap.0 h)), λ h. wrap.1 (valid.1 h))

pub field_text_iff : (text : Bytes) → (field_text text ≡ ok tt) ↔ IsFieldText text
field_text_iff text = (
  (λ h.
      let (d, got, rest) = >>=-eq-ok (map_err bad_type (parse_field_descriptor text)) done h in
      let (f, is, good, short, _) =
        (parse_field_descriptor-iff_field text d).0 (map_err-eq-ok _ _ got) in
      (f, is, good, short)),
  λ (f, is, good, short).
      then_ok done
        (ap (map_err bad_type)
          ((parse_field_descriptor-iff_field text (describe f)).1 (f, is, good, short, refl)))
        refl,
)

pub method_parsed :
    (text : Bytes) (m : MethodType)
    → IsMethodText text m
    → map_err bad_type (parse_method_descriptor text) ≡ ok (describe_method m)
method_parsed text m (is, good, few, short) = ap (map_err bad_type) (
    (parse_method_descriptor-iff_method text (describe_method m)).1 (m, is, good, few, short, refl))

pub method_text_iff :
    (text : Bytes) → (method_text text ≡ ok tt) ↔ ((m : MethodType) × IsMethodText text m)
method_text_iff text = (
  (λ h.
      let (d, got, rest) = >>=-eq-ok (map_err bad_type (parse_method_descriptor text)) done h in
      let (m, is, good, few, short, _) =
        (parse_method_descriptor-iff_method text d).0 (map_err-eq-ok _ _ got) in
      (m, (is, good, few, short))),
  λ (m, is). then_ok done (method_parsed text m is) refl,
)

array_of :
    (text : Bytes) (d : DescriptorType) (f : FieldType)
    → text ≡ print_field f
    → IsField f
    → length text ≤ max_jvm_descriptor_bytes
    → d ≡ describe f
    → must_be_array d ≡ ok tt
    → IsClassConstant text
array_of text d (scalar s) is good short found is_array =
    cc (sym (ap must_be_array found) ∙ is_array)
array_of text d (arrays n s) is good short found is_array = inr (n, s, is, good, short)

array_found :
    (text : Bytes) (d : DescriptorType)
    → map_err bad_type (parse_field_descriptor text) ≡ ok d
    → must_be_array d ≡ ok tt
    → IsClassConstant text
array_found text d read is_array =
    let (f, is, good, short, found) =
      (parse_field_descriptor-iff_field text d).0 (map_err-eq-ok _ _ read) in
    array_of text d f is good short found is_array

array_read :
    (text : Bytes) (n : ℕ) (s : Scalar)
    → text ≡ print_field (arrays n s)
    → IsField (arrays n s)
    → length text ≤ max_jvm_descriptor_bytes
    → (map_err bad_type (parse_field_descriptor text) >>= must_be_array) ≡ ok tt
array_read text n s is good short =
    then_ok must_be_array
      (ap (map_err bad_type) (
        (parse_field_descriptor-iff_field text (describe (arrays n s))).1
          (arrays n s, is, good, short, refl)))
      refl

no_array :
    (text : Bytes) (n : ℕ) (s : Scalar) → text ≡ print_field (arrays n s) → IsName true text → ⊥
no_array [] n s is named = cc is
no_array (first ∷ more) n s is (a, b, c, d) = c (cc is)

without_bracket_iff :
    (text : Bytes)
    → ((n : ℕ) (s : Scalar) → text ≢ print_field (arrays n s))
    → (map_err bad_name (validate_internal_class_name text) ≡ ok tt) ↔ IsClassConstant text
without_bracket_iff text other = (
  (λ h. inl ((class_checked text).0 h)),
  λ named. elim named [
    | inl is ↦ (class_checked text).1 is
    | inr (n, s, is, good, short) ↦ absurd (other n s is)
  ],
)

pub validate_class_constant_name-iff_class :
    (text : Bytes) → (validate_class_constant_name text ≡ ok tt) ↔ IsClassConstant text
unfolding validate_class_constant_name
validate_class_constant_name-iff_class [] = without_bracket_iff [] (λ n s is. cc is)
validate_class_constant_name-iff_class (first ∷ more) = elim (Bool-cases (first == b'[')) [
  | inl yes_array ↦
      let same = chosen _ _ yes_array in
      (
        (λ h.
            let (d, read, is_array) =
              >>=-eq-ok (map_err bad_type (parse_field_descriptor (first ∷ more))) must_be_array
                (sym same ∙ h) in
            array_found (first ∷ more) d read is_array),
        λ named. same ∙ elim named [
          | inl (a, b, c, d) ↦ absurd (c ((==_iff first b'[').0 yes_array))
          | inr (n, s, is, good, short) ↦ array_read (first ∷ more) n s is good short
        ],
      )
  | inr no_bracket ↦
      let same = passed_over _ _ no_bracket in
      let other =
        without_bracket_iff (first ∷ more)
          (λ n s is. cc (sym ((==_iff first b'[').1 (cc is)) ∙ no_bracket)) in
      ((λ h. other.0 (sym same ∙ h)), λ named. same ∙ other.1 named)
]
  where
    chosen : {A : Type 0} (x y : A) {test : Bool} → test ≡ true → (if test then x else y) ≡ x
    chosen x y {test = true} h = refl
    chosen x y {test = false} h = cc h

    passed_over : {A : Type 0} (x y : A) {test : Bool} → test ≡ false → (if test then x else y) ≡ y
    passed_over x y {test = true} h = cc h
    passed_over x y {test = false} h = refl
