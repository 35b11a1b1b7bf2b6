-- ===== src/Constants/References.antt =====
-- The references that the checks accept.
use shell_sight.Common.{
  ℕ, ◌≡◌, ◌≢◌, ◌↔◌, ◌⊎◌, inl, inr, refl, sym, ap, ◌∙◌, subst, arith, Bool, true, false, ◌||◌, none,
  ◌==◌, ==_iff, Bool-cases, if◌then◌else◌,
}
use shell_sight.Common.Text.{same_bytes, same_bytes_iff}
use shell_sight.Common.Result.{ok, err, ◌>>=◌, >>=-eq-ok, map_err, map_err-eq-ok}
use shell_sight.Bytecode.Words.{Bytes}
use shell_sight.Descriptor.{parse_method_descriptor}
use shell_sight.Descriptor.Grammar.{MethodType, describe_method}
use shell_sight.Descriptor.Methods.{parse_method_descriptor-iff_method}
use shell_sight.ClassNames.{
  init_name, clinit_name, validate_internal_class_name, validate_unqualified_name,
}
use shell_sight.ClassNames.Members.{IsMember, special_not_member, void_iff}
use shell_sight.Pool.{cp_fieldref, cp_methodref}
use shell_sight.Constants.{
  MemberReference, InvokeDynamicReference, NameAndTypeReference, ReferenceError, bad_name, bad_type,
  dynamic_name,
}
use shell_sight.Constants.Validate.{
  Accepts, field_text, method_text, method_reference, owned_reference, validate_member_reference,
  validate_dynamic_constant, validate_invoke_dynamic_reference, dynamic_value,
}
use shell_sight.Constants.Spec.{IsFieldText, IsMethodText, IsReference, IsOrdinary}
use shell_sight.Constants.Found.{then_ok}
use shell_sight.Constants.Names.{
  chain_iff, class_checked, member_checked, field_text_iff, method_text_iff, method_parsed,
}

method_reference_iff :
    (tag : ℕ) (name : Bytes) (m : MethodType)
    → (method_reference tag name (describe_method m) ≡ ok tt)
      ↔ ((name ≡ init_name) × (tag ≡ cp_methodref) × (m.gives ≡ none) ⊎ IsMember true name)
method_reference_iff tag name m =
    let init = same_bytes_iff name init_name in
    let clinit = same_bytes_iff name clinit_name in
    let void = void_iff m in
    let member = member_checked name true in let apart = special_not_member name in ground arith

owned_field :
    (found : MemberReference)
    → (owned_reference cp_fieldref found tt ≡ ok tt)
      ↔ (IsMember false found.name × IsFieldText found.descriptor)
owned_field found =
    let chain =
      chain_iff (map_err bad_name (validate_unqualified_name found.name false))
        (λ named. field_text found.descriptor) (λ done. member_checked found.name false)
        (λ done. field_text_iff found.descriptor) in
    ((λ h. let (_, p, q) = chain.0 h in (p, q)), λ (p, q). chain.1 (tt, p, q))

owned_other :
    (tag : ℕ) (found : MemberReference)
    → tag ≢ cp_fieldref
    → (owned_reference tag found tt ≡ ok tt) ↔ (
        (m : MethodType) × IsMethodText found.descriptor m
        × ((found.name ≡ init_name) × (tag ≡ cp_methodref) × (m.gives ≡ none)
            ⊎ IsMember true found.name))
owned_other tag found other =
    let same = passed_field tag found other in
    (
      (λ h.
          let (d, got, rest) =
            >>=-eq-ok (map_err bad_type (parse_method_descriptor found.descriptor))
              (method_reference tag found.name) (sym same ∙ h) in
          let (m, is, good, few, short, described) =
            (parse_method_descriptor-iff_method found.descriptor d).0 (map_err-eq-ok _ _ got) in
          (
            m,
            (is, good, few, short),
            (method_reference_iff tag found.name m).0
                (sym (ap (method_reference tag found.name) described) ∙ rest),
          )),
      λ (m, is, named).
          same
          ∙ then_ok (method_reference tag found.name) (method_parsed found.descriptor m is)
              ((method_reference_iff tag found.name m).1 named),
    )
  where
    passed_field :
        (tag : ℕ) (found : MemberReference)
        → tag ≢ cp_fieldref
        → owned_reference tag found tt ≡ (
            map_err bad_type (parse_method_descriptor found.descriptor)
            >>= method_reference tag found.name)
    passed_field tag found other = ground arith

owned_iff :
    (tag : ℕ) (found : MemberReference)
    → (owned_reference tag found tt ≡ ok tt) ↔ (
        (tag ≡ cp_fieldref) × IsMember false found.name × IsFieldText found.descriptor
        ⊎ (tag ≢ cp_fieldref)
          × ((m : MethodType) × IsMethodText found.descriptor m
              × ((found.name ≡ init_name) × (tag ≡ cp_methodref) × (m.gives ≡ none)
                  ⊎ IsMember true found.name)))
owned_iff tag found = elim (Bool-cases (tag == cp_fieldref)) [
  | inl yes_field ↦
      let is = (==_iff tag cp_fieldref).0 yes_field in
      let field = owned_field found in
      (
        (λ h.
            let (named, typed) = field.0 (subst (λ t. owned_reference t found tt ≡ ok tt) is h) in
            inl (is, named, typed)),
        λ spec. elim spec [
          | inl (_, named, typed) ↦
              subst (λ t. owned_reference t found tt ≡ ok tt) (sym is) (field.1 (named, typed))
          | inr (other, more) ↦ absurd (other is)
        ],
      )
  | inr no_field ↦
      let other : tag ≢ cp_fieldref = (λ is. cc (sym ((==_iff tag cp_fieldref).1 is) ∙ no_field)) in
      let method = owned_other tag found other in
      (
        (λ h. inr (other, method.0 h)),
        λ spec. elim spec [
          | inl (is, named, typed) ↦ absurd (other is)
          | inr (_, more) ↦ method.1 more
        ],
      )
]

pub validate_member_reference-iff_reference :
    (tag : ℕ) (found : MemberReference)
    → (validate_member_reference tag found ≡ ok tt) ↔ IsReference tag found
unfolding validate_member_reference
validate_member_reference-iff_reference tag found =
    let chain =
      chain_iff (map_err bad_name (validate_internal_class_name found.owner))
        (owned_reference tag found) (λ done. class_checked found.owner)
        (λ done. owned_iff tag found) in
    ((λ h. let (_, p, q) = chain.0 h in (p, q)), λ (p, q). chain.1 (tt, p, q))

pub validate_invoke_dynamic_reference-iff_named :
    (found : InvokeDynamicReference)
    → (validate_invoke_dynamic_reference found ≡ ok tt)
      ↔ (IsMember true found.name × ((m : MethodType) × IsMethodText found.descriptor m))
unfolding validate_invoke_dynamic_reference
validate_invoke_dynamic_reference-iff_named found =
    let chain =
      chain_iff (map_err bad_name (validate_unqualified_name found.name true))
        (λ named. method_text found.descriptor) (λ done. member_checked found.name true)
        (λ done. method_text_iff found.descriptor) in
    ((λ h. let (_, p, q) = chain.0 h in (p, q)), λ (p, q). chain.1 (tt, p, q))

pub validate_dynamic_constant-iff_named :
    (bootstrap : ℕ) (found : NameAndTypeReference)
    → (validate_dynamic_constant (dynamic_value bootstrap found) ≡ ok tt)
      ↔ (IsOrdinary found.name × IsMember false found.name × IsFieldText found.descriptor)
unfolding validate_dynamic_constant
validate_dynamic_constant-iff_named bootstrap found =
    let init = same_bytes_iff found.name init_name in
    let clinit = same_bytes_iff found.name clinit_name in
    let chain =
      chain_iff (map_err bad_name (validate_unqualified_name found.name false))
        (λ named. field_text found.descriptor) (λ done. member_checked found.name false)
        (λ done. field_text_iff found.descriptor) in
    let tests =
      unless_either (same_bytes found.name init_name) (same_bytes found.name clinit_name)
        dynamic_name
        (map_err bad_name (validate_unqualified_name found.name false) >>= λ named.
          field_text found.descriptor) in
    (
      (λ h.
          let (no_init, no_clinit, rest) = tests.0 h in
          let (_, p, q) = chain.0 rest in
          ((λ is. cc (sym (init.1 is) ∙ no_init), λ is. cc (sym (clinit.1 is) ∙ no_clinit)), p, q)),
      λ (ordinary, p, q).
          tests.1 (not_true init ordinary.0, not_true clinit ordinary.1, chain.1 (tt, p, q)),
    )
  where
    not_true : {test : Bool} {P : Type 0} → (test ≡ true) ↔ P → (P → ⊥) → test ≡ false
    not_true {test = true} is no_p = absurd (no_p (is.0 refl))
    not_true {test = false} is no_p = refl

    unless_either :
        (first second : Bool) (e : ReferenceError) (rest : Accepts)
        → ((if first || second then err e else rest) ≡ ok tt)
          ↔ (first ≡ false) × (second ≡ false) × (rest ≡ ok tt)
    unless_either first second e rest = ground arith
