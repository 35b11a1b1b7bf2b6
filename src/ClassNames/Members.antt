-- ===== src/ClassNames/Members.antt =====
-- The names, descriptors and flags that methods have.
use shell_sight.Common.{
  ℕ, ◌*◌, ◌%◌, ◌≤◌, ◌≡◌, ◌≢◌, ◌⊎◌, ◌↔◌, inl, inr, refl, sym, ap, ◌∙◌, subst, arith, Bool, true,
  false, not, ◌&&◌, ◌||◌, if◌then◌else◌, [], ◌∷◌, length, All, Option, or_iff, none, some,
}
use shell_sight.Common.Text.{same_bytes, same_bytes_iff}
use shell_sight.Common.Result.{ok, err, ◌>>=◌, >>=-eq-ok, map_err, map_err-eq-ok}
use shell_sight.Bytecode.Words.{Bytes}
use shell_sight.Descriptor.{
  max_jvm_descriptor_bytes, max_jvm_parameter_slots, parse_method_descriptor,
}
use shell_sight.Descriptor.Grammar.{
  MethodType, IsMethod, print_method, describe_method, describe_result, slots, FieldType, scalar,
  arrays,
}
use shell_sight.Descriptor.Methods.{parse_method_descriptor-iff_method}
use shell_sight.ClassNames.{
  NameError, invalid_member_byte, incompatible_flags, bad_constructor, bad_class_initializer,
  Checked, is_bad_byte, member_name_loop, validate_unqualified_name, has_incompatible_flags,
  is_static, has_flag, init_name, clinit_name, void_descriptor, check_method, bad_descriptor,
  validate_method_name_and_descriptor,
}

-- The bytes of an unqualified name: no `.`, `;`, `[` and `/`, and in that of a method no `<` and `>`.
abbrev pub IsNameByte : Bool → ℕ → Type 0
IsNameByte method value =
    (value ≢ b'.')
    × (value ≢ b';')
    × (value ≢ b'[')
    × (value ≢ b'/')
    × ((method ≡ false) ⊎ (value ≢ b'<') × (value ≢ b'>'))

abbrev pub IsMember : Bool → Bytes → Type 0
IsMember method name = (name ≢ []) × All (IsNameByte method) name

IsNameByte-iff :
    (method : Bool) (value : ℕ) → (is_bad_byte method value ≡ false) ↔ IsNameByte method value
IsNameByte-iff true value = ground arith
IsNameByte-iff false value = ground arith

unless_iff :
    (test : Bool) (e : NameError) (rest : Checked)
    → ((if test then err e else rest) ≡ ok tt) ↔ (test ≡ false) × (rest ≡ ok tt)
unless_iff true e rest = ((λ h. cc), λ (h, k). cc)
unless_iff false e rest = ((λ h. (refl, h)), λ (h, k). k)

member_name_loop_iff :
    (name : Bytes) (method : Bool)
    → (member_name_loop name method ≡ ok tt) ↔ All (IsNameByte method) name
unfolding member_name_loop
member_name_loop_iff [] method = ((λ h. tt), λ h. refl)
member_name_loop_iff (value ∷ more) method =
    let rest = member_name_loop_iff more method in
    let one =
      unless_iff (is_bad_byte method value) (invalid_member_byte value)
        (member_name_loop more method) in
    (
      (λ h.
          let (good, then_ok) = one.0 h in ((IsNameByte-iff method value).0 good, rest.0 then_ok)),
      λ (good, all). one.1 ((IsNameByte-iff method value).1 good, rest.1 all),
    )

pub validate_unqualified_name-iff_member :
    (name : Bytes) (method : Bool)
    → (validate_unqualified_name name method ≡ ok tt) ↔ IsMember method name
unfolding validate_unqualified_name
validate_unqualified_name-iff_member [] method = ((λ h. cc), λ (any, all). absurd (any refl))
validate_unqualified_name-iff_member (value ∷ more) method =
    let loop = member_name_loop_iff (value ∷ more) method in
    ((λ h. ((λ e. cc), loop.0 h)), λ (any, all). loop.1 all)

-- The bit of this weight is set.
abbrev pub HasBit : ℕ → ℕ → Type 0
HasBit weight access = weight ≤ access % (2 * weight)

-- Abstract, and private, static, final, synchronized, native or strict.
abbrev pub IsClash : ℕ → Type 0
IsClash access =
    HasBit 0x0400 access
    × (HasBit 0x0002 access
        ⊎ (HasBit 0x0008 access
            ⊎ (HasBit 0x0010 access
                ⊎ (HasBit 0x0020 access ⊎ (HasBit 0x0100 access ⊎ HasBit 0x0800 access)))))

bit_0002 : (access : ℕ) → (has_flag access 0x0002 ≡ true) ↔ HasBit 0x0002 access
bit_0002 access = ground arith

bit_0008 : (access : ℕ) → (has_flag access 0x0008 ≡ true) ↔ HasBit 0x0008 access
bit_0008 access = ground arith

bit_0010 : (access : ℕ) → (has_flag access 0x0010 ≡ true) ↔ HasBit 0x0010 access
bit_0010 access = ground arith

bit_0020 : (access : ℕ) → (has_flag access 0x0020 ≡ true) ↔ HasBit 0x0020 access
bit_0020 access = ground arith

bit_0100 : (access : ℕ) → (has_flag access 0x0100 ≡ true) ↔ HasBit 0x0100 access
bit_0100 access = ground arith

bit_0800 : (access : ℕ) → (has_flag access 0x0800 ≡ true) ↔ HasBit 0x0800 access
bit_0800 access = ground arith

any_iff :
    (a b c d e f g : Bool)
    → ((a && (b || c || d || e || f || g)) ≡ false) ↔ (
        (a ≡ true)
          × ((b ≡ true) ⊎ ((c ≡ true) ⊎ ((d ≡ true) ⊎ ((e ≡ true) ⊎ ((f ≡ true) ⊎ (g ≡ true))))))
        → ⊥)
any_iff a b c d e f g = ground arith

IsClash-iff : (access : ℕ) → (has_incompatible_flags access ≡ false) ↔ (IsClash access → ⊥)
IsClash-iff access =
    let tests =
      any_iff (has_flag access 0x0400) (has_flag access 0x0002) (has_flag access 0x0008)
        (has_flag access 0x0010) (has_flag access 0x0020) (has_flag access 0x0100)
        (has_flag access 0x0800) in
    let abstract_bit : (has_flag access 0x0400 ≡ true) ↔ HasBit 0x0400 access = ground arith in
    let others = or_iff (bit_0002 access) (
      or_iff (bit_0008 access) (
        or_iff (bit_0010 access)
          (or_iff (bit_0020 access) (or_iff (bit_0100 access) (bit_0800 access))))) in
    (
      (λ free (high, more). tests.0 free (abstract_bit.1 high, others.1 more)),
      λ apart. tests.1 (λ (high, more). apart (abstract_bit.0 high, others.0 more)),
    )

-- What a method may be called, with these flags and this descriptor.
abbrev pub IsMethodName : Bytes → Bytes → ℕ → MethodType → Type 0
IsMethodName name descriptor access m =
    (name ≡ init_name) × (HasBit 0x0008 access → ⊥) × (m.gives ≡ none)
    ⊎ ((name ≡ clinit_name) × HasBit 0x0008 access × (descriptor ≡ void_descriptor)
        ⊎ IsMember true name)

choice_iff :
    (flags init clinit static void empty : Bool) (e1 e2 e3 : NameError) (rest : Checked)
    → ((if flags
          then err e1
          else if init
          then if static || not void then err e2 else ok tt
          else if clinit
          then if not static || not empty then err e3 else ok tt
          else rest)
        ≡ ok tt)
      ↔ (flags ≡ false)
        × ((init ≡ true) × (static ≡ false) × (void ≡ true)
            ⊎ ((init ≡ false) × (clinit ≡ true) × (static ≡ true) × (empty ≡ true)
                ⊎ (init ≡ false) × (clinit ≡ false) × (rest ≡ ok tt)))
choice_iff flags init clinit static void empty e1 e2 e3 rest = ground arith

pub special_not_member :
    (name : Bytes) → (name ≡ init_name) ⊎ (name ≡ clinit_name) → IsMember true name → ⊥
special_not_member name (inl is) (any, all) =
    let ((_, _, _, _, angle), more) = subst (All (IsNameByte true)) is all in
    elim angle [ inl no_method ↦ cc no_method | inr (open_angle, _) ↦ absurd (open_angle refl) ]
special_not_member name (inr is) (any, all) =
    let ((_, _, _, _, angle), more) = subst (All (IsNameByte true)) is all in
    elim angle [ inl no_method ↦ cc no_method | inr (open_angle, _) ↦ absurd (open_angle refl) ]

void_result_iff : (r : Option FieldType) → ((describe_result r).void ≡ true) ↔ (r ≡ none)
void_result_iff none = ((λ h. refl), λ h. refl)
void_result_iff (some (scalar s)) = ((λ h. cc), λ h. cc)
void_result_iff (some (arrays n s)) = ((λ h. cc), λ h. cc)

pub void_iff : (m : MethodType) → ((describe_method m).result.void ≡ true) ↔ (m.gives ≡ none)
unfolding describe_method
void_iff m = void_result_iff m.gives

check_method_iff :
    (name descriptor : Bytes) (access : ℕ) (m : MethodType)
    → (check_method name descriptor access (describe_method m) ≡ ok tt)
      ↔ (IsClash access → ⊥) × IsMethodName name descriptor access m
unfolding check_method
check_method_iff name descriptor access m =
    let choice =
      choice_iff (has_incompatible_flags access) (same_bytes name init_name)
        (same_bytes name clinit_name) (is_static access) ((describe_method m).result.void)
        (same_bytes descriptor void_descriptor) (incompatible_flags access) bad_constructor
        bad_class_initializer (validate_unqualified_name name true) in
    let init = same_bytes_iff name init_name in
    let clinit = same_bytes_iff name clinit_name in
    let empty = same_bytes_iff descriptor void_descriptor in
    let void = void_iff m in
    let member = validate_unqualified_name-iff_member name true in
    let apart = special_not_member name in
    let static = bit_0008 access in let clash = IsClash-iff access in ground arith

-- A method is accepted exactly when its descriptor is a printed method type within the limits of the
-- format, its flags are not the abstract bit with that of private,
-- static, final, synchronized, native or strict, and its name is `<init>` at a method
-- that is not static and returns nothing, `<clinit>` at a static method with the descriptor `()V`, or
-- an unqualified name, without `.`, `;`, `[`, `/`, `<` and `>`.
pub validate_method_name_and_descriptor-iff_method :
    (name descriptor : Bytes) (access : ℕ)
    → (validate_method_name_and_descriptor name descriptor access ≡ ok tt) ↔ (
        (m : MethodType) × (descriptor ≡ print_method m)
        × IsMethod m
        × (slots m.takes ≤ max_jvm_parameter_slots)
        × (length descriptor ≤ max_jvm_descriptor_bytes)
        × (IsClash access → ⊥)
        × IsMethodName name descriptor access m)
unfolding validate_method_name_and_descriptor
validate_method_name_and_descriptor-iff_method name descriptor access = (
  (λ h.
      let (parsed, read, checked) =
        >>=-eq-ok (map_err bad_descriptor (parse_method_descriptor descriptor))
          (check_method name descriptor access) h in
      let (m, is, good, few, short, found) =
        (parse_method_descriptor-iff_method descriptor parsed).0 (map_err-eq-ok _ _ read) in
      let (flags, named) =
        (check_method_iff name descriptor access m).0
          (ap (check_method name descriptor access) (sym found) ∙ checked) in
      (m, is, good, few, short, flags, named)),
  λ (m, is, good, few, short, flags, named).
      let read =
        (parse_method_descriptor-iff_method descriptor (describe_method m)).1
          (m, is, good, few, short, refl) in
      ap (λ p. map_err bad_descriptor p >>= check_method name descriptor access) read
      ∙ (check_method_iff name descriptor access m).1 (flags, named),
)
