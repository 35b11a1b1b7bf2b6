-- ===== src/ClassNames.antt =====
-- classparser.go: the checks on the names of classes, fields and methods. A Go string is the list of
-- its bytes.
use shell_sight.Common.{
  ℕ, ◌/◌, ◌%◌, Bool, true, false, not, ◌&&◌, ◌||◌, List, [], ◌∷◌, if◌then◌else◌, ◌==◌,
}
use shell_sight.Common.Text.{same_bytes}
use shell_sight.Common.Result.{Result, ok, err, ◌>>=◌, map_err}
use shell_sight.Bytecode.Words.{Bytes}
use shell_sight.Descriptor.{DescriptorError, MethodDescriptor, parse_method_descriptor}
pub mod Classes
pub mod Members

pub data NameError : Type 0 where
  invalid_class_name empty_component empty_name : NameError
  invalid_class_byte invalid_member_byte incompatible_flags : ℕ → NameError
  bad_constructor bad_class_initializer : NameError
  bad_descriptor : DescriptorError → NameError

-- A check that returns an error, or none.
abbrev pub Checked : Type 0
Checked = Result NameError (Unit {0})

-- The loop of `validateInternalClassName`, with `componentStart`.
unfoldable pub class_name_loop : Bytes → Bool → Result NameError Bool
class_name_loop [] component_start = ok component_start
class_name_loop (value ∷ more) component_start =
    let rest = class_name_loop more (value == b'/') in
    if value == b'/'
    then if component_start then err empty_component else rest
    else if value == b'.' || value == b';' || value == b'['
    then err (invalid_class_byte value)
    else rest

abbrev pub closed : Bool → Checked
closed component_start = if component_start then err empty_component else ok tt

unfoldable pub validate_internal_class_name : Bytes → Checked
validate_internal_class_name [] = err invalid_class_name
validate_internal_class_name (value ∷ more) =
    if value == b'[' then err invalid_class_name else class_name_loop (value ∷ more) true >>= closed

-- The bytes that no name of a member has; that of a method has no `<` and `>` either.
abbrev pub is_bad_byte : Bool → ℕ → Bool
is_bad_byte method value =
    value == b'.'
    || value == b';'
    || value == b'['
    || value == b'/'
    || method && (value == b'<' || value == b'>')

unfoldable pub member_name_loop : Bytes → Bool → Checked
member_name_loop [] method = ok tt
member_name_loop (value ∷ more) method =
    let rest = member_name_loop more method in
    if is_bad_byte method value then err (invalid_member_byte value) else rest

unfoldable pub validate_unqualified_name : Bytes → Bool → Checked
validate_unqualified_name [] method = err empty_name
validate_unqualified_name (value ∷ more) method = member_name_loop (value ∷ more) method

-- `access & flag != 0`, for a flag of one bit.
abbrev pub has_flag : ℕ → ℕ → Bool
has_flag access flag = access / flag % 2 == 1

abbrev pub is_static : ℕ → Bool
is_static access = has_flag access 0x0008

-- Abstract, and private, static, final, synchronized, native or strict.
abbrev pub has_incompatible_flags : ℕ → Bool
has_incompatible_flags access =
    has_flag access 0x0400
    && (has_flag access 0x0002
        || has_flag access 0x0008
        || has_flag access 0x0010
        || has_flag access 0x0020
        || has_flag access 0x0100
        || has_flag access 0x0800)

-- `<init>`, `<clinit>` and `()V`.
abbrev pub init_name : Bytes
init_name = b'<' ∷ b'i' ∷ b'n' ∷ b'i' ∷ b't' ∷ b'>' ∷ []

abbrev pub clinit_name : Bytes
clinit_name = b'<' ∷ b'c' ∷ b'l' ∷ b'i' ∷ b'n' ∷ b'i' ∷ b't' ∷ b'>' ∷ []

abbrev pub void_descriptor : Bytes
void_descriptor = b'(' ∷ b')' ∷ b'V' ∷ []

unfoldable pub check_method : Bytes → Bytes → ℕ → MethodDescriptor → Checked
check_method name descriptor access parsed =
    if has_incompatible_flags access
    then err (incompatible_flags access)
    else if same_bytes name init_name
    then if is_static access || not parsed.result.void then err bad_constructor else ok tt
    else if same_bytes name clinit_name
    then if not (is_static access) || not (same_bytes descriptor void_descriptor)
      then err bad_class_initializer
      else ok tt
    else validate_unqualified_name name true

unfoldable pub validate_method_name_and_descriptor : Bytes → Bytes → ℕ → Checked
validate_method_name_and_descriptor name descriptor access =
    map_err bad_descriptor (parse_method_descriptor descriptor)
    >>= check_method name descriptor access
