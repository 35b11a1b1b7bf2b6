-- ===== src/Descriptor/Grammar.antt =====
-- The grammar of descriptors that the class file format gives, as trees that are printed.
use shell_sight.Common.{
  ℕ, zero, suc, ◌+◌, ◌≤◌, ◌≡◌, ◌≢◌, ◌⊎◌, Bool, true, false, List, [], ◌∷◌, ◌++◌, map, All, Option,
  none, some,
}
use shell_sight.Bytecode.Words.{Bytes}
use shell_sight.Descriptor.{
  DescriptorType, MethodDescriptor, is_single, is_double, max_jvm_array_dimensions,
}

-- A class name: parts that are not empty, with `/` between them. The flag says that a part begins.
abbrev pub IsName : Bool → Bytes → Type 0
IsName begins [] = begins ≡ false
IsName begins (byte ∷ more) =
    (byte ≢ b';')
    × (byte ≢ b'.')
    × (byte ≢ b'[')
    × ((byte ≡ b'/') × (begins ≡ false) × IsName true more ⊎ (byte ≢ b'/') × IsName false more)

pub data Scalar : Type 0 where
  single double : ℕ → Scalar
  class : Bytes → Scalar

-- `arrays n s` has n + 1 dimensions.
pub data FieldType : Type 0 where
  scalar : Scalar → FieldType
  arrays : ℕ → Scalar → FieldType

abbrev pub IsScalar : Scalar → Type 0
IsScalar (single byte) = is_single byte ≡ true
IsScalar (double byte) = is_double byte ≡ true
IsScalar (class name) = IsName true name

abbrev pub IsField : FieldType → Type 0
IsField (scalar s) = IsScalar s
IsField (arrays n s) = IsScalar s × (suc n ≤ max_jvm_array_dimensions)

abbrev pub print_scalar : Scalar → Bytes
print_scalar (single byte) = byte ∷ []
print_scalar (double byte) = byte ∷ []
print_scalar (class name) = b'L' ∷ name ++ b';' ∷ []

unfoldable pub brackets : ℕ → Bytes → Bytes
brackets zero after = after
brackets (suc n) after = b'[' ∷ brackets n after

abbrev pub print_field : FieldType → Bytes
print_field (scalar s) = print_scalar s
print_field (arrays n s) = b'[' ∷ brackets n (print_scalar s)

abbrev pub class_name : Scalar → Bytes
class_name (class name) = name
class_name _ = []

abbrev pub scalar_width : Scalar → ℕ
scalar_width (double byte) = 2
scalar_width _ = 1

abbrev pub field_width : FieldType → ℕ
field_width (scalar s) = scalar_width s
field_width (arrays n s) = 1

abbrev pub describe : FieldType → DescriptorType
describe (scalar s) = record {
  descriptor = print_scalar s;
  object = class_name s;
  width = scalar_width s;
  array = false;
  void = false;
}
describe (arrays n s) = record {
  descriptor = b'[' ∷ brackets n (print_scalar s);
  object = class_name s;
  width = 1;
  array = true;
  void = false;
}

-- A result is a type, or nothing for `void`.
abbrev pub IsResult : Option FieldType → Type 0
IsResult none = Unit
IsResult (some t) = IsField t

abbrev pub print_result : Option FieldType → Bytes
print_result none = b'V' ∷ []
print_result (some t) = print_field t

abbrev pub result_width : Option FieldType → ℕ
result_width none = 0
result_width (some t) = field_width t

abbrev pub describe_result : Option FieldType → DescriptorType
describe_result none = record {
  descriptor = b'V' ∷ [];
  object = [];
  width = 0;
  array = false;
  void = true;
}
describe_result (some t) = describe t

unfoldable pub print_fields : List FieldType → Bytes → Bytes
print_fields [] after = after
print_fields (t ∷ ts) after = print_field t ++ print_fields ts after

unfoldable pub slots : List FieldType → ℕ
slots [] = 0
slots (t ∷ ts) = field_width t + slots ts

pub record MethodType : Type 0 where
  pub takes : List FieldType
  pub gives : Option FieldType

unfoldable pub print_method : MethodType → Bytes
print_method m = b'(' ∷ print_fields m.takes (b')' ∷ print_result m.gives)

unfoldable pub IsMethod : MethodType → Type 0
IsMethod m = All IsField m.takes × IsResult m.gives

unfoldable pub describe_method : MethodType → MethodDescriptor
describe_method m = record {
  parameters = map describe m.takes;
  result = describe_result m.gives;
  parameter_slots = slots m.takes;
}
