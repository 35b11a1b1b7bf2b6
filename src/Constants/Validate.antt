-- ===== src/Constants/Validate.antt =====
-- classmodel.go: the check of every reference in the constant pool.
use shell_sight.Common.{
  ℕ, suc, ◌-◌, ◌%◌, Bool, true, false, not, ◌&&◌, ◌||◌, List, [], ◌∷◌, if◌then◌else◌, ltb, ◌==◌,
  none, some,
}
use shell_sight.Common.Int.{ℤ, pos, negsuc}
use shell_sight.Common.Text.{same_bytes}
use shell_sight.Common.Result.{ok, err, ◌>>=◌, map_err}
use shell_sight.Bytecode.Words.{Bytes}
use shell_sight.Descriptor.{
  DescriptorType, MethodDescriptor, parse_field_descriptor, parse_method_descriptor,
}
use shell_sight.ClassNames.{
  init_name, clinit_name, validate_internal_class_name, validate_unqualified_name,
}
use shell_sight.Pool.{
  CpEntry, cp_utf8, cp_integer, cp_float, cp_long, cp_double, cp_class, cp_string, cp_fieldref,
  cp_methodref, cp_name_and_type, cp_method_handle, cp_method_type, cp_dynamic, cp_invoke_dynamic,
  cp_module, cp_package,
}
use shell_sight.Constants.{
  ClassModel, MemberReference, NameAndTypeReference, InvokeDynamicReference, ConstantKind,
  constant_string, constant_integer, constant_float, constant_long, constant_double, constant_class,
  constant_method_type, constant_method_handle, constant_dynamic, ConstantValue, Lookup, pool_entry,
  pool_entry_with_tag, utf8_at, class_name, name_and_type, member_ref, invoke_dynamic,
  method_handle, is_member_tag, in_string, in_method_type, in_dynamic, in_constant, bad_name,
  bad_type, not_array, no_name_and_type, dynamic_name, initializer_reference, constructor_reference,
  unsupported_tag, needs_version,
}

-- The value of a number of `2 * half` patterns, as a signed one.
abbrev pub signed : ℕ → ℕ → ℤ
signed half bits = if ltb bits half then pos bits else negsuc (half - 1 - (bits - half))

abbrev pub text_value : ConstantKind → Bytes → ConstantValue
text_value kind text = record {
  kind = kind;
  string = text;
  integer = pos 0;
  reference = none;
  bootstrap = 0;
  handle_kind = 0;
}

abbrev pub number_value : ConstantKind → ℤ → ConstantValue
number_value kind number = record {
  kind = kind;
  string = [];
  integer = number;
  reference = none;
  bootstrap = 0;
  handle_kind = 0;
}

abbrev pub handle_value : MemberReference → ℕ → ConstantValue
handle_value found kind = record {
  kind = constant_method_handle;
  string = [];
  integer = pos 0;
  reference = some found;
  bootstrap = 0;
  handle_kind = kind;
}

abbrev pub dynamic_value : ℕ → NameAndTypeReference → ConstantValue
dynamic_value bootstrap found = record {
  kind = constant_dynamic;
  string = [];
  integer = pos 0;
  reference =
      some (record {
        owner = [];
        name = found.name;
        descriptor = found.descriptor;
        interface = false;
      });
  bootstrap = bootstrap;
  handle_kind = 0;
}

abbrev pub value_of : ClassModel → ℕ → CpEntry → Lookup ConstantValue
value_of cf index entry =
    if entry.tag == cp_string
    then map_err (in_string index) (utf8_at cf entry.a)
      >>= (λ text. ok (text_value constant_string text))
    else if entry.tag == cp_integer
    then ok (number_value constant_integer (signed 2_147_483_648 (entry.bits % 4_294_967_296)))
    else if entry.tag == cp_float
    then ok (number_value constant_float (signed 2_147_483_648 (entry.bits % 4_294_967_296)))
    else if entry.tag == cp_long
    then ok (number_value constant_long (signed 9_223_372_036_854_775_808 entry.bits))
    else if entry.tag == cp_double
    then ok (number_value constant_double (signed 9_223_372_036_854_775_808 entry.bits))
    else if entry.tag == cp_class
    then class_name cf index >>= (λ name. ok (text_value constant_class name))
    else if entry.tag == cp_method_type
    then map_err (in_method_type index) (utf8_at cf entry.a)
      >>= (λ text. ok (text_value constant_method_type text))
    else if entry.tag == cp_method_handle
    then method_handle cf index >>= (λ found.
      pool_entry_with_tag cf index cp_method_handle >>= λ handle. ok (handle_value found handle.a))
    else if entry.tag == cp_dynamic
    then map_err (in_dynamic index) (name_and_type cf entry.b)
      >>= (λ found. ok (dynamic_value entry.a found))
    else err (unsupported_tag index entry.tag)

unfoldable pub constant_value : ClassModel → ℕ → Lookup ConstantValue
constant_value cf index = pool_entry cf index >>= value_of cf index

abbrev pub Accepts : Type 0
Accepts = Lookup (Unit {0})

-- A result that is thrown away.
abbrev pub done : {A : Type 0} → A → Accepts
done found = ok tt

abbrev pub field_text : Bytes → Accepts
field_text descriptor = map_err bad_type (parse_field_descriptor descriptor) >>= done

abbrev pub method_text : Bytes → Accepts
method_text descriptor = map_err bad_type (parse_method_descriptor descriptor) >>= done

abbrev pub must_be_array : DescriptorType → Accepts
must_be_array descriptor = if not descriptor.array then err not_array else ok tt

unfoldable pub validate_class_constant_name : Bytes → Accepts
validate_class_constant_name [] = map_err bad_name (validate_internal_class_name [])
validate_class_constant_name (first ∷ more) =
    if first == b'['
    then map_err bad_type (parse_field_descriptor (first ∷ more)) >>= must_be_array
    else map_err bad_name (validate_internal_class_name (first ∷ more))

abbrev pub method_reference : ℕ → Bytes → MethodDescriptor → Accepts
method_reference tag name parsed =
    if same_bytes name clinit_name
    then err initializer_reference
    else if same_bytes name init_name
    then if not (tag == cp_methodref) || not parsed.result.void
      then err constructor_reference
      else ok tt
    else map_err bad_name (validate_unqualified_name name true)

abbrev pub owned_reference : ℕ → MemberReference → Unit {0} → Accepts
owned_reference tag reference checked =
    if tag == cp_fieldref
    then map_err bad_name (validate_unqualified_name reference.name false)
      >>= (λ named. field_text reference.descriptor)
    else map_err bad_type (parse_method_descriptor reference.descriptor)
      >>= method_reference tag reference.name

unfoldable pub validate_member_reference : ℕ → MemberReference → Accepts
validate_member_reference tag reference =
    map_err bad_name (validate_internal_class_name reference.owner)
    >>= owned_reference tag reference

unfoldable pub validate_dynamic_constant : ConstantValue → Accepts
validate_dynamic_constant value = elim value.reference [
  | none ↦ err no_name_and_type
  | some found ↦
      if same_bytes found.name init_name || same_bytes found.name clinit_name
      then err dynamic_name
      else map_err bad_name (validate_unqualified_name found.name false)
        >>= (λ named. field_text found.descriptor)
]

unfoldable pub validate_invoke_dynamic_reference : InvokeDynamicReference → Accepts
validate_invoke_dynamic_reference reference =
    map_err bad_name (validate_unqualified_name reference.name true)
    >>= (λ named. method_text reference.descriptor)

abbrev pub minimum_class_version : ℕ → ℕ
minimum_class_version tag =
    if tag == cp_method_handle || tag == cp_method_type || tag == cp_invoke_dynamic
    then 51
    else if tag == cp_module || tag == cp_package
    then 53
    else if tag == cp_dynamic
    then 55
    else 0

abbrev pub is_plain : ℕ → Bool
is_plain tag =
    tag == cp_utf8 || tag == cp_integer || tag == cp_float || tag == cp_long || tag == cp_double

-- The `switch` of `validateConstantPoolReferences`.
unfoldable pub check_tagged : ClassModel → ℕ → CpEntry → Accepts
check_tagged cf index entry =
    if is_plain entry.tag
    then ok tt
    else if entry.tag == cp_class
    then class_name cf index >>= validate_class_constant_name
    else if entry.tag == cp_string
    then utf8_at cf entry.a >>= done
    else if is_member_tag entry.tag
    then member_ref cf index >>= validate_member_reference entry.tag
    else if entry.tag == cp_name_and_type
    then name_and_type cf index >>= done
    else if entry.tag == cp_method_handle
    then method_handle cf index >>= done
    else if entry.tag == cp_method_type
    then utf8_at cf entry.a >>= method_text
    else if entry.tag == cp_dynamic
    then constant_value cf index >>= validate_dynamic_constant
    else if entry.tag == cp_invoke_dynamic
    then invoke_dynamic cf index >>= validate_invoke_dynamic_reference
    else if entry.tag == cp_module || entry.tag == cp_package
    then utf8_at cf entry.a >>= done
    else ok tt

unfoldable pub check_constant : ClassModel → ℕ → CpEntry → Accepts
check_constant cf index entry =
    if entry.tag == 0
    then ok tt
    else if not (minimum_class_version entry.tag == 0)
        && ltb cf.major (minimum_class_version entry.tag)
    then err (needs_version index entry.tag)
    else map_err (in_constant index entry.tag) (check_tagged cf index entry)

-- The loop over the slots from `index` on.
unfoldable pub check_from : ClassModel → ℕ → List CpEntry → Accepts
check_from cf index [] = ok tt
check_from cf index (entry ∷ more) =
    check_constant cf index entry >>= λ checked. check_from cf (suc index) more

unfoldable pub validate_constant_pool_references : ClassModel → Accepts
validate_constant_pool_references cf = check_from cf 0 cf.pool
