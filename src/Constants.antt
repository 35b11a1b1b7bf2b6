-- ===== src/Constants.antt =====
-- classmodel.go: the constants of a class, looked up by their index in the pool. A Go string is the
-- list of its bytes; of classModel the record has what these operations read. The pool has at most
-- 65535 slots, so that `uint16(index)` is the index.
use shell_sight.Common.{
  ℕ, ◌+◌, ◌-◌, ◌%◌, ◌^◌, Bool, true, false, not, ◌&&◌, ◌||◌, List, [], ◌∷◌, length, get_elem?,
  get_or, if◌then◌else◌, ltb, leb, ◌==◌, Option, none, some,
}
use shell_sight.Common.Int.{ℤ, pos, negsuc}
use shell_sight.Common.Text.{same_bytes}
use shell_sight.Common.Result.{Result, ok, err, ◌>>=◌, map_err}
use shell_sight.Bytecode.Words.{Bytes}
use shell_sight.Descriptor.{DescriptorError}
use shell_sight.ClassNames.{NameError, init_name, clinit_name}
use shell_sight.Pool.{
  CpEntry, no_entry, cp_utf8, cp_integer, cp_float, cp_long, cp_double, cp_class, cp_string,
  cp_fieldref, cp_methodref, cp_interface_methodref, cp_name_and_type, cp_method_handle,
  cp_method_type, cp_dynamic, cp_invoke_dynamic,
}
pub mod Validate
pub mod Spec
pub mod Found
pub mod Targets
pub mod Names
pub mod References
pub mod Accepted
pub mod Pools

pub record MemberReference : Type 0 where
  pub owner : Bytes
  pub name : Bytes
  pub descriptor : Bytes
  pub interface : Bool

pub record NameAndTypeReference : Type 0 where
  pub name : Bytes
  pub descriptor : Bytes

pub record InvokeDynamicReference : Type 0 where
  pub bootstrap : ℕ
  pub name : Bytes
  pub descriptor : Bytes

pub data ConstantKind : Type 0 where
  constant_invalid constant_string constant_integer constant_float constant_long : ConstantKind
  constant_double constant_class constant_method_type constant_method_handle : ConstantKind
  constant_dynamic : ConstantKind

pub record ConstantValue : Type 0 where
  pub kind : ConstantKind
  pub string : Bytes
  pub integer : ℤ
  pub reference : Option MemberReference
  pub bootstrap : ℕ
  pub handle_kind : ℕ

pub record BootstrapMethod : Type 0 where
  pub handle : MemberReference
  pub handle_kind : ℕ
  pub arguments : List ConstantValue
  pub argument_indexes : List ℕ

pub record ClassModel : Type 0 where
  pub major : ℕ
  pub pool : List CpEntry
  pub bootstraps : List BootstrapMethod

-- The errors, with the indexes and the tags that their texts name.
pub data ReferenceError : Type 0 where
  zero_index : ReferenceError
  out_of_range wrong_tag : ℕ → ℕ → ReferenceError
  unusable_slot : ℕ → ReferenceError
  not_member unsupported_tag invalid_kind bad_target bad_target_name needs_version :
      ℕ → ℕ → ReferenceError
  in_class in_name in_descriptor in_member in_string in_method_type in_handle :
      ℕ → ReferenceError → ReferenceError
  in_dynamic in_invoke_dynamic : ℕ → ReferenceError → ReferenceError
  in_constant : ℕ → ℕ → ReferenceError → ReferenceError
  bad_name : NameError → ReferenceError
  bad_type : DescriptorError → ReferenceError
  not_array no_name_and_type dynamic_name initializer_reference constructor_reference :
      ReferenceError

abbrev pub Lookup : Type 0 → Type 0
Lookup A = Result ReferenceError A

abbrev pub usable : ℕ → ℕ → Option CpEntry → Lookup CpEntry
usable index size none = err (out_of_range index size)
usable index size (some entry) = if entry.tag == 0 then err (unusable_slot index) else ok entry

unfoldable pub pool_entry : ClassModel → ℕ → Lookup CpEntry
pool_entry cf index =
    if index == 0 then err zero_index else usable index (length cf.pool) (get_elem? cf.pool index)

abbrev pub with_tag : ℕ → ℕ → CpEntry → Lookup CpEntry
with_tag index tag entry = if entry.tag == tag then ok entry else err (wrong_tag index entry.tag)

unfoldable pub pool_entry_with_tag : ClassModel → ℕ → ℕ → Lookup CpEntry
pool_entry_with_tag cf index tag = pool_entry cf index >>= with_tag index tag

abbrev pub text_of : CpEntry → Lookup Bytes
text_of entry = ok entry.text

-- The Go method is called `utf8`.
unfoldable pub utf8_at : ClassModel → ℕ → Lookup Bytes
utf8_at cf index = pool_entry_with_tag cf index cp_utf8 >>= text_of

abbrev pub class_text : ClassModel → ℕ → CpEntry → Lookup Bytes
class_text cf index entry = map_err (in_class index) (utf8_at cf entry.a)

unfoldable pub class_name : ClassModel → ℕ → Lookup Bytes
class_name cf index = pool_entry_with_tag cf index cp_class >>= class_text cf index

abbrev pub name_type_texts : ClassModel → ℕ → CpEntry → Lookup NameAndTypeReference
name_type_texts cf index entry = do
  name ← map_err (in_name index) (utf8_at cf entry.a)
  descriptor ← map_err (in_descriptor index) (utf8_at cf entry.b)
  ok (record { name = name; descriptor = descriptor })

unfoldable pub name_and_type : ClassModel → ℕ → Lookup NameAndTypeReference
name_and_type cf index = pool_entry_with_tag cf index cp_name_and_type >>= name_type_texts cf index

abbrev pub is_member_tag : ℕ → Bool
is_member_tag tag = tag == cp_fieldref || tag == cp_methodref || tag == cp_interface_methodref

abbrev pub member_parts : ClassModel → ℕ → CpEntry → Lookup MemberReference
member_parts cf index entry = do
  owner ← map_err (in_member index) (class_name cf entry.a)
  found ← map_err (in_member index) (name_and_type cf entry.b)
  ok (record {
    owner = owner;
    name = found.name;
    descriptor = found.descriptor;
    interface = entry.tag == cp_interface_methodref;
  })

abbrev pub member_of : ClassModel → ℕ → CpEntry → Lookup MemberReference
member_of cf index entry =
    if not (is_member_tag entry.tag)
    then err (not_member index entry.tag)
    else member_parts cf index entry

unfoldable pub member_ref : ClassModel → ℕ → Lookup MemberReference
member_ref cf index = pool_entry cf index >>= member_of cf index

abbrev pub dynamic_parts : ClassModel → ℕ → CpEntry → Lookup InvokeDynamicReference
dynamic_parts cf index entry = do
  found ← map_err (in_invoke_dynamic index) (name_and_type cf entry.b)
  ok (record { bootstrap = entry.a; name = found.name; descriptor = found.descriptor })

unfoldable pub invoke_dynamic : ClassModel → ℕ → Lookup InvokeDynamicReference
invoke_dynamic cf index = pool_entry_with_tag cf index cp_invoke_dynamic >>= dynamic_parts cf index

-- The `switch` of `validateMethodHandleTarget`.
unfoldable pub is_target : ℕ → ℕ → ℕ → Bool
is_target major kind tag =
    if leb 1 kind && leb kind 4
    then tag == cp_fieldref
    else if kind == 5
    then tag == cp_methodref
    else if kind == 6 || kind == 7
    then tag == cp_methodref || leb 52 major && tag == cp_interface_methodref
    else if kind == 8
    then tag == cp_methodref
    else if kind == 9
    then tag == cp_interface_methodref
    else false

unfoldable pub validate_method_handle_target : ℕ → ℕ → ℕ → Bytes → Lookup (Unit {0})
validate_method_handle_target major kind tag name =
    if not (is_target major kind tag)
    then err (bad_target kind tag)
    else if kind == 8 && not (same_bytes name init_name)
    then err (bad_target_name kind tag)
    else if (kind == 5 || kind == 6 || kind == 7 || kind == 9)
        && (same_bytes name init_name || same_bytes name clinit_name)
    then err (bad_target_name kind tag)
    else ok tt

-- `cf.Pool[entry.b]`, where `memberRef` has found a constant.
abbrev pub tag_at : ClassModel → ℕ → ℕ
tag_at cf index = (get_or cf.pool index no_entry).tag

abbrev pub handle_target : ClassModel → ℕ → CpEntry → MemberReference → Lookup MemberReference
handle_target cf index entry found =
    map_err (in_handle index)
      (validate_method_handle_target cf.major entry.a (tag_at cf entry.b) found.name)
    >>= λ done. ok found

abbrev pub handle_of : ClassModel → ℕ → CpEntry → Lookup MemberReference
handle_of cf index entry =
    if ltb entry.a 1 || ltb 9 entry.a
    then err (invalid_kind index entry.a)
    else map_err (in_handle index) (member_ref cf entry.b) >>= handle_target cf index entry

unfoldable pub method_handle : ClassModel → ℕ → Lookup MemberReference
method_handle cf index = pool_entry_with_tag cf index cp_method_handle >>= handle_of cf index
