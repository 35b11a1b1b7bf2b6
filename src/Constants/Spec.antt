-- ===== src/Constants/Spec.antt =====
-- What the class file format asks of the constants of a pool: which constant stands behind an index,
-- and what it says.
use shell_sight.Common.{ℕ, ◌≤◌, ◌≡◌, ◌≢◌, ◌⊎◌, true, false, length, get_elem?, none, some, ◌==◌}
use shell_sight.Bytecode.Words.{Bytes}
use shell_sight.Descriptor.{max_jvm_descriptor_bytes, max_jvm_parameter_slots}
use shell_sight.Descriptor.Grammar.{
  IsName, Scalar, FieldType, arrays, IsField, print_field, MethodType, IsMethod, print_method,
  slots,
}
use shell_sight.ClassNames.{init_name, clinit_name}
use shell_sight.ClassNames.Members.{IsMember}
use shell_sight.Pool.{
  CpEntry, cp_utf8, cp_class, cp_fieldref, cp_methodref, cp_interface_methodref, cp_name_and_type,
  cp_method_handle, cp_invoke_dynamic, cp_string, cp_module, cp_package, cp_method_type, cp_dynamic,
}
use shell_sight.Constants.{ClassModel, MemberReference, InvokeDynamicReference}

-- A constant with this tag stands at the index; index 0 and the slot after a long are none.
abbrev pub HasConstant : ClassModel → ℕ → ℕ → CpEntry → Type 0
HasConstant cf index tag entry =
    (1 ≤ index) × (get_elem? cf.pool index ≡ some entry) × (entry.tag ≡ tag)

abbrev pub HasText : ClassModel → ℕ → Bytes → Type 0
HasText cf index text = (entry : CpEntry) × HasConstant cf index cp_utf8 entry × (entry.text ≡ text)

abbrev pub HasClass : ClassModel → ℕ → Bytes → Type 0
HasClass cf index name =
    (entry : CpEntry) × HasConstant cf index cp_class entry × HasText cf entry.a name

abbrev pub HasNameAndType : ClassModel → ℕ → Bytes → Bytes → Type 0
HasNameAndType cf index name descriptor =
    (entry : CpEntry) × HasConstant cf index cp_name_and_type entry
    × HasText cf entry.a name
    × HasText cf entry.b descriptor

abbrev pub IsMemberTag : ℕ → Type 0
IsMemberTag tag = (tag ≡ cp_fieldref) ⊎ ((tag ≡ cp_methodref) ⊎ (tag ≡ cp_interface_methodref))

abbrev pub HasMember : ClassModel → ℕ → ℕ → MemberReference → Type 0
HasMember cf index tag found =
    (entry : CpEntry) × HasConstant cf index tag entry
    × IsMemberTag tag
    × HasClass cf entry.a found.owner
    × HasNameAndType cf entry.b found.name found.descriptor
    × (found.interface ≡ (tag == cp_interface_methodref))

abbrev pub HasInvokeDynamic : ClassModel → ℕ → InvokeDynamicReference → Type 0
HasInvokeDynamic cf index found =
    (entry : CpEntry) × HasConstant cf index cp_invoke_dynamic entry
    × (entry.a ≡ found.bootstrap)
    × HasNameAndType cf entry.b found.name found.descriptor

-- The table of the kinds of handles: fields; virtual, static and special calls; constructors; calls
-- of interfaces.
abbrev pub IsOrdinary : Bytes → Type 0
IsOrdinary name = (name ≢ init_name) × (name ≢ clinit_name)

abbrev pub IsTarget : ℕ → ℕ → ℕ → Bytes → Type 0
IsTarget major kind tag name =
    (1 ≤ kind) × (kind ≤ 4) × (tag ≡ cp_fieldref)
    ⊎ ((kind ≡ 5) × (tag ≡ cp_methodref) × IsOrdinary name
        ⊎ (((kind ≡ 6) ⊎ (kind ≡ 7))
              × ((tag ≡ cp_methodref) ⊎ (52 ≤ major) × (tag ≡ cp_interface_methodref))
              × IsOrdinary name
            ⊎ ((kind ≡ 8) × (tag ≡ cp_methodref) × (name ≡ init_name)
                ⊎ (kind ≡ 9) × (tag ≡ cp_interface_methodref) × IsOrdinary name)))

abbrev pub HasHandle : ClassModel → ℕ → MemberReference → Type 0
HasHandle cf index found =
    (entry : CpEntry) × HasConstant cf index cp_method_handle entry
    × ((tag : ℕ) × HasMember cf entry.b tag found × IsTarget cf.major entry.a tag found.name)

-- The texts of descriptors.
abbrev pub IsFieldText : Bytes → Type 0
IsFieldText text =
    (f : FieldType) × (text ≡ print_field f) × IsField f × (length text ≤ max_jvm_descriptor_bytes)

abbrev pub IsMethodText : Bytes → MethodType → Type 0
IsMethodText text m =
    (text ≡ print_method m)
    × IsMethod m
    × (slots m.takes ≤ max_jvm_parameter_slots)
    × (length text ≤ max_jvm_descriptor_bytes)

-- A class constant names a class or an array.
abbrev pub IsClassConstant : Bytes → Type 0
IsClassConstant name =
    IsName true name
    ⊎ ((n : ℕ) × (s : Scalar) × (name ≡ print_field (arrays n s))
        × IsField (arrays n s)
        × (length name ≤ max_jvm_descriptor_bytes))

-- A reference to a field, a constructor or another method.
abbrev pub IsReference : ℕ → MemberReference → Type 0
IsReference tag found =
    IsName true found.owner
    × ((tag ≡ cp_fieldref) × IsMember false found.name × IsFieldText found.descriptor
        ⊎ (tag ≢ cp_fieldref)
          × ((m : MethodType) × IsMethodText found.descriptor m
              × ((found.name ≡ init_name) × (tag ≡ cp_methodref) × (m.gives ≡ none)
                  ⊎ IsMember true found.name)))

-- Handles, method types and dynamic calls came with version 51, modules and packages with 53, dynamic
-- constants with 55.
abbrev pub IsRecent : ℕ → ℕ → Type 0
IsRecent major tag =
    ((tag ≡ cp_method_handle) ⊎ ((tag ≡ cp_method_type) ⊎ (tag ≡ cp_invoke_dynamic)) → 51 ≤ major)
    × ((tag ≡ cp_module) ⊎ (tag ≡ cp_package) → 53 ≤ major)
    × (tag ≡ cp_dynamic → 55 ≤ major)

-- What a constant of each tag of the format refers to, and the version that it needs. Of a tag
-- that the format does not have nothing is asked.
pub record IsWellFormed (cf : ClassModel) (index : ℕ) (entry : CpEntry) : Type 0 where
  pub version : IsRecent cf.major entry.tag
  pub class_constant :
      entry.tag ≡ cp_class → (name : Bytes) × HasClass cf index name × IsClassConstant name
  pub text_behind :
      (entry.tag ≡ cp_string) ⊎ ((entry.tag ≡ cp_module) ⊎ (entry.tag ≡ cp_package))
      → (text : Bytes) × HasText cf entry.a text
  pub member :
      IsMemberTag entry.tag
      → (found : MemberReference) × HasMember cf index entry.tag found × IsReference entry.tag found
  pub name_and_type :
      entry.tag ≡ cp_name_and_type
      → (name : Bytes) × (descriptor : Bytes) × HasNameAndType cf index name descriptor
  pub handle : entry.tag ≡ cp_method_handle → (found : MemberReference) × HasHandle cf index found
  pub method_type :
      entry.tag ≡ cp_method_type
      → (text : Bytes) × HasText cf entry.a text × ((m : MethodType) × IsMethodText text m)
  pub dynamic :
      entry.tag ≡ cp_dynamic
      → (name : Bytes) × (descriptor : Bytes) × (1 ≤ index)
        × HasNameAndType cf entry.b name descriptor
        × IsOrdinary name
        × IsMember false name
        × IsFieldText descriptor
  pub invoke_dynamic :
      entry.tag ≡ cp_invoke_dynamic
      → (found : InvokeDynamicReference) × HasInvokeDynamic cf index found
        × IsMember true found.name
        × ((m : MethodType) × IsMethodText found.descriptor m)
