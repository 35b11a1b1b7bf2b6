-- ===== src/Examples/ConstantRuns.antt =====
-- Runs of the checks on names and on the constant pool.
use shell_sight.Common.{ℕ, ◌≡◌, inl, refl, arith, List, [], ◌∷◌, ◌++◌, none}
use shell_sight.Common.Result.{ok, err}
use shell_sight.Bytecode.Words.{Bytes}
use shell_sight.Descriptor.{
  parse_field_descriptor, parse_type, parse_type_deep, parse_byte, slice, at_end,
}
use shell_sight.Descriptor.Grammar.{
  MethodType, describe, scalar, class, print_method, print_fields, IsMethod, slots,
}
use shell_sight.ClassNames.{
  validate_internal_class_name, class_name_loop, validate_unqualified_name, member_name_loop,
  validate_method_name_and_descriptor, init_name, void_descriptor,
}
use shell_sight.ClassNames.Classes.{validate_internal_class_name-iff_descriptor}
use shell_sight.ClassNames.Members.{validate_method_name_and_descriptor-iff_method}
use shell_sight.Pool.{CpEntry, no_entry}
use shell_sight.Constants.{
  ClassModel, pool_entry, pool_entry_with_tag, utf8_at, class_name, name_and_type, member_ref,
  method_handle, is_target, validate_method_handle_target, bad_target, in_handle,
}
use shell_sight.Constants.Validate.{
  check_tagged, check_constant, check_from, validate_constant_pool_references,
  validate_class_constant_name, validate_member_reference,
}
use shell_sight.Constants.Pools.{AreFormed, validate_constant_pool_references-iff_formed}

-- `a/B`.
abbrev class_text : Bytes
class_text = b'a' ∷ b'/' ∷ b'B' ∷ []

class_text_run : validate_internal_class_name class_text ≡ ok tt
unfolding validate_internal_class_name class_name_loop
class_text_run = refl

validate_internal_class_name-iff_descriptor_example :
    parse_field_descriptor (b'L' ∷ class_text ++ b';' ∷ [])
    ≡ ok (describe (scalar (class class_text)))
validate_internal_class_name-iff_descriptor_example =
    (validate_internal_class_name-iff_descriptor class_text (omega arith)).0 class_text_run

-- A public constructor without parameters.
abbrev procedure : MethodType
procedure = record { takes = []; gives = none }

procedure_printed : void_descriptor ≡ print_method procedure
unfolding print_method print_fields
procedure_printed = refl

procedure_is : IsMethod procedure
unfolding IsMethod
procedure_is = (tt, tt)

procedure_slots : slots procedure.takes ≡ 0
unfolding slots
procedure_slots = refl

validate_method_name_and_descriptor-iff_method_example :
    validate_method_name_and_descriptor init_name void_descriptor 1 ≡ ok tt
validate_method_name_and_descriptor-iff_method_example =
    (validate_method_name_and_descriptor-iff_method init_name void_descriptor 1).1 (
      procedure,
      procedure_printed,
      procedure_is,
      (let none_used = procedure_slots in omega arith),
      omega arith,
      (λ clash. omega arith),
      inl (refl, (λ bit. omega arith), refl),
    )

abbrev text_slot : Bytes → CpEntry
text_slot text = record { tag = 1; a = 0; b = 0; bits = 0; text = text }

abbrev index_slot : ℕ → ℕ → ℕ → CpEntry
index_slot tag a b = record { tag = tag; a = a; b = b; bits = 0; text = [] }

-- The class `A`, its field `f` of type `I`, and a handle of the given kind for that field.
abbrev handle_pool : ℕ → List CpEntry
handle_pool kind =
    no_entry
    ∷ text_slot (b'A' ∷ [])
    ∷ index_slot 7 1 0
    ∷ text_slot (b'f' ∷ [])
    ∷ text_slot (b'I' ∷ [])
    ∷ index_slot 12 3 4
    ∷ index_slot 9 2 5
    ∷ index_slot 15 kind 6
    ∷ []

abbrev handle_class : ℕ → ClassModel
handle_class kind = record { major = 52; pool = handle_pool kind; bootstraps = [] }

handle_run : validate_constant_pool_references (handle_class 1) ≡ ok tt
unfolding validate_constant_pool_references check_from check_constant check_tagged class_name
    pool_entry pool_entry_with_tag utf8_at name_and_type member_ref method_handle
    validate_class_constant_name validate_internal_class_name class_name_loop
    validate_member_reference validate_unqualified_name member_name_loop parse_field_descriptor
    parse_type parse_type_deep parse_byte slice at_end is_target validate_method_handle_target
handle_run = refl

validate_constant_pool_references-iff_formed_example : AreFormed (handle_class 1) 0 (handle_pool 1)
validate_constant_pool_references-iff_formed_example =
    (validate_constant_pool_references-iff_formed (handle_class 1)).0 handle_run

-- A call of a field.
wrong_kind_run : method_handle (handle_class 6) 7 ≡ err (in_handle 7 (bad_target 6 9))
unfolding class_name pool_entry pool_entry_with_tag utf8_at name_and_type member_ref method_handle
    is_target validate_method_handle_target
wrong_kind_run = refl
