-- ===== src/Examples/DescriptorRuns.antt =====
-- Runs of descriptor.go.
use shell_sight.Common.{◌+◌, ◌≡◌, refl, false, some, [], ◌∷◌, arith, length, ◌≤◌}
use shell_sight.Common.Text.{codes}
use shell_sight.Common.Result.{ok, err}
use shell_sight.Descriptor.{
  parse_field_descriptor, parse_method_descriptor, invoke_stack_effect, max_jvm_descriptor_bytes,
  max_jvm_parameter_slots, in_parameter, void_not_valid, unterminated_object, empty_component,
  parse_parameters, parse_type, parse_type_deep, parse_byte, parse_object, name_loop, close_object,
}
use shell_sight.Descriptor.Grammar.{
  FieldType, MethodType, scalar, arrays, single, double, class, describe, describe_method,
  print_field, print_method, IsMethod, IsField, brackets, print_fields, slots,
}
use shell_sight.Descriptor.Fields.{parse_field_descriptor-iff_field}
use shell_sight.Descriptor.Methods.{parse_method_descriptor-iff_method}
use shell_sight.Descriptor.Fuel.{ran_out, parse_method_descriptor-in_fuel}
use shell_sight.Descriptor.Effects.{invoke_stack_effect-iff_call}

-- [[La/B;
abbrev nested : FieldType
nested = arrays 1 (class (b'a' ∷ b'/' ∷ b'B' ∷ []))

nested_good : IsField nested
nested_good = ground arith

nested_short : length (print_field nested) ≤ max_jvm_descriptor_bytes
unfolding brackets
nested_short = omega arith

parse_field_descriptor-iff_field_example :
    parse_field_descriptor (print_field nested) ≡ ok (describe nested)
parse_field_descriptor-iff_field_example =
    (parse_field_descriptor-iff_field (print_field nested) (describe nested)).1
      (nested, refl, nested_good, nested_short, refl)

-- (IJ[[La/B;)D
abbrev method : MethodType
method = record {
  takes = scalar (single b'I') ∷ scalar (double b'J') ∷ nested ∷ [];
  gives = some (scalar (double b'D'));
}

method_good : IsMethod method
unfolding IsMethod
method_good = ground arith

method_few : slots method.takes ≤ max_jvm_parameter_slots
unfolding slots
method_few = omega arith

method_short : length (print_method method) ≤ max_jvm_descriptor_bytes
unfolding print_method print_fields brackets
method_short = omega arith

parse_method_descriptor-iff_method_example :
    parse_method_descriptor (print_method method) ≡ ok (describe_method method)
parse_method_descriptor-iff_method_example =
    (parse_method_descriptor-iff_method (print_method method) (describe_method method)).1
      (method, refl, method_good, method_few, method_short, refl)

pops_five : 5 ≡ slots method.takes + 1
unfolding slots
pops_five = refl

invoke_stack_effect-iff_call_example : invoke_stack_effect (print_method method) false ≡ ok (5, 2)
invoke_stack_effect-iff_call_example =
    (invoke_stack_effect-iff_call (print_method method) false 5 2).1
      (method, refl, method_good, method_short, pops_five, omega arith, refl)

-- A `void` parameter, an object without an end, and a name with an empty part.
void_parameter : parse_method_descriptor (codes "(V)V") ≡ err (in_parameter 0 void_not_valid)
unfolding parse_method_descriptor parse_parameters parse_type parse_type_deep parse_byte
void_parameter = refl

no_end : parse_field_descriptor (codes "La") ≡ err (unterminated_object 0)
unfolding parse_field_descriptor parse_type parse_type_deep parse_byte parse_object name_loop
    close_object
no_end = refl

empty_part : parse_field_descriptor (codes "La//b;") ≡ err (empty_component 3)
unfolding parse_field_descriptor parse_type parse_type_deep parse_byte parse_object name_loop
empty_part = refl

parse_method_descriptor-in_fuel_example : ran_out (in_parameter 0 void_not_valid) ≡ false
parse_method_descriptor-in_fuel_example =
    parse_method_descriptor-in_fuel (codes "(V)V") (in_parameter 0 void_not_valid) void_parameter
