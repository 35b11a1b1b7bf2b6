-- ===== src/Descriptor/Effects.antt =====
-- The stack effect that `invokeStackEffect` gives a call.
use shell_sight.Common.{
  ℕ, ◌+◌, ◌≤◌, ◌≡◌, ◌↔◌, refl, sym, ◌∙◌, Bool, true, false, Option, none, some, length, arith,
  if◌then◌else◌,
}
use shell_sight.Common.Result.{ok, >>=-eq-ok}
use shell_sight.Bytecode.Words.{Bytes}
use shell_sight.Descriptor.{
  MethodDescriptor, parse_method_descriptor, call_effect, invoke_stack_effect,
  max_jvm_parameter_slots, max_jvm_descriptor_bytes,
}
use shell_sight.Descriptor.Grammar.{
  FieldType, MethodType, IsMethod, print_method, describe_method, describe_result, slots,
  result_width,
}
use shell_sight.Descriptor.Parameters.{width_describe}
use shell_sight.Descriptor.Methods.{parse_method_descriptor-iff_method}

result_describe : (r : Option FieldType) → (describe_result r).width ≡ result_width r
result_describe none = refl
result_describe (some f) = width_describe f

call_effect_iff :
    (static : Bool) (d : MethodDescriptor) (pop push : ℕ)
    → d.parameter_slots ≤ max_jvm_parameter_slots
    → (call_effect static d ≡ ok (pop, push)) ↔ (
        (pop ≡ d.parameter_slots + (if static then 0 else 1))
        × (pop ≤ max_jvm_parameter_slots)
        × (push ≡ d.result.width))
unfolding call_effect
call_effect_iff true d pop push few = ground arith
call_effect_iff false d pop push few = ground arith

-- A call has a stack effect exactly when its descriptor is the text of a method type with at most
-- 65535 bytes whose parameters, and the receiver of a call that is not static, take at most 255
-- slots; it then pops that many slots and pushes the slots of the result.
pub invoke_stack_effect-iff_call :
    (value : Bytes) (static : Bool) (pop push : ℕ)
    → (invoke_stack_effect value static ≡ ok (pop, push)) ↔ (
        (m : MethodType) × (value ≡ print_method m)
        × IsMethod m
        × (length value ≤ max_jvm_descriptor_bytes)
        × (pop ≡ slots m.takes + (if static then 0 else 1))
        × (pop ≤ max_jvm_parameter_slots)
        × (push ≡ result_width m.gives))
unfolding invoke_stack_effect describe_method
invoke_stack_effect-iff_call value static pop push = (
  λ h.
      let (d, read, effect) = >>=-eq-ok (parse_method_descriptor value) (call_effect static) h in
      let (m, is, good, few, short, found) = (parse_method_descriptor-iff_method value d).0 read in
      let (pops, most, pushes) =
        (call_effect_iff static (describe_method m) pop push few).0 (rw found at effect) in
      (m, is, good, short, pops, most, pushes ∙ result_describe m.gives),
  λ (m, is, good, short, pops, most, pushes).
      let few : slots m.takes ≤ max_jvm_parameter_slots = omega arith in
      let read =
        (parse_method_descriptor-iff_method value (describe_method m)).1
          (m, is, good, few, short, refl) in
      rw read (
        (call_effect_iff static (describe_method m) pop push few).1
          (pops, most, pushes ∙ sym (result_describe m.gives))),
)
