-- ===== src/Descriptor.antt =====
-- descriptor.go: the parser of field and method descriptors of a class file. A Go string is the
-- list of its bytes. The parser's state is its `index`; the bytes from there on are `drop index value`,
-- and that list is empty when `p.index >= len(p.value)`.
use shell_sight.Common.{
  ℕ, zero, suc, ◌+◌, ◌-◌, Bool, true, false, not, ◌&&◌, ◌||◌, List, [], ◌∷◌, ◌++◌, length, get_or,
  take, drop, if◌then◌else◌, ltb, leb, ◌==◌,
}
use shell_sight.Common.Result.{Result, ok, err, ◌>>=◌, ◌>>◌, guard, map_err}
use shell_sight.Bytecode.Words.{Bytes}
pub mod Grammar
pub mod Names
pub mod Objects
pub mod Types
pub mod Reads
pub mod Parameters
pub mod Fields
pub mod Fuel
pub mod Methods
pub mod Effects

abbrev pub max_jvm_descriptor_bytes : ℕ
max_jvm_descriptor_bytes = 65_535

abbrev pub max_jvm_array_dimensions : ℕ
max_jvm_array_dimensions = 255

abbrev pub max_jvm_parameter_slots : ℕ
max_jvm_parameter_slots = 255

pub record DescriptorType : Type 0 where
  pub descriptor : Bytes
  pub object : Bytes
  pub width : ℕ
  pub array : Bool
  pub void : Bool

pub record MethodDescriptor : Type 0 where
  pub parameters : List DescriptorType
  pub result : DescriptorType
  pub parameter_slots : ℕ

-- The errors, with the numbers that their texts name; `out_of_fuel` is the end of the fuel.
pub data DescriptorError : Type 0 where
  invalid_length trailing_input too_many_slots too_many_with_receiver : ℕ → DescriptorError
  invalid_method unterminated_parameters void_not_valid too_many_dimensions : DescriptorError
  in_parameter : ℕ → DescriptorError → DescriptorError
  in_result : DescriptorError → DescriptorError
  missing_type invalid_component empty_component unterminated_object empty_name :
      ℕ → DescriptorError
  invalid_type invalid_name_byte : ℕ → ℕ → DescriptorError
  out_of_fuel : DescriptorError

-- What a method of the parser returns: the type, and the index it leaves.
abbrev pub Parsed : Type 0
Parsed = Result DescriptorError (DescriptorType × ℕ)

-- `value[start:end]`.
unfoldable pub slice : Bytes → ℕ → ℕ → Bytes
slice value start end = take (end - start) (drop start value)

-- The loop of `parseObject`, over the bytes from `index` on: `componentStart` and the index after it.
unfoldable pub name_loop : Bytes → ℕ → ℕ → Result DescriptorError (ℕ × ℕ)
name_loop [] index component_start = ok (component_start, index)
name_loop (byte ∷ more) index component_start =
    let rest = name_loop more (suc index) (if byte == b'/' then suc index else component_start) in
    if byte == b';'
    then ok (component_start, index)
    else if byte == b'.' || byte == b'['
    then err (invalid_name_byte byte index)
    else if byte == b'/' && index == component_start
    then err (empty_component index)
    else rest

-- The end of `parseObject`, after the loop.
unfoldable pub close_object : Bytes → ℕ → Bool → ℕ → ℕ × ℕ → Parsed
close_object value start array name_start (component_start, index) =
    if leb (length value) index
    then err (unterminated_object start)
    else if index == name_start || index == component_start
    then err (empty_name name_start)
    else ok (
      record {
        descriptor = slice value start (suc index);
        object = slice value name_start index;
        width = 1;
        array = array;
        void = false;
      },
      suc index,
    )

-- `parseObject` with `p.index` as the last argument.
unfoldable pub parse_object : Bytes → ℕ → Bool → ℕ → Parsed
parse_object value start array index =
    name_loop (drop (suc index) value) (suc index) (suc index)
    >>= close_object value start array (suc index)

-- The loop over `[` in `parseType`.
unfoldable pub skip_dimensions : Bytes → ℕ → ℕ → Result DescriptorError ℕ
skip_dimensions [] dimensions index = ok index
skip_dimensions (byte ∷ more) dimensions index =
    let rest = skip_dimensions more (suc dimensions) (suc index) in
    if byte == b'['
    then if ltb max_jvm_array_dimensions (suc dimensions) then err too_many_dimensions else rest
    else ok index

-- The component of an array, at the byte after the last `[`.
unfoldable pub array_component : (ℕ → Parsed) → Bytes → Bytes → ℕ → Parsed
array_component parse_type_here value [] index = err (invalid_component index)
array_component parse_type_here value (byte ∷ more) index =
    if byte == b'V' || byte == b'['
    then err (invalid_component index)
    else if byte == b'L'
    then parse_object value index false index
    else parse_type_here index

abbrev pub array_type : Bytes → ℕ → DescriptorType × ℕ → Parsed
array_type value start (component, index) = ok (
  record {
    descriptor = slice value start index;
    object = component.object;
    width = 1;
    array = true;
    void = false;
  },
  index,
)

-- The case `[` of `parseType`.
unfoldable pub parse_array : (ℕ → Parsed) → Bytes → ℕ → Parsed
parse_array parse_type_here value start = do
  index ← skip_dimensions (drop start value) 0 start
  found ← array_component parse_type_here value (drop index value) index
  array_type value start found

abbrev pub is_single : ℕ → Bool
is_single byte =
    byte == b'B' || byte == b'C' || byte == b'F' || byte == b'I' || byte == b'S' || byte == b'Z'

abbrev pub is_double : ℕ → Bool
is_double byte = byte == b'J' || byte == b'D'

abbrev pub primitive : Bytes → ℕ → ℕ → Parsed
primitive value start width = ok (
  record {
    descriptor = slice value start (suc start);
    object = [];
    width = width;
    array = false;
    void = false;
  },
  suc start,
)

-- The `switch` of `parseType` on the byte at `p.index`.
unfoldable pub parse_byte : (ℕ → Parsed) → Bytes → Bool → ℕ → Bytes → Parsed
parse_byte parse_type_here value allow_void start [] = err (missing_type start)
parse_byte parse_type_here value allow_void start (byte ∷ more) =
    if byte == b'V'
    then if allow_void
      then ok (
        record { descriptor = b'V' ∷ []; object = []; width = 0; array = false; void = true },
        suc start,
      )
      else err void_not_valid
    else if is_single byte
    then primitive value start 1
    else if is_double byte
    then primitive value start 2
    else if byte == b'L'
    then parse_object value start false start
    else if byte == b'['
    then parse_array parse_type_here value start
    else err (invalid_type byte start)

-- `parseType` calls itself for the component of an array, where no `[` can stand: two calls deep.
unfoldable pub parse_type_deep : ℕ → Bytes → Bool → ℕ → Parsed
parse_type_deep zero value allow_void start = err out_of_fuel
parse_type_deep (suc deeper) value allow_void start =
    parse_byte (parse_type_deep deeper value false) value allow_void start (drop start value)

unfoldable pub parse_type : Bytes → Bool → ℕ → Parsed
parse_type = parse_type_deep 2

-- The type that was read, where nothing comes after it.
unfoldable pub at_end : Bytes → DescriptorType × ℕ → Result DescriptorError DescriptorType
at_end value (found, index) = if index == length value then ok found else err (trailing_input index)

unfoldable pub parse_field_descriptor : Bytes → Result DescriptorError DescriptorType
parse_field_descriptor value =
    if length value == 0 || ltb max_jvm_descriptor_bytes (length value)
    then err (invalid_length (length value))
    else parse_type value false 0 >>= at_end value

-- The loop of `parseMethodDescriptor`: the parameters, their slots, and the index after `)`.
unfoldable pub parse_parameters :
    ℕ → Bytes → ℕ → ℕ → List DescriptorType → Result DescriptorError (List DescriptorType × ℕ × ℕ)
parse_parameters zero value index slots parameters = err out_of_fuel
parse_parameters (suc fuel) value index slots parameters = elim (drop index value) [
  | [] ↦ err unterminated_parameters
  | byte ∷ more ↦ elim (byte == b')') [
    | true ↦ ok (parameters, slots, suc index)
    | false ↦ elim (parse_type value false index) [
      | err e ↦ err (in_parameter (length parameters) e)
      | ok (found, next) ↦ elim (ltb max_jvm_parameter_slots (slots + found.width)) [
        | true ↦ err (too_many_slots (slots + found.width))
        | false ↦ parse_parameters fuel value next (slots + found.width) (parameters ++ found ∷ [])
      ]
    ]
  ]
]

abbrev pub method_descriptor :
    List DescriptorType → ℕ → DescriptorType → Result DescriptorError MethodDescriptor
method_descriptor parameters slots result =
    ok record { parameters = parameters; result = result; parameter_slots = slots }

-- After the parameters: the return type, and the end of the text.
unfoldable pub parse_result :
    Bytes → List DescriptorType × ℕ × ℕ → Result DescriptorError MethodDescriptor
parse_result value (parameters, slots, index) =
    map_err in_result (parse_type value true index)
    >>= at_end value
    >>= method_descriptor parameters slots

unfoldable pub parse_method_descriptor : Bytes → Result DescriptorError MethodDescriptor
parse_method_descriptor value =
    if ltb (length value) 3
      || ltb max_jvm_descriptor_bytes (length value)
      || not (get_or value 0 0 == b'(')
    then err invalid_method
    else parse_parameters (length value) value 1 0 [] >>= parse_result value

-- `invokeStackEffect` once the descriptor is parsed.
unfoldable pub call_effect : Bool → MethodDescriptor → Result DescriptorError (ℕ × ℕ)
call_effect true descriptor = ok (descriptor.parameter_slots, descriptor.result.width)
call_effect false descriptor =
    if ltb max_jvm_parameter_slots (suc descriptor.parameter_slots)
    then err (too_many_with_receiver (suc descriptor.parameter_slots))
    else ok (suc descriptor.parameter_slots, descriptor.result.width)

-- The slots that a call pops, the receiver's included, and those that it pushes.
unfoldable pub invoke_stack_effect : Bytes → Bool → Result DescriptorError (ℕ × ℕ)
invoke_stack_effect value static = parse_method_descriptor value >>= call_effect static
