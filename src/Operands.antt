-- ===== src/Operands.antt =====
-- abstract.go: the operand stack of a frame of the abstract interpreter, and the budget of its work. A
-- stack is a list with its top first. Of a frame's fields and heap only the slots they take are read
-- here. A frame at which an operation fails is dropped by the caller.
use shell_sight.Common.{
  ℕ, zero, suc, ◌+◌, Bool, true, false, not, ◌&&◌, ◌||◌, List, [], ◌∷◌, length, take, if◌then◌else◌,
  ltb, leb, ◌==◌,
}
use shell_sight.Common.Int.{ℤ}
use shell_sight.Common.Result.{Result, ok, err, ◌>>=◌}
use shell_sight.Bytecode.Words.{Bytes}
pub mod Costs
pub mod Blocks
pub mod Shapes
pub mod Moved
pub mod Words
pub mod Pushes

pub record ProvenanceStep : Type 0 where
  pub offset : ℕ
  pub api : Bytes

-- A bit set and an enumeration is its number.
pub record AbstractValue : Type 0 where
  pub taint : ℕ
  pub arguments : List ℕ
  pub kinds : ℕ
  pub constant : Bytes
  pub provenance : List ProvenanceStep
  pub object_id : ℕ
  pub object_ids : List ℕ
  pub verifier : ℕ
  pub reference : Bytes
  pub runtime_type : Bytes
  pub nullness : ℕ
  pub array_length : ℤ
  pub length_known : Bool
  pub summary_only : Bool
  pub width : ℕ

-- `fields` stands for `len(f.Fields)` and `heap` for `heapSlots(f.Heap)`: the operations modelled here
-- read no more of the two maps.
pub record Frame : Type 0 where
  pub locals : List AbstractValue
  pub stack : List AbstractValue
  pub fields : ℕ
  pub heap : ℕ
  pub unproven : Bool
  pub this_uninit : Bool

-- `cancelled`: the context has an error.
pub record Budget : Type 0 where
  pub limit : ℕ
  pub used : ℕ
  pub cancelled : Bool

pub data StackError : Type 0 where
  context_done exhausted underflow bad_shape over_limit frame_over_limit unsupported : StackError
  bad_width : ℕ → StackError

-- `charge`; `units > b.limit - b.used` as a sum.
unfoldable pub charge : ℕ → Budget → Result StackError Budget
charge units b =
    if b.cancelled
    then err context_done
    else if ltb b.limit (b.used + units)
    then err exhausted
    else ok (record { limit = b.limit; used = b.used + units; cancelled = b.cancelled })

-- A part of the cost, where it still fits: the new total.
abbrev pub add_units : Budget → ℕ → ℕ → Result StackError ℕ
add_units b units total =
    if ltb b.limit (b.used + total + units) then err exhausted else ok (total + units)

unfoldable pub add_value : Budget → AbstractValue → ℕ → Result StackError ℕ
add_value b value total =
    add_units b (length value.provenance) total
    >>= add_units b (length value.object_ids)
    >>= add_units b 1

unfoldable pub add_values : Budget → List AbstractValue → ℕ → Result StackError ℕ
add_values b [] total = ok total
add_values b (value ∷ more) total = add_value b value total >>= add_values b more

unfoldable pub add_copies : Budget → ℕ → List AbstractValue → ℕ → Result StackError ℕ
add_copies b zero values total = ok total
add_copies b (suc copies) values total = add_values b values total >>= add_copies b copies values

abbrev pub spend : Budget → ℕ → Result StackError Budget
spend b total = ok (record { limit = b.limit; used = b.used + total; cancelled = b.cancelled })

unfoldable pub charge_value_copies : ℕ → List AbstractValue → ℕ → Budget → Result StackError Budget
charge_value_copies base values copies b =
    if b.cancelled
    then err context_done
    else if ltb b.limit (b.used + base)
    then err exhausted
    else add_copies b copies values base >>= spend b

unfoldable pub stack_slots : List AbstractValue → ℕ
stack_slots [] = 0
stack_slots (value ∷ more) = value.width + stack_slots more

abbrev pub with_stack : Frame → List AbstractValue → Frame
with_stack f stack = record {
  locals = f.locals;
  stack = stack;
  fields = f.fields;
  heap = f.heap;
  unproven = f.unproven;
  this_uninit = f.this_uninit;
}

unfoldable pub pop_value : Frame → ℕ → Result StackError (AbstractValue × Frame)
pop_value f width = elim f.stack [
  | [] ↦ err underflow
  | value ∷ more ↦
      if not (value.width == width)
      then err (bad_width value.width)
      else ok (value, with_stack f more)
]

unfoldable pub push_value : Frame → AbstractValue → ℕ → ℕ → Result StackError Frame
push_value f value max_stack max_frame_slots =
    if not (value.width == 1) && not (value.width == 2)
    then err (bad_width value.width)
    else if ltb max_stack (stack_slots (value ∷ f.stack))
    then err over_limit
    else if ltb max_frame_slots
        (length f.locals + stack_slots (value ∷ f.stack) + f.fields + f.heap)
    then err frame_over_limit
    else ok (with_stack f (value ∷ f.stack))

-- What an instruction makes of the stack.
abbrev pub Shape : Type 0
Shape = Result StackError (List AbstractValue)

unfoldable pub pop_shape : List AbstractValue → Shape
pop_shape [] = err underflow
pop_shape (v1 ∷ rest) = if not (v1.width == 1) then err (bad_width v1.width) else ok rest

unfoldable pub pop2_shape : List AbstractValue → Shape
pop2_shape [] = err underflow
pop2_shape (v1 ∷ []) = if v1.width == 2 then ok [] else err bad_shape
pop2_shape (v1 ∷ v2 ∷ rest) =
    if v1.width == 2
    then ok (v2 ∷ rest)
    else if not (v1.width == 1) || not (v2.width == 1)
    then err bad_shape
    else ok rest

unfoldable pub dup_shape : List AbstractValue → Shape
dup_shape [] = err bad_shape
dup_shape (v1 ∷ rest) = if not (v1.width == 1) then err bad_shape else ok (v1 ∷ v1 ∷ rest)

unfoldable pub dup_x1_shape : List AbstractValue → Shape
dup_x1_shape [] = err bad_shape
dup_x1_shape (v1 ∷ []) = err bad_shape
dup_x1_shape (v1 ∷ v2 ∷ rest) =
    if not (v1.width == 1) || not (v2.width == 1) then err bad_shape else ok (v1 ∷ v2 ∷ v1 ∷ rest)

unfoldable pub dup_x2_shape : List AbstractValue → Shape
dup_x2_shape [] = err bad_shape
dup_x2_shape (v1 ∷ []) = err bad_shape
dup_x2_shape (v1 ∷ v2 ∷ []) =
    if not (v1.width == 1)
    then err bad_shape
    else if v2.width == 2
    then ok (v1 ∷ v2 ∷ v1 ∷ [])
    else err bad_shape
dup_x2_shape (v1 ∷ v2 ∷ v3 ∷ rest) =
    if not (v1.width == 1)
    then err bad_shape
    else if v2.width == 2
    then ok (v1 ∷ v2 ∷ v1 ∷ v3 ∷ rest)
    else if not (v2.width == 1) || not (v3.width == 1)
    then err bad_shape
    else ok (v1 ∷ v2 ∷ v3 ∷ v1 ∷ rest)

unfoldable pub dup2_shape : List AbstractValue → Shape
dup2_shape [] = err underflow
dup2_shape (v1 ∷ []) = if v1.width == 2 then ok (v1 ∷ v1 ∷ []) else err bad_shape
dup2_shape (v1 ∷ v2 ∷ rest) =
    if v1.width == 2
    then ok (v1 ∷ v1 ∷ v2 ∷ rest)
    else if not (v1.width == 1) || not (v2.width == 1)
    then err bad_shape
    else ok (v1 ∷ v2 ∷ v1 ∷ v2 ∷ rest)

unfoldable pub dup2_x1_shape : List AbstractValue → Shape
dup2_x1_shape [] = err underflow
dup2_x1_shape (v1 ∷ []) = err underflow
dup2_x1_shape (v1 ∷ v2 ∷ []) =
    if v1.width == 2 && v2.width == 1 then ok (v1 ∷ v2 ∷ v1 ∷ []) else err bad_shape
dup2_x1_shape (v1 ∷ v2 ∷ v3 ∷ rest) =
    if v1.width == 2 && v2.width == 1
    then ok (v1 ∷ v2 ∷ v1 ∷ v3 ∷ rest)
    else if not (v1.width == 1) || not (v2.width == 1) || not (v3.width == 1)
    then err bad_shape
    else ok (v1 ∷ v2 ∷ v3 ∷ v1 ∷ v2 ∷ rest)

-- The cases of `transferDup2X2` on the values below the first three.
abbrev pub dup2_x2_deep : AbstractValue → AbstractValue → AbstractValue → List AbstractValue → Shape
dup2_x2_deep v1 v2 v3 [] = err bad_shape
dup2_x2_deep v1 v2 v3 (v4 ∷ rest) =
    if v1.width == 1 && v2.width == 1 && v3.width == 1 && v4.width == 1
    then ok (v1 ∷ v2 ∷ v3 ∷ v4 ∷ v1 ∷ v2 ∷ rest)
    else err bad_shape

unfoldable pub dup2_x2_shape : List AbstractValue → Shape
dup2_x2_shape [] = err underflow
dup2_x2_shape (v1 ∷ []) = err underflow
dup2_x2_shape (v1 ∷ v2 ∷ []) =
    if v1.width == 2 && v2.width == 2 then ok (v1 ∷ v2 ∷ v1 ∷ []) else err bad_shape
dup2_x2_shape (v1 ∷ v2 ∷ v3 ∷ rest) =
    if v1.width == 2 && v2.width == 2
    then ok (v1 ∷ v2 ∷ v1 ∷ v3 ∷ rest)
    else if v1.width == 2 && v2.width == 1 && v3.width == 1
    then ok (v1 ∷ v2 ∷ v3 ∷ v1 ∷ rest)
    else if v1.width == 1 && v2.width == 1 && v3.width == 2
    then ok (v1 ∷ v2 ∷ v3 ∷ v1 ∷ v2 ∷ rest)
    else dup2_x2_deep v1 v2 v3 rest

unfoldable pub swap_shape : List AbstractValue → Shape
swap_shape [] = err bad_shape
swap_shape (v1 ∷ []) = err bad_shape
swap_shape (v1 ∷ v2 ∷ rest) =
    if not (v1.width == 1) || not (v2.width == 1) then err bad_shape else ok (v2 ∷ v1 ∷ rest)

-- The `switch` on the opcode.
unfoldable pub shape_of : ℕ → List AbstractValue → Shape
shape_of op stack =
    if op == 0x57
    then pop_shape stack
    else if op == 0x58
    then pop2_shape stack
    else if op == 0x59
    then dup_shape stack
    else if op == 0x5a
    then dup_x1_shape stack
    else if op == 0x5b
    then dup_x2_shape stack
    else if op == 0x5c
    then dup2_shape stack
    else if op == 0x5d
    then dup2_x1_shape stack
    else if op == 0x5e
    then dup2_x2_shape stack
    else if op == 0x5f
    then swap_shape stack
    else err unsupported

abbrev pub is_duplication : ℕ → Bool
is_duplication op = leb 0x59 op && leb op 0x5e

-- The limits that `appendChecked` and `transferDup2X2` check on what they have put together.
abbrev pub checked : ℕ → Frame → ℕ → ℕ → List AbstractValue → Result StackError Frame
checked op f max_stack max_frame_slots stack =
    if is_duplication op
      && (ltb max_stack (stack_slots stack)
          || ltb max_frame_slots (length f.locals + stack_slots stack + f.fields))
    then err over_limit
    else ok (with_stack f stack)

abbrev pub charged : ℕ → Frame → Budget → Result StackError Budget
charged op f b = if is_duplication op then charge_value_copies 0 (take 4 f.stack) 2 b else ok b

abbrev pub run : ℕ → Frame → ℕ → ℕ → Budget → Result StackError (Frame × Budget)
run op f max_stack max_frame_slots b =
    shape_of op f.stack >>= checked op f max_stack max_frame_slots >>= λ after. ok (after, b)

unfoldable pub transfer_stack_operation :
    ℕ → Frame → ℕ → ℕ → Budget → Result StackError (Frame × Budget)
transfer_stack_operation op f max_stack max_frame_slots b =
    charged op f b >>= run op f max_stack max_frame_slots
