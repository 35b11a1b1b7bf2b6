-- ===== src/Examples/OperandRuns.antt =====
-- Runs of the operand stack.
use shell_sight.Common.{ℕ, ◌≡◌, ◌+◌, inl, inr, refl, arith, false, List, [], ◌∷◌, All}
use shell_sight.Common.Int.{pos}
use shell_sight.Common.Result.{ok, err}
use shell_sight.Operands.{
  AbstractValue, Frame, Budget, bad_shape, stack_slots, shape_of, dup2_x1_shape,
  charge_value_copies, transfer_stack_operation,
}
use shell_sight.Operands.Blocks.{IsWide, IsSplit}
use shell_sight.Operands.Costs.{cost, copies_cost, charge_value_copies-iff_cost}
use shell_sight.Operands.Words.{transfer_stack_operation-iff_effect}

abbrev value_of : ℕ → AbstractValue
value_of width = record {
  taint = 0;
  arguments = [];
  kinds = 1;
  constant = [];
  provenance = [];
  object_id = 0;
  object_ids = 7 ∷ [];
  verifier = 1;
  reference = [];
  runtime_type = [];
  nullness = 0;
  array_length = pos 0;
  length_known = false;
  summary_only = false;
  width = width;
}

-- A long above an integer.
abbrev long_stack : List AbstractValue
long_stack = value_of 2 ∷ value_of 1 ∷ []

abbrev frame_of : List AbstractValue → Frame
frame_of stack = record {
  locals = [];
  stack = stack;
  fields = 0;
  heap = 0;
  unproven = false;
  this_uninit = false;
}

abbrev budget_of : ℕ → Budget
budget_of used = record { limit = 100; used = used; cancelled = false }

long_cost : copies_cost 2 long_stack ≡ 8
unfolding copies_cost cost
long_cost = refl

long-IsSplit : IsSplit 2 1 long_stack (value_of 2 ∷ []) (value_of 1 ∷ []) []
unfolding stack_slots
long-IsSplit = (refl, refl, refl)

after_slots : stack_slots (value_of 2 ∷ value_of 1 ∷ value_of 2 ∷ []) ≡ 5
unfolding stack_slots
after_slots = refl

long-IsWide : All IsWide long_stack
long-IsWide = (inr refl, (inl refl, tt))

long_spent :
    budget_of 8 ≡ record { limit = 100; used = 0 + copies_cost 2 long_stack; cancelled = false }
unfolding copies_cost cost
long_spent = refl

-- dup2_x1 copies the long below the integer.
transfer_stack_operation-iff_effect_example :
    transfer_stack_operation 0x5d (frame_of long_stack) 6 10 (budget_of 0)
    ≡ ok (frame_of (value_of 2 ∷ value_of 1 ∷ value_of 2 ∷ []), budget_of 8)
transfer_stack_operation-iff_effect_example =
    (transfer_stack_operation-iff_effect 0x5d (frame_of long_stack) 6 10 (budget_of 0)
        (frame_of (value_of 2 ∷ value_of 1 ∷ value_of 2 ∷ [])) (budget_of 8) long-IsWide).1
      (
        value_of 2 ∷ value_of 1 ∷ value_of 2 ∷ [],
        inr (
            inr (
              inr (
                inr (
                  inr (
                    inr
                      (inl (refl, (value_of 2 ∷ [], value_of 1 ∷ [], [], long-IsSplit, refl)))))))),
        inr ((let size = after_slots in omega arith), (let size = after_slots in omega arith)),
        inr (refl, refl, (let size = long_cost in omega arith), long_spent),
        refl,
      )

charge_value_copies-iff_cost_example :
    charge_value_copies 0 long_stack 2 (budget_of 0) ≡ ok (budget_of 8)
unfolding copies_cost cost
charge_value_copies-iff_cost_example =
    (charge_value_copies-iff_cost 0 long_stack 2 (budget_of 0) (budget_of 8)).1
      (refl, (let size = long_cost in omega arith), long_spent)

-- dup2_x1 cannot cut the long in two.
cut_run : shape_of 0x5d (value_of 1 ∷ value_of 2 ∷ []) ≡ err bad_shape
unfolding shape_of dup2_x1_shape
cut_run = refl
