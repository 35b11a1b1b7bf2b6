-- ===== src/Operands/Words.antt =====
-- `transferStackOperation` moves the slots as the instructions of the Java virtual machine do.
use shell_sight.Common.{
  ℕ, ◌+◌, ◌≤◌, ◌≡◌, ◌↔◌, ◌⊎◌, inl, inr, sym, ap, ◌∙◌, subst, arith, Bool, true, false, ◌&&◌, ◌||◌,
  List, length, take, All, ltb, if◌then◌else◌, or_iff,
}
use shell_sight.Common.Result.{Result, ok, err, ◌>>=◌, >>=-eq-ok, ok_injective}
use shell_sight.Operands.{
  AbstractValue, Frame, Budget, StackError, over_limit, stack_slots, with_stack, pop_shape,
  pop2_shape, dup_shape, dup_x1_shape, dup_x2_shape, dup2_shape, dup2_x1_shape, dup2_x2_shape,
  swap_shape, shape_of, is_duplication, checked, charged, run, charge_value_copies,
  transfer_stack_operation,
}
use shell_sight.Operands.Blocks.{IsWide, Duplicates, Drops, Swaps}
use shell_sight.Operands.Costs.{copies_cost, charge_value_copies-iff_cost}
use shell_sight.Operands.Moved.{
  dup_iff, dup_x1_iff, dup_x2_iff, dup2_iff, dup2_x1_iff, dup2_x2_iff, pop_iff, pop2_iff, swap_iff,
}

-- pop, pop2, dup, dup_x1, dup_x2, dup2, dup2_x1, dup2_x2 and swap.
abbrev pub HasEffect : ℕ → List AbstractValue → List AbstractValue → Type 0
HasEffect op stack out =
    (op ≡ 0x57) × Drops 1 stack out
    ⊎ ((op ≡ 0x58) × Drops 2 stack out
        ⊎ ((op ≡ 0x59) × Duplicates 1 0 stack out
            ⊎ ((op ≡ 0x5a) × Duplicates 1 1 stack out
                ⊎ ((op ≡ 0x5b) × Duplicates 1 2 stack out
                    ⊎ ((op ≡ 0x5c) × Duplicates 2 0 stack out
                        ⊎ ((op ≡ 0x5d) × Duplicates 2 1 stack out
                            ⊎ ((op ≡ 0x5e) × Duplicates 2 2 stack out
                                ⊎ (op ≡ 0x5f) × Swaps stack out)))))))

shape_cases :
    (op : ℕ) (stack out : List AbstractValue)
    → (shape_of op stack ≡ ok out) ↔ (
        (op ≡ 0x57) × (pop_shape stack ≡ ok out)
        ⊎ ((op ≡ 0x58) × (pop2_shape stack ≡ ok out)
            ⊎ ((op ≡ 0x59) × (dup_shape stack ≡ ok out)
                ⊎ ((op ≡ 0x5a) × (dup_x1_shape stack ≡ ok out)
                    ⊎ ((op ≡ 0x5b) × (dup_x2_shape stack ≡ ok out)
                        ⊎ ((op ≡ 0x5c) × (dup2_shape stack ≡ ok out)
                            ⊎ ((op ≡ 0x5d) × (dup2_x1_shape stack ≡ ok out)
                                ⊎ ((op ≡ 0x5e) × (dup2_x2_shape stack ≡ ok out)
                                    ⊎ (op ≡ 0x5f) × (swap_shape stack ≡ ok out)))))))))
unfolding shape_of
shape_cases op stack out = ground arith

at_op : {P Q : Type 0} {op k : ℕ} → P ↔ Q → ((op ≡ k) × P) ↔ ((op ≡ k) × Q)
at_op pq = ((λ (is, p). (is, pq.0 p)), λ (is, q). (is, pq.1 q))

shape_of_iff :
    (op : ℕ) (stack out : List AbstractValue)
    → All IsWide stack
    → (shape_of op stack ≡ ok out) ↔ HasEffect op stack out
shape_of_iff op stack out all =
    let effects = or_iff (at_op (pop_iff stack out all)) (
      or_iff (at_op (pop2_iff stack out all)) (
        or_iff (at_op (dup_iff stack out all)) (
          or_iff (at_op (dup_x1_iff stack out all)) (
            or_iff (at_op (dup_x2_iff stack out all)) (
              or_iff (at_op (dup2_iff stack out all)) (
                or_iff (at_op (dup2_x1_iff stack out all)) (
                  or_iff (at_op (dup2_x2_iff stack out all))
                    (at_op (swap_iff stack out all))))))))) in
    let cases = shape_cases op stack out in
    ((λ h. effects.0 (cases.0 h)), λ e. cases.1 (effects.1 e))

-- A duplication keeps to the limits, and pays for two copies of the four values on top; the other
-- instructions do neither.
abbrev pub IsWithin : ℕ → Frame → ℕ → ℕ → List AbstractValue → Type 0
IsWithin op f max_stack max_frame_slots out =
    (is_duplication op ≡ false)
    ⊎ (stack_slots out ≤ max_stack)
      × (length f.locals + stack_slots out + f.fields ≤ max_frame_slots)

abbrev pub IsPaid : ℕ → Frame → Budget → Budget → Type 0
IsPaid op f b paid =
    (is_duplication op ≡ false) × (paid ≡ b)
    ⊎ (is_duplication op ≡ true)
      × (b.cancelled ≡ false)
      × (b.used + copies_cost 2 (take 4 f.stack) ≤ b.limit)
      × (paid ≡ record {
        limit = b.limit;
        used = b.used + copies_cost 2 (take 4 f.stack);
        cancelled = b.cancelled;
      })

charged_iff :
    (op : ℕ) (f : Frame) (b paid : Budget) → (charged op f b ≡ ok paid) ↔ IsPaid op f b paid
charged_iff op f b paid =
    let none : 0 + copies_cost 2 (take 4 f.stack) ≡ copies_cost 2 (take 4 f.stack) = omega arith in
    let costs =
      subst
        (λ c. (charge_value_copies 0 (take 4 f.stack) 2 b ≡ ok paid) ↔ (
          (b.cancelled ≡ false)
          × (b.used + c ≤ b.limit)
          × (paid ≡ record { limit = b.limit; used = b.used + c; cancelled = b.cancelled })))
        none (charge_value_copies-iff_cost 0 (take 4 f.stack) 2 b paid) in
    let tests = tests_iff (is_duplication op) (charge_value_copies 0 (take 4 f.stack) 2 b) in
    (
      (λ h. elim (tests.0 h) [
        | inl (off, same) ↦ inl (off, same)
        | inr (is, got) ↦ let (free, fits, made) = costs.0 got in inr (is, free, fits, made)
      ]),
      λ spec. tests.1 (elim spec [
        | inl (off, same) ↦ inl (off, same)
        | inr (is, free, fits, made) ↦ inr (is, costs.1 (free, fits, made))
      ]),
    )
  where
    tests_iff :
        (test : Bool) (m : Result StackError Budget)
        → ((if test then m else ok b) ≡ ok paid)
          ↔ ((test ≡ false) × (paid ≡ b) ⊎ (test ≡ true) × (m ≡ ok paid))
    tests_iff test m = ground arith

checked_iff :
    (op : ℕ) (f : Frame) (max_stack max_frame_slots : ℕ) (out : List AbstractValue) (after : Frame)
    → (checked op f max_stack max_frame_slots out ≡ ok after)
      ↔ (IsWithin op f max_stack max_frame_slots out × (after ≡ with_stack f out))
checked_iff op f max_stack max_frame_slots out after =
    tests_iff (is_duplication op) (stack_slots out) max_stack
      (length f.locals + stack_slots out + f.fields) max_frame_slots (with_stack f out)
  where
    tests_iff :
        (dup : Bool) (slots most total most_total : ℕ) (made : Frame)
        → ((if dup && (ltb most slots || ltb most_total total) then err over_limit else ok made)
            ≡ ok after)
          ↔ (((dup ≡ false) ⊎ (slots ≤ most) × (total ≤ most_total)) × (after ≡ made))
    tests_iff dup slots most total most_total made = ground arith

-- At a frame whose stack holds values of one and two slots, a stack instruction succeeds exactly when
-- blocks of values that take just the slots it works on stand on top, so that no value is cut in two,
-- it leaves them dropped, copied below the next block or swapped as the virtual machine moves the
-- slots, and for a duplication the new stack keeps to both limits and the budget pays for two copies
-- of the four values that were on top. Nothing else of the frame changes.
pub transfer_stack_operation-iff_effect :
    (op : ℕ) (f : Frame) (max_stack max_frame_slots : ℕ) (b : Budget) (after : Frame)
    (paid : Budget)
    → All IsWide f.stack
    → (transfer_stack_operation op f max_stack max_frame_slots b ≡ ok (after, paid)) ↔ (
        (out : List AbstractValue) × HasEffect op f.stack out
        × IsWithin op f max_stack max_frame_slots out
        × IsPaid op f b paid
        × (after ≡ with_stack f out))
unfolding transfer_stack_operation
transfer_stack_operation-iff_effect op f max_stack max_frame_slots b after paid all = (
  (λ h.
      let (spent, got, rest) = >>=-eq-ok (charged op f b) (run op f max_stack max_frame_slots) h in
      let (made, kept, last) =
        >>=-eq-ok (shape_of op f.stack >>= checked op f max_stack max_frame_slots)
          (λ done. ok (done, spent)) rest in
      let (out, shaped, limited) =
        >>=-eq-ok (shape_of op f.stack) (checked op f max_stack max_frame_slots) kept in
      let same = ok_injective last in
      let (within, is) = (checked_iff op f max_stack max_frame_slots out made).0 limited in
      (
        out,
        (shape_of_iff op f.stack out all).0 shaped,
        within,
        subst (IsPaid op f b) (ap (λ q. q.1) same) ((charged_iff op f b spent).0 got),
        sym (ap (λ q. q.0) same) ∙ is,
      )),
  λ (out, effect, within, bought, is).
      ap (λ m. m >>= run op f max_stack max_frame_slots) ((charged_iff op f b paid).1 bought)
      ∙ ap (λ m. m >>= checked op f max_stack max_frame_slots >>= λ done. ok (done, paid))
          ((shape_of_iff op f.stack out all).1 effect)
      ∙ ap (λ m. m >>= λ done. ok (done, paid))
          ((checked_iff op f max_stack max_frame_slots out after).1 (within, is)),
)
