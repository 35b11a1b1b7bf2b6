-- ===== src/Operands/Costs.antt =====
-- The budget pays for a copy of values exactly when their whole cost fits.
use shell_sight.Common.{
  ℕ, zero, suc, ◌+◌, ◌≤◌, ◌≡◌, ◌↔◌, refl, sym, ap, ◌∙◌, subst, arith, Bool, false, List, [], ◌∷◌,
  length, ltb, if◌then◌else◌,
}
use shell_sight.Common.Result.{Result, ok, err, ◌>>=◌, >>=-eq-ok, ok_injective}
use shell_sight.Operands.{
  AbstractValue, Budget, StackError, context_done, exhausted, add_units, add_value, add_values,
  add_copies, spend, charge_value_copies,
}

-- A value costs one unit, and one for each step of its provenance and each object.
unfoldable pub cost : List AbstractValue → ℕ
cost [] = 0
cost (value ∷ more) = length value.provenance + length value.object_ids + 1 + cost more

unfoldable pub copies_cost : ℕ → List AbstractValue → ℕ
copies_cost zero values = 0
copies_cost (suc copies) values = cost values + copies_cost copies values

-- A sum that is checked at each step.
abbrev Adds : Budget → (ℕ → Result StackError ℕ) → ℕ → Type 0
Adds b step units =
    (total after : ℕ)
    → b.used + total ≤ b.limit
    → (step total ≡ ok after) ↔ ((b.used + (total + units) ≤ b.limit) × (after ≡ total + units))

units-Adds : (b : Budget) (units : ℕ) → Adds b (add_units b units) units
units-Adds b units total after fits = ground arith

chain-Adds :
    (b : Budget) (first second : ℕ → Result StackError ℕ) (m n : ℕ)
    → Adds b first m
    → Adds b second n
    → Adds b (λ total. first total >>= second) (m + n)
chain-Adds b first second m n one two total after fits = (
  (λ h.
      let (mid, got, rest) = >>=-eq-ok (first total) second h in
      let (below, is) = (one total mid fits).0 got in
      let (below', is') = (two mid after (omega arith)).0 rest in (omega arith, omega arith)),
  λ (below, is).
      ap (λ t. t >>= second) ((one total (total + m) fits).1 (omega arith, refl))
      ∙ (two (total + m) after (omega arith)).1 (omega arith, omega arith),
)

nothing-Adds : (b : Budget) → Adds b (λ total. ok total) 0
nothing-Adds b total after fits = (
  (λ h. let same = ok_injective h in (omega arith, omega arith)),
  λ (below, is). let same : total ≡ after = omega arith in ap (λ t. ok t) same,
)

same_units :
    (b : Budget) (step : ℕ → Result StackError ℕ) (m n : ℕ) → m ≡ n → Adds b step m → Adds b step n
same_units b step m n same adds = subst (Adds b step) same adds

value-Adds :
    (b : Budget) (value : AbstractValue)
    → Adds b (add_value b value) (length value.provenance + length value.object_ids + 1)
unfolding add_value
value-Adds b value =
    chain-Adds b
      (λ total.
        add_units b (length value.provenance) total >>= add_units b (length value.object_ids))
      (add_units b 1) (length value.provenance + length value.object_ids) 1
      (chain-Adds b (add_units b (length value.provenance)) (add_units b (length value.object_ids))
        (length value.provenance) (length value.object_ids) (units-Adds b (length value.provenance))
        (units-Adds b (length value.object_ids)))
      (units-Adds b 1)

values_add : (b : Budget) (values : List AbstractValue) → Adds b (add_values b values) (cost values)
unfolding add_values cost
values_add b [] = nothing-Adds b
values_add b (value ∷ more) =
    chain-Adds b (add_value b value) (add_values b more)
      (length value.provenance + length value.object_ids + 1) (cost more) (value-Adds b value)
      (values_add b more)

copies_add :
    (b : Budget) (copies : ℕ) (values : List AbstractValue)
    → Adds b (add_copies b copies values) (copies_cost copies values)
unfolding add_copies copies_cost
copies_add b zero values = nothing-Adds b
copies_add b (suc copies) values =
    chain-Adds b (add_values b values) (add_copies b copies values) (cost values)
      (copies_cost copies values) (values_add b values) (copies_add b copies values)

-- The copies of some values are charged exactly when the context has no error and the base and the
-- cost of all copies fit into what is left of the budget, which then has spent just that.
pub charge_value_copies-iff_cost :
    (base : ℕ) (values : List AbstractValue) (copies : ℕ) (b after : Budget)
    → (charge_value_copies base values copies b ≡ ok after) ↔ (
        (b.cancelled ≡ false)
        × (b.used + (base + copies_cost copies values) ≤ b.limit)
        × (after ≡ record {
          limit = b.limit;
          used = b.used + (base + copies_cost copies values);
          cancelled = b.cancelled;
        }))
unfolding charge_value_copies
charge_value_copies-iff_cost base values copies b after =
    let tests =
      tests_iff b.cancelled b.limit (b.used + base) (add_copies b copies values base >>= spend b) in
    (
      (λ h.
          let (free, fits, rest) = tests.0 h in
          let (total, got, is) = >>=-eq-ok (add_copies b copies values base) (spend b) rest in
          let (below, sum) = (copies_add b copies values base total fits).0 got in
          (
            free,
            below,
            sym (ok_injective is)
                ∙ ap (λ t. record { limit = b.limit; used = b.used + t; cancelled = b.cancelled })
                    sum,
          )),
      λ (free, below, is). tests.1 (
        free,
        omega arith,
        ap (λ t. t >>= spend b)
              ((copies_add b copies values base (base + copies_cost copies values) (omega arith)).1
                (below, refl))
            ∙ ap (λ o. ok o) (sym is),
      ),
    )
  where
    tests_iff :
        (cancelled : Bool) (limit sum : ℕ) (rest : Result StackError Budget)
        → ((if cancelled then err context_done else if ltb limit sum then err exhausted else rest)
            ≡ ok after)
          ↔ ((cancelled ≡ false) × (sum ≤ limit) × (rest ≡ ok after))
    tests_iff cancelled limit sum rest = ground arith
