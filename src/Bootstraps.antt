-- ===== src/Bootstraps.antt =====
-- classmodel.go: `computeBootstrapFailures`, the search for the dynamic constants that cannot be
-- resolved. Its two slices are the marks of the constants: a state and a failure. `none` is the end of
-- the fuel.
use shell_sight.Common.{
  ℕ, zero, suc, ◌+◌, Bool, true, false, not, ◌||◌, List, [], ◌∷◌, length, get_elem?, get_or, set,
  if◌then◌else◌, ◌==◌, Option, none, some,
}
use shell_sight.Pool.{CpEntry, cp_dynamic, cp_invoke_dynamic}
use shell_sight.Constants.{BootstrapMethod, ClassModel}
pub mod Resolves
pub mod Marks
pub mod Search
pub mod Entries
pub mod Failures

pub record Marked : Type 0 where
  pub failures : List Bool
  pub states : List ℕ

abbrev pub is_dynamic : ℕ → Bool
is_dynamic tag = tag == cp_dynamic || tag == cp_invoke_dynamic

-- 0 for a constant not visited, 1 for one in progress, 2 for one done.
abbrev pub state_of : Marked → ℕ → ℕ
state_of s index = get_or s.states index 0

abbrev pub failure_of : Marked → ℕ → Bool
failure_of s index = get_or s.failures index true

abbrev pub Visit : Type 0
Visit = Option (Bool × Marked)

abbrev pub begin : ℕ → Marked → Marked
begin index s = record { failures = s.failures; states = set s.states index 1 }

abbrev pub finish : ℕ → Bool → Marked → Marked
finish index failed s = record {
  failures = set s.failures index failed;
  states = set s.states index 2;
}

abbrev pub finished : ℕ → Visit → Visit
finished index none = none
finished index (some (failed, s)) = some (failed, finish index failed s)

-- The loop over the arguments, which stops at the first that fails.
abbrev pub go_on : (Marked → Visit) → Visit → Visit
go_on rest none = none
go_on rest (some (true, after)) = some (true, after)
go_on rest (some (false, after)) = rest after

abbrev pub visit_arguments : (ℕ → Marked → Visit) → List ℕ → Marked → Visit
visit_arguments visit_one [] s = some (false, s)
visit_arguments visit_one (argument ∷ more) s =
    go_on (visit_arguments visit_one more) (visit_one argument s)

-- The bootstrap method of a dynamic constant, where there is one.
abbrev pub visit_method : (ℕ → Marked → Visit) → Option BootstrapMethod → Marked → Visit
visit_method visit_one none s = some (true, s)
visit_method visit_one (some method) s = visit_arguments visit_one method.argument_indexes s

abbrev pub visit_entry :
    (ℕ → Marked → Visit) → List BootstrapMethod → ℕ → Marked → Option CpEntry → Visit
visit_entry visit_one bootstraps index s none = some (true, s)
visit_entry visit_one bootstraps index s (some entry) =
    if not (is_dynamic entry.tag)
    then some (false, s)
    else if state_of s index == 1
    then some (true, s)
    else if state_of s index == 2
    then some (failure_of s index, s)
    else finished index (visit_method visit_one (get_elem? bootstraps entry.a) (begin index s))

unfoldable pub visit : ℕ → ClassModel → ℕ → Marked → Visit
visit zero cf index s = none
visit (suc fuel) cf index s =
    visit_entry (visit fuel cf) cf.bootstraps index s (get_elem? cf.pool index)

-- The loop over the slots from `index` on. Each search has one round more than there are slots.
unfoldable pub visit_from : ClassModel → ℕ → List CpEntry → Marked → Option Marked
visit_from cf index [] s = some s
visit_from cf index (entry ∷ more) s = elim (is_dynamic entry.tag) [
  | false ↦ visit_from cf (suc index) more s
  | true ↦ elim (visit (length cf.pool + 1) cf index s) [
    | none ↦ none
    | some (failed, after) ↦ visit_from cf (suc index) more after
  ]
]

-- `make` of a slice: zeros.
unfoldable pub make_marks : List CpEntry → Marked
make_marks [] = record { failures = []; states = [] }
make_marks (entry ∷ more) = record {
  failures = false ∷ (make_marks more).failures;
  states = 0 ∷ (make_marks more).states;
}

abbrev pub failures_of : Option Marked → Option (List Bool)
failures_of none = none
failures_of (some s) = some s.failures

unfoldable pub compute_bootstrap_failures : ClassModel → Option (List Bool)
compute_bootstrap_failures cf = failures_of (visit_from cf 0 cf.pool (make_marks cf.pool))
