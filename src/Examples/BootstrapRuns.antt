-- ===== src/Examples/BootstrapRuns.antt =====
-- Runs of `computeBootstrapFailures`.
use shell_sight.Common.{
  ℕ, ◌≡◌, ◌↔◌, refl, Bool, true, false, List, [], ◌∷◌, length, get_elem?, some,
}
use shell_sight.Pool.{CpEntry, no_entry}
use shell_sight.Constants.{MemberReference, BootstrapMethod, ClassModel}
use shell_sight.Bootstraps.{compute_bootstrap_failures, visit_from, visit, make_marks}
use shell_sight.Bootstraps.Resolves.{Resolves}
use shell_sight.Bootstraps.Failures.{compute_bootstrap_failures-iff_resolved}

abbrev entry_of : ℕ → ℕ → CpEntry
entry_of tag a = record { tag = tag; a = a; b = 0; bits = 0; text = [] }

abbrev no_member : MemberReference
no_member = record { owner = []; name = []; descriptor = []; interface = false }

abbrev method_of : List ℕ → BootstrapMethod
method_of indexes = record {
  handle = no_member;
  handle_kind = 6;
  arguments = [];
  argument_indexes = indexes;
}

-- 1 needs 2, which needs the class 3; 4 and 5 need each other.
abbrev chain_class : ClassModel
chain_class = record {
  major = 55;
  pool =
      no_entry ∷ entry_of 17 0 ∷ entry_of 17 1 ∷ entry_of 7 0 ∷ entry_of 17 2 ∷ entry_of 18 3 ∷ [];
  bootstraps =
      method_of (2 ∷ []) ∷ method_of (3 ∷ []) ∷ method_of (5 ∷ []) ∷ method_of (3 ∷ 4 ∷ []) ∷ [];
}

cycle_run :
    compute_bootstrap_failures chain_class ≡ some (false ∷ false ∷ false ∷ false ∷ true ∷ true ∷ [])
unfolding compute_bootstrap_failures visit_from visit make_marks
cycle_run = refl

compute_bootstrap_failures-iff_resolved_example :
    (failures : List Bool) × (compute_bootstrap_failures chain_class ≡ some failures)
    × (length failures ≡ 6)
    × ((failed : Bool) × (get_elem? failures 4 ≡ some failed)
        × ((failed ≡ false) ↔ Resolves chain_class 4))
compute_bootstrap_failures-iff_resolved_example =
    compute_bootstrap_failures-iff_resolved chain_class 4 (entry_of 17 2) refl refl
