-- ===== src/Constants/Pools.antt =====
-- `validateConstantPoolReferences` accepts exactly the well-formed pools.
use shell_sight.Common.{
  ℕ, suc, ◌+◌, ◌≡◌, ◌≢◌, ◌↔◌, ◌⊎◌, refl, ap, ◌∙◌, arith, List, [], ◌∷◌, get_elem?,
}
use shell_sight.Common.Result.{ok, ◌>>=◌}
use shell_sight.Pool.{CpEntry}
use shell_sight.Constants.{ClassModel}
use shell_sight.Constants.Validate.{
  Accepts, check_constant, check_from, validate_constant_pool_references,
}
use shell_sight.Constants.Spec.{IsWellFormed}
use shell_sight.Constants.Accepted.{check_constant-iff_formed}
use shell_sight.Constants.Names.{chain_iff}

-- What the format asks of the slots from `index` on.
abbrev pub AreFormed : ClassModel → ℕ → List CpEntry → Type 0
AreFormed cf index [] = Unit
AreFormed cf index (entry ∷ more) =
    ((entry.tag ≡ 0) ⊎ (entry.tag ≢ 0) × IsWellFormed cf index entry)
    × AreFormed cf (suc index) more

check_from_iff :
    (cf : ClassModel) (entries : List CpEntry) (index : ℕ)
    → ((k : ℕ) → get_elem? cf.pool (index + k) ≡ get_elem? entries k)
    → (check_from cf index entries ≡ ok tt) ↔ AreFormed cf index entries
unfolding check_from
check_from_iff cf [] index same = ((λ h. tt), λ all. refl)
check_from_iff cf (first ∷ more) index same =
    let here : index ≡ index + 0 = omega arith in
    let next : (k : ℕ) → get_elem? cf.pool (suc index + k) ≡ get_elem? more k = λ k.
      let step : suc index + k ≡ index + suc k = omega arith in
      ap (get_elem? cf.pool) step ∙ same (suc k) in
    chain_iff_unit (check_constant cf index first) (check_from cf (suc index) more)
      (check_constant-iff_formed cf index first (ap (get_elem? cf.pool) here ∙ same 0))
      (check_from_iff cf more (suc index) next)
  where
    chain_iff_unit :
        (m rest : Accepts) {P Q : Type 0}
        → (m ≡ ok tt) ↔ P
        → (rest ≡ ok tt) ↔ Q
        → ((m >>= λ checked. rest) ≡ ok tt) ↔ (P × Q)
    chain_iff_unit m rest first second =
        let chain = chain_iff m (λ checked. rest) (λ done. first) (λ done. second) in
        ((λ h. let (_, p, q) = chain.0 h in (p, q)), λ (p, q). chain.1 (tt, p, q))

-- A constant pool is accepted exactly when every slot of it is unused or holds a constant with what the
-- format asks of its tag: handles, method types and dynamic calls come with version 51, modules and
-- packages with 53, dynamic constants with 55; and the references of classes, strings, modules,
-- packages, members, names with types, handles, method types, dynamic constants and dynamic calls are
-- followed to the end, to texts, classes and members of the right tags, handles of a kind that fits their member, and
-- names and descriptors of the grammar. A tag that the format does not have asks nothing.
pub validate_constant_pool_references-iff_formed :
    (cf : ClassModel) → (validate_constant_pool_references cf ≡ ok tt) ↔ AreFormed cf 0 cf.pool
unfolding validate_constant_pool_references
validate_constant_pool_references-iff_formed cf =
    check_from_iff cf cf.pool 0
      λ k. let from_zero : 0 + k ≡ k = omega arith in ap (get_elem? cf.pool) from_zero
