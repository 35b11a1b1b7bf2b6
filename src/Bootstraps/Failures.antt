-- ===== src/Bootstraps/Failures.antt =====
-- `computeBootstrapFailures` marks exactly the dynamic constants that cannot be resolved.
use shell_sight.Common.{
  ℕ, zero, suc, ◌+◌, ◌≤◌, ◌<◌, ◌≡◌, ◌≢◌, ◌↔◌, ◌⊎◌, inl, inr, refl, sym, ap, ◌∙◌, subst, arith, Bool,
  true, false, not, List, [], ◌∷◌, length, get_elem?, get_or, none, some, Bool-cases, Option-cases,
  ◌==◌, if◌then◌else◌,
}
use shell_sight.Pool.{CpEntry}
use shell_sight.Constants.{ClassModel}
use shell_sight.Bootstraps.{
  Marked, state_of, failure_of, begin, finished, visit_method, visit_entry, is_dynamic, visit,
  visit_from, make_marks, failures_of, compute_bootstrap_failures,
}
use shell_sight.Bootstraps.Resolves.{Resolves}
use shell_sight.Bootstraps.Marks.{zeros_le}
use shell_sight.Bootstraps.Search.{Verdict, IsMarked, After, After-refl, After-trans, Visits}
use shell_sight.Bootstraps.Entries.{
  VisitsAt, get_elem?-lt, plain_visit, open_visit, done_visit, fresh_visit,
}

-- The tests of the visit, over any branches.
module _ {A : Type 0} (x y z w : A) (dynamic : Bool) (state : ℕ) where
  abbrev choice : A
  choice = if not dynamic then x else if state == 1 then y else if state == 2 then z else w

  choice_cases :
      state ≤ 2
      → (dynamic ≡ false) × (choice ≡ x)
        ⊎ ((dynamic ≡ true) × (state ≡ 1) × (choice ≡ y)
            ⊎ ((dynamic ≡ true) × (state ≡ 2) × (choice ≡ z)
                ⊎ (dynamic ≡ true) × (state ≡ 0) × (choice ≡ w)))
  choice_cases small = ground arith

out_of_pool :
    (cf : ClassModel) (index : ℕ) (s : Marked)
    → IsMarked cf s
    → get_elem? cf.pool index ≡ none
    → VisitsAt cf index s (some (true, s))
out_of_pool cf index s marked gone = (
  true,
  s,
  refl,
  ((λ is. cc is), λ is resolved. nothing resolved),
  After-refl cf s marked,
  λ other at' dynamic new. cc (sym gone ∙ at'),
)
  where
    nothing : Resolves cf index → ⊥
    nothing (zero, r) = absurd r
    nothing (suc depth, (entry, at', how)) = cc (sym gone ∙ at')

-- With more fuel than constants to visit, every visit returns, with the truth.
visit_total : (cf : ClassModel) (fuel : ℕ) → Visits cf (visit fuel cf) fuel
unfolding visit
visit_total cf zero index s marked few stack = absurd (omega arith)
visit_total cf (suc fuel) index s marked few stack = elim (Option-cases (get_elem? cf.pool index)) [
  | inl gone ↦
      subst (VisitsAt cf index s)
        (sym (ap (visit_entry (visit fuel cf) cf.bootstraps index s) gone))
        (out_of_pool cf index s marked gone)
  | inr (entry, at) ↦
      subst (VisitsAt cf index s) (sym (ap (visit_entry (visit fuel cf) cf.bootstraps index s) at))
        (at_entry entry at (visit_total cf fuel))
]
  where
    at_entry :
        (entry : CpEntry)
        → get_elem? cf.pool index ≡ some entry
        → Visits cf (visit fuel cf) fuel
        → VisitsAt cf index s (visit_entry (visit fuel cf) cf.bootstraps index s (some entry))
    at_entry entry at visits =
        let cases =
          choice_cases (some (false, s)) (some (true, s)) (some (failure_of s index, s))
            (finished index
              (visit_method (visit fuel cf) (get_elem? cf.bootstraps entry.a) (begin index s)))
            (is_dynamic entry.tag) (state_of s index) (marked.small index) in
        elim cases [
          | inl (plain, is) ↦
              subst (VisitsAt cf index s) (sym is) (plain_visit cf index s marked entry at plain)
          | inr (inl (dynamic, is_open, is)) ↦
              subst (VisitsAt cf index s) (sym is)
                (open_visit cf index s marked entry at (stack index is_open) is_open)
          | inr (inr (inl (dynamic, is_done, is))) ↦
              subst (VisitsAt cf index s) (sym is) (done_visit cf index s marked entry at is_done)
          | inr (inr (inr (dynamic, fresh, is))) ↦ subst (VisitsAt cf index s) (sym is) (
              fresh_visit cf index s marked entry at (visit fuel cf) fuel visits dynamic fresh few
                stack)
        ]

-- What the loop over the slots leaves.
abbrev Sweeps : ClassModel → ℕ → List CpEntry → Marked → Type 0
Sweeps cf index entries s =
    (after : Marked) × (visit_from cf index entries s ≡ some after)
    × After cf s after
    × ((k : ℕ) (entry : CpEntry)
        → get_elem? entries k ≡ some entry
        → is_dynamic entry.tag ≡ true
        → state_of after (index + k) ≡ 2)

skips :
    (cf : ClassModel) (index : ℕ) (entry : CpEntry) (more : List CpEntry) (s : Marked)
    → is_dynamic entry.tag ≡ false
    → visit_from cf index (entry ∷ more) s ≡ visit_from cf (suc index) more s
unfolding visit_from
skips cf index entry more s plain = ground arith

one_visit :
    (cf : ClassModel) (index : ℕ) (entry : CpEntry) (more : List CpEntry) (s : Marked)
    (failed : Bool) (after : Marked)
    → is_dynamic entry.tag ≡ true
    → visit (length cf.pool + 1) cf index s ≡ some (failed, after)
    → visit_from cf index (entry ∷ more) s ≡ visit_from cf (suc index) more after
unfolding visit_from
one_visit cf index entry more s failed after dynamic visited = ground arith

visit_from_total :
    (cf : ClassModel) (entries : List CpEntry) (index : ℕ) (s : Marked)
    → IsMarked cf s
    → ((i : ℕ) → state_of s i ≢ 1)
    → ((k : ℕ) → get_elem? cf.pool (index + k) ≡ get_elem? entries k)
    → Sweeps cf index entries s
visit_from_total cf [] index s marked quiet same =
    (s, unfold visit_from in refl, After-refl cf s marked, λ k entry at. cc at)
visit_from_total cf (first ∷ more) index s marked quiet same =
    let here : index ≡ index + 0 = omega arith in
    let at : get_elem? cf.pool index ≡ some first = ap (get_elem? cf.pool) here ∙ same 0 in
    let next : (k : ℕ) → get_elem? cf.pool (suc index + k) ≡ get_elem? more k = λ k.
      let step : suc index + k ≡ index + suc k = omega arith in
      ap (get_elem? cf.pool) step ∙ same (suc k) in
    elim (Bool-cases (is_dynamic first.tag)) [
      | inr plain ↦
          let (after, went, moved, done) =
            visit_from_total cf more (suc index) s marked quiet next in
          (
            after,
            skips cf index first more s plain ∙ went,
            moved,
            every first more index after (λ dynamic. cc (sym plain ∙ dynamic)) done,
          )
      | inl dynamic ↦
          let few = zeros_le s.states in
          let size = marked.state_size in
          let (failed, mid, visited, _, moved, done_here) =
            visit_total cf (length cf.pool + 1) index s marked (omega arith)
              (λ i is_open. absurd (quiet i is_open)) in
          let (after, went, moved', done) =
            visit_from_total cf more (suc index) mid moved.marked
              (λ i is_open. quiet i (moved.stack i is_open)) next in
          (
            after,
            one_visit cf index first more s failed mid dynamic visited ∙ went,
            After-trans cf s mid after moved moved',
            every first more index after
                (λ _. moved'.kept index (done_here first at dynamic (quiet index))) done,
          )
    ]
  where
    every :
        (first : CpEntry) (more : List CpEntry) (index : ℕ) (after : Marked)
        → (is_dynamic first.tag ≡ true → state_of after index ≡ 2)
        → ((k : ℕ) (entry : CpEntry)
            → get_elem? more k ≡ some entry
            → is_dynamic entry.tag ≡ true
            → state_of after (suc index + k) ≡ 2)
        → (k : ℕ) (entry : CpEntry) → get_elem? (first ∷ more) k ≡ some entry
        → is_dynamic entry.tag ≡ true
        → state_of after (index + k) ≡ 2
    every first more index after one others zero entry at dynamic =
        let here : index + 0 ≡ index = omega arith in
        let same : first ≡ entry = cc at in
        ap (state_of after) here ∙ one (ap (λ e. is_dynamic e.tag) same ∙ dynamic)
    every first more index after one others (suc k) entry at dynamic =
        let step : index + suc k ≡ suc index + k = omega arith in
        ap (state_of after) step ∙ others k entry at dynamic

made_marks :
    (pool : List CpEntry)
    → (length (make_marks pool).states ≡ length pool)
      × (length (make_marks pool).failures ≡ length pool)
      × ((i : ℕ) → state_of (make_marks pool) i ≡ 0)
unfolding make_marks
made_marks [] = (refl, refl, λ i. refl)
made_marks (entry ∷ more) =
    let (states, failures, unmarked) = made_marks more in
    (ap suc states, ap suc failures, λ i. zeroed (make_marks more).states unmarked i)
  where
    zeroed :
        (states : List ℕ)
        → ((i : ℕ) → get_or states i 0 ≡ 0)
        → (i : ℕ) → get_or (0 ∷ states) i 0 ≡ 0
    zeroed states unmarked zero = refl
    zeroed states unmarked (suc i) = unmarked i

make_marks-IsMarked : (cf : ClassModel) → IsMarked cf (make_marks cf.pool)
make_marks-IsMarked cf =
    let (states, failures, unmarked) = made_marks cf.pool in
    record {
      state_size = states;
      failure_size = failures;
      small = λ i. let is = unmarked i in omega arith;
      answers = λ i is_done. let is = unmarked i in absurd (omega arith);
    }

get_elem?-in : (xs : List Bool) (i : ℕ) → i < length xs → get_elem? xs i ≡ some (get_or xs i true)
get_elem?-in [] i small = absurd (omega arith)
get_elem?-in (x ∷ xs) zero small = refl
get_elem?-in (x ∷ xs) (suc i) small = get_elem?-in xs i (omega arith)

verdict_iff :
    (cf : ClassModel) (index : ℕ) (failed : Bool)
    → Verdict cf index failed
    → (failed ≡ false) ↔ Resolves cf index
verdict_iff cf index true (yes_resolves, no_resolves) =
    ((λ is. cc is), λ resolved. absurd (no_resolves refl resolved))
verdict_iff cf index false (yes_resolves, no_resolves) =
    ((λ is. yes_resolves refl), λ resolved. refl)

-- For a dynamic constant of the pool, the search for failures returns, and marks no failure at it
-- exactly when it can be resolved: its bootstrap method exists, and so, to some depth, do those of its
-- arguments and of theirs, with no argument outside the pool and no cycle.
pub compute_bootstrap_failures-iff_resolved :
    (cf : ClassModel) (index : ℕ) (entry : CpEntry)
    → get_elem? cf.pool index ≡ some entry
    → is_dynamic entry.tag ≡ true
    → (failures : List Bool) × (compute_bootstrap_failures cf ≡ some failures)
      × (length failures ≡ length cf.pool)
      × ((failed : Bool) × (get_elem? failures index ≡ some failed)
          × ((failed ≡ false) ↔ Resolves cf index))
unfolding compute_bootstrap_failures
compute_bootstrap_failures-iff_resolved cf index entry at dynamic =
    let (_, _, unmarked) = made_marks cf.pool in
    let (after, went, moved, done) =
      visit_from_total cf cf.pool 0 (make_marks cf.pool) (make_marks-IsMarked cf)
        (λ i is_open. let is = unmarked i in omega arith)
        (λ k. let from_zero : 0 + k ≡ k = omega arith in ap (get_elem? cf.pool) from_zero) in
    let from_zero : index ≡ 0 + index = omega arith in
    let is_done = ap (state_of after) from_zero ∙ done index entry at dynamic in
    let inside = get_elem?-lt cf.pool index entry at in
    let size = moved.marked.failure_size in
    (
      after.failures,
      ap failures_of went,
      size,
      (
        failure_of after index,
        get_elem?-in after.failures index (omega arith),
        verdict_iff cf index (failure_of after index) (moved.marked.answers index is_done),
      ),
    )
