-- ===== src/Bootstraps/Search.antt =====
-- What one search leaves behind: its steps keep the marks true.
use shell_sight.Common.{
  ℕ, ◌≤◌, ◌<◌, ◌≡◌, ◌≢◌, ◌⊎◌, inl, inr, refl, sym, ap, ◌∙◌, subst, arith, Bool, true, false, List,
  [], ◌∷◌, length, length-set, get_elem?, some, All, Any, Bool-cases,
}
use shell_sight.Pool.{CpEntry}
use shell_sight.Constants.{ClassModel}
use shell_sight.Bootstraps.{
  Marked, Visit, state_of, failure_of, begin, finish, go_on, visit_arguments, is_dynamic,
}
use shell_sight.Bootstraps.Resolves.{Resolves, Needs}
use shell_sight.Bootstraps.Marks.{set_here, set_other, zeros, zeros-set_le, zeros-set_lt}

-- A failure is marked exactly at what is not resolved.
abbrev pub Verdict : ClassModel → ℕ → Bool → Type 0
Verdict cf index failed =
    (failed ≡ false → Resolves cf index) × (failed ≡ true → Resolves cf index → ⊥)

pub record IsMarked (cf : ClassModel) (s : Marked) : Type 0 where
  pub state_size : length s.states ≡ length cf.pool
  pub failure_size : length s.failures ≡ length cf.pool
  pub small : (i : ℕ) → state_of s i ≤ 2
  pub answers : (i : ℕ) → state_of s i ≡ 2 → Verdict cf i (failure_of s i)

pub record After (cf : ClassModel) (s after : Marked) : Type 0 where
  pub marked : IsMarked cf after
  pub stack : (i : ℕ) → state_of after i ≡ 1 → state_of s i ≡ 1
  pub kept : (i : ℕ) → state_of s i ≡ 2 → state_of after i ≡ 2
  pub fewer : zeros after.states ≤ zeros s.states

pub After-refl : (cf : ClassModel) (s : Marked) → IsMarked cf s → After cf s s
After-refl cf s marked = record {
  marked = marked;
  stack = λ i is. is;
  kept = λ i is. is;
  fewer = omega arith;
}

pub After-trans : (cf : ClassModel) (s t u : Marked) → After cf s t → After cf t u → After cf s u
After-trans cf s t u first second =
    let less = first.fewer in
    let less' = second.fewer in
    record {
      marked = second.marked;
      stack = λ i is. first.stack i (second.stack i is);
      kept = λ i is. second.kept i (first.kept i is);
      fewer = omega arith;
    }

same_or_other : (i j : ℕ) → (i ≡ j) ⊎ (i ≢ j)
same_or_other i j = omega arith

-- The marks with a constant in progress.
module _ (cf : ClassModel) (s : Marked) (index : ℕ) (marked : IsMarked cf s)
    (inside : index < length cf.pool) (fresh : state_of s index ≡ 0) where
  pub state-begin : state_of (begin index s) index ≡ 1
  state-begin = let size = marked.state_size in set_here s.states index 1 0 (omega arith)

  pub state-begin_other : (i : ℕ) → i ≢ index → state_of (begin index s) i ≡ state_of s i
  state-begin_other i other = set_other s.states index i 1 0 other

  pub begin-IsMarked : IsMarked cf (begin index s)
  begin-IsMarked = record {
    state_size = length-set s.states index 1 ∙ marked.state_size;
    failure_size = marked.failure_size;
    small = λ i. elim (same_or_other i index) [
      | inl same ↦ let is = ap (state_of (begin index s)) same ∙ state-begin in omega arith
      | inr other ↦ let is = state-begin_other i other in let below = marked.small i in omega arith
    ];
    answers = λ i is_done. elim (same_or_other i index) [
      | inl same ↦ let is = ap (state_of (begin index s)) same ∙ state-begin in absurd (omega arith)
      | inr other ↦ marked.answers i (sym (state-begin_other i other) ∙ is_done)
    ];
  }

  pub zeros-begin : zeros (begin index s).states < zeros s.states
  zeros-begin =
      let size = marked.state_size in zeros-set_lt s.states index 1 (λ z. cc z) (omega arith) fresh

  -- The constant is done, with this verdict.
  pub finish-After :
      (failed : Bool) (t : Marked)
      → After cf (begin index s) t
      → Verdict cf index failed
      → After cf s (finish index failed t) × (state_of (finish index failed t) index ≡ 2)
  finish-After failed t worked verdict =
      let sizes = worked.marked.state_size in
      let failure_sizes = worked.marked.failure_size in
      let done : state_of (finish index failed t) index ≡ 2 =
        set_here t.states index 2 0 (omega arith) in
      let failure : failure_of (finish index failed t) index ≡ failed =
        set_here t.failures index failed true (omega arith) in
      let others : (i : ℕ) → i ≢ index → state_of (finish index failed t) i ≡ state_of t i =
        λ i other. set_other t.states index i 2 0 other in
      (
        record {
          marked = record {
            state_size = length-set t.states index 2 ∙ sizes;
            failure_size = length-set t.failures index failed ∙ failure_sizes;
            small = λ i. elim (same_or_other i index) [
              | inl same ↦ let is = ap (state_of (finish index failed t)) same ∙ done in omega arith
              | inr other ↦
                  let is = others i other in let below = worked.marked.small i in omega arith
            ];
            answers = λ i is_done. elim (same_or_other i index) [
              | inl same ↦
                  subst (λ j. Verdict cf j (failure_of (finish index failed t) j)) (sym same)
                    (subst (Verdict cf index) (sym failure) verdict)
              | inr other ↦
                  subst (Verdict cf i) (sym (set_other t.failures index i failed true other))
                    (worked.marked.answers i (sym (others i other) ∙ is_done))
            ];
          };
          stack = λ i is_open. elim (same_or_other i index) [
            | inl same ↦
                let is = ap (state_of (finish index failed t)) same ∙ done in absurd (omega arith)
            | inr other ↦
                sym (state-begin_other i other) ∙ worked.stack i (sym (others i other) ∙ is_open)
          ];
          kept = λ i is_done. elim (same_or_other i index) [
            | inl same ↦ let is = ap (state_of s) same ∙ fresh in absurd (omega arith)
            | inr other ↦ others i other ∙ worked.kept i (state-begin_other i other ∙ is_done)
          ];
          fewer =
              let one = zeros-set_le t.states index 2 (λ z. cc z) in
              let two = worked.fewer in let three = zeros-begin in omega arith;
        },
        done,
      )

-- A visit that returns, with the truth, while there are few constants to visit.
abbrev pub Visits : ClassModel → (ℕ → Marked → Visit) → ℕ → Type 0
Visits cf visit_one bound =
    (index : ℕ) (s : Marked)
    → IsMarked cf s
    → zeros s.states < bound
    → ((i : ℕ) → state_of s i ≡ 1 → Needs cf i index)
    → (failed : Bool) × (after : Marked) × (visit_one index s ≡ some (failed, after))
      × Verdict cf index failed
      × After cf s after
      × ((entry : CpEntry)
          → get_elem? cf.pool index ≡ some entry
          → is_dynamic entry.tag ≡ true
          → state_of s index ≢ 1
          → state_of after index ≡ 2)

pub visit_arguments_total :
    (cf : ClassModel) (visit_one : ℕ → Marked → Visit) (bound : ℕ)
    → Visits cf visit_one bound
    → (xs : List ℕ) (s : Marked) → IsMarked cf s
    → zeros s.states < bound
    → ((x i : ℕ) → Any (λ y. y ≡ x) xs → state_of s i ≡ 1 → Needs cf i x)
    → (failed : Bool) × (after : Marked) × (visit_arguments visit_one xs s ≡ some (failed, after))
      × (failed ≡ false → All (Resolves cf) xs)
      × (failed ≡ true → All (Resolves cf) xs → ⊥)
      × After cf s after
visit_arguments_total cf visit_one bound visits [] s marked few stack =
    (false, s, refl, (λ is. tt), (λ is. cc is), After-refl cf s marked)
visit_arguments_total cf visit_one bound visits (x ∷ xs) s marked few stack =
    let (failed, after, visited, verdict, moved, _) =
      visits x s marked few (λ i is. stack x i (inl refl) is) in
    let less = moved.fewer in
    let (failed', after', went, all, none_left, moved') =
      visit_arguments_total cf visit_one bound visits xs after moved.marked (omega arith)
        (λ y i there is. stack y i (inr there) (moved.stack i is)) in
    elim (Bool-cases failed) [
      | inl stop ↦ (
        true,
        after,
        ap (go_on (visit_arguments visit_one xs)) (visited ∙ ap (λ b. some (b, after)) stop),
        (λ is. cc is),
        (λ is (first, more). verdict.1 stop first),
        moved,
      )
      | inr go ↦ (
        failed',
        after',
        ap (go_on (visit_arguments visit_one xs)) (visited ∙ ap (λ b. some (b, after)) go) ∙ went,
        (λ is. (verdict.0 go, all is)),
        (λ is (first, more). none_left is more),
        After-trans cf s after after' moved moved',
      )
    ]
