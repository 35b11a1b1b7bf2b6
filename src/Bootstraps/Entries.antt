-- ===== src/Bootstraps/Entries.antt =====
-- The visit of one constant, by its tag and its state.
use shell_sight.Common.{
  ℕ, zero, suc, ◌<◌, ◌≡◌, ◌≢◌, inl, inr, refl, sym, ap, ◌∙◌, subst, arith, Bool, true, false, List,
  [], ◌∷◌, length, get_elem?, none, some, All, Bool-cases, Option-cases, ◌==◌, ==_iff,
}
use shell_sight.Pool.{CpEntry}
use shell_sight.Constants.{BootstrapMethod, ClassModel}
use shell_sight.Bootstraps.{
  Marked, Visit, state_of, failure_of, begin, finish, finished, visit_method, is_dynamic,
}
use shell_sight.Bootstraps.Resolves.{
  All-map, Resolves, Needs, Resolves-together, Needs-trans, Needs-cycle, Needs-argument,
}
use shell_sight.Bootstraps.Marks.{zeros}
use shell_sight.Bootstraps.Search.{
  Verdict, IsMarked, After, After-refl, Visits, visit_arguments_total, begin-IsMarked, zeros-begin,
  state-begin_other, finish-After,
}

pub get_elem?-lt :
    {A : Type 0} (xs : List A) (i : ℕ) (x : A) → get_elem? xs i ≡ some x → i < length xs
get_elem?-lt [] i x h = cc h
get_elem?-lt (y ∷ ys) zero x h = omega arith
get_elem?-lt (y ∷ ys) (suc i) x h = let less = get_elem?-lt ys i x h in omega arith

-- What a search for one constant gives, by the state of the constant.
abbrev pub VisitsAt : ClassModel → ℕ → Marked → Visit → Type 0
VisitsAt cf index s out =
    (failed : Bool) × (after : Marked) × (out ≡ some (failed, after))
    × Verdict cf index failed
    × After cf s after
    × ((entry : CpEntry)
        → get_elem? cf.pool index ≡ some entry
        → is_dynamic entry.tag ≡ true
        → state_of s index ≢ 1
        → state_of after index ≡ 2)

module _ (cf : ClassModel) (index : ℕ) (s : Marked) (marked : IsMarked cf s) (entry : CpEntry)
    (at : get_elem? cf.pool index ≡ some entry) where
  pub plain_visit : is_dynamic entry.tag ≡ false → VisitsAt cf index s (some (false, s))
  plain_visit plain = (
    false,
    s,
    refl,
    ((λ is. (1, (entry, at, inl plain))), λ is. cc is),
    After-refl cf s marked,
    λ other at' dynamic new.
        let same : entry ≡ other = cc (sym at ∙ at') in
        cc (sym plain ∙ ap (λ e. is_dynamic e.tag) same ∙ dynamic),
  )

  pub open_visit :
      Needs cf index index → state_of s index ≡ 1 → VisitsAt cf index s (some (true, s))
  open_visit cycle is_open = (
    true,
    s,
    refl,
    ((λ is. cc is), λ is. Needs-cycle cf index cycle),
    After-refl cf s marked,
    λ other at' dynamic new. absurd (new is_open),
  )

  pub done_visit : state_of s index ≡ 2 → VisitsAt cf index s (some (failure_of s index, s))
  done_visit is_done = (
    failure_of s index,
    s,
    refl,
    marked.answers index is_done,
    After-refl cf s marked,
    λ other at' dynamic new. is_done,
  )

  -- A method whose arguments have been visited.
  finish_visit :
      (fresh : state_of s index ≡ 0) (out : Visit) (failed : Bool) (after : Marked)
      → out ≡ some (failed, after)
      → After cf (begin index s) after
      → Verdict cf index failed
      → VisitsAt cf index s (finished index out)
  finish_visit fresh out failed after is worked verdict =
      let inside = get_elem?-lt cf.pool index entry at in
      let (moved, done) = finish-After cf s index marked inside fresh failed after worked verdict in
      (
        failed,
        finish index failed after,
        ap (finished index) is,
        verdict,
        moved,
        λ other at' dynamic new. done,
      )

  no_method :
      get_elem? cf.bootstraps entry.a ≡ none → is_dynamic entry.tag ≡ true → Resolves cf index → ⊥
  no_method gone dynamic (zero, r) = absurd r
  no_method gone dynamic (suc depth, (entry', at', inl plain)) =
      let same : entry ≡ entry' = cc (sym at ∙ at') in
      cc (sym dynamic ∙ ap (λ e. is_dynamic e.tag) same ∙ plain)
  no_method gone dynamic (suc depth, (entry', at', inr (_, (method, has, all)))) =
      let same : entry ≡ entry' = cc (sym at ∙ at') in
      cc (sym gone ∙ ap (λ e. get_elem? cf.bootstraps e.a) same ∙ has)

  open_reaches :
      (fresh : state_of s index ≡ 0) (method : BootstrapMethod) (x i : ℕ)
      → Needs cf index x
      → ((i : ℕ) → state_of s i ≡ 1 → Needs cf i index)
      → state_of (begin index s) i ≡ 1
      → Needs cf i x
  open_reaches fresh method x i last stack is_open =
      let inside = get_elem?-lt cf.pool index entry at in
      elim (Bool-cases (i == index)) [
        | inl yes_same ↦ subst (λ j. Needs cf j x) (sym ((==_iff i index).0 yes_same)) last
        | inr no_same ↦
            let other : i ≢ index = (λ is. cc (sym ((==_iff i index).1 is) ∙ no_same)) in
            Needs-trans cf i index x
              (stack i (sym (state-begin_other cf s index marked inside fresh i other) ∙ is_open))
              last
      ]

  arguments_resolve :
      (method : BootstrapMethod)
      → is_dynamic entry.tag ≡ true
      → get_elem? cf.bootstraps entry.a ≡ some method
      → Resolves cf index
      → All (Resolves cf) method.argument_indexes
  arguments_resolve method dynamic has (zero, r) = absurd r
  arguments_resolve method dynamic has (suc depth, (entry', at', inl plain)) =
      let same : entry ≡ entry' = cc (sym at ∙ at') in
      absurd (cc (sym dynamic ∙ ap (λ e. is_dynamic e.tag) same ∙ plain))
  arguments_resolve method dynamic has (suc depth, (entry', at', inr (_, (method', has', all)))) =
      let same : entry' ≡ entry = cc (sym at' ∙ at) in
      let same_method : method' ≡ method =
        cc (sym has' ∙ ap (λ e. get_elem? cf.bootstraps e.a) same ∙ has) in
      subst (λ m. All (Resolves cf) m.argument_indexes) same_method
        (All-map method'.argument_indexes (λ x r. (depth, r)) all)

  pub fresh_visit :
      (visit_one : ℕ → Marked → Visit) (fuel : ℕ)
      → Visits cf visit_one fuel
      → is_dynamic entry.tag ≡ true
      → (fresh : state_of s index ≡ 0) → zeros s.states < suc fuel
      → ((i : ℕ) → state_of s i ≡ 1 → Needs cf i index)
      → VisitsAt cf index s (
          finished index (visit_method visit_one (get_elem? cf.bootstraps entry.a) (begin index s)))
  fresh_visit visit_one fuel visits dynamic fresh few stack =
      let inside = get_elem?-lt cf.pool index entry at in
      let started = begin-IsMarked cf s index marked inside fresh in
      elim (Option-cases (get_elem? cf.bootstraps entry.a)) [
        | inl gone ↦
            finish_visit fresh _ true (begin index s)
              (ap (λ m. visit_method visit_one m (begin index s)) gone)
              (After-refl cf (begin index s) started) ((λ is. cc is), λ is. no_method gone dynamic)
        | inr (method, has) ↦
            let less = zeros-begin cf s index marked inside fresh in
            let (failed, after, went, all, none_left, moved) =
              visit_arguments_total cf visit_one fuel visits method.argument_indexes (begin index s)
                started (omega arith)
                (λ x i there is_open.
                  open_reaches fresh method x i
                    (Needs-argument cf index entry method x at dynamic has there) stack is_open) in
            finish_visit fresh _ failed after
              (ap (λ m. visit_method visit_one m (begin index s)) has ∙ went) moved
              (
                (λ is.
                    let (depth, together) = Resolves-together cf method.argument_indexes (all is) in
                    (suc depth, (entry, at, inr (dynamic, (method, has, together))))),
                λ is resolved. none_left is (arguments_resolve method dynamic has resolved),
              )
      ]
