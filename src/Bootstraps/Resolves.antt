-- ===== src/Bootstraps/Resolves.antt =====
-- The constants that can be resolved: those that are not dynamic, and the dynamic ones whose bootstrap
-- method exists and whose arguments can all be resolved before them.
use shell_sight.Common.{
  ℕ, zero, suc, ◌+◌, ◌<◌, ◌≡◌, ◌⊎◌, inl, inr, sym, ap, ◌∙◌, subst, arith, true, false, List, [],
  ◌∷◌, get_elem?, some, All, Any,
}
use shell_sight.Pool.{CpEntry}
use shell_sight.Constants.{BootstrapMethod, ClassModel}
use shell_sight.Bootstraps.{is_dynamic}

-- The arguments are followed less than `depth` deep.
abbrev pub ResolvesIn : ClassModel → ℕ → ℕ → Type 0
ResolvesIn cf zero index = ⊥
ResolvesIn cf (suc depth) index =
    (entry : CpEntry) × (get_elem? cf.pool index ≡ some entry)
    × ((is_dynamic entry.tag ≡ false)
        ⊎ (is_dynamic entry.tag ≡ true)
          × ((method : BootstrapMethod) × (get_elem? cf.bootstraps entry.a ≡ some method)
              × All (ResolvesIn cf depth) method.argument_indexes))

abbrev pub Resolves : ClassModel → ℕ → Type 0
Resolves cf index = (depth : ℕ) × ResolvesIn cf depth index

-- Wherever `i` is resolved, `j` is, and earlier.
abbrev pub Needs : ClassModel → ℕ → ℕ → Type 0
Needs cf i j =
    (depth : ℕ) → ResolvesIn cf depth i → (less : ℕ) × (less < depth) × ResolvesIn cf less j

pub All-map : {P Q : ℕ → Type 0} (xs : List ℕ) → ((x : ℕ) → P x → Q x) → All P xs → All Q xs
All-map [] f all = tt
All-map (x ∷ xs) f (p, all) = (f x p, All-map xs f all)

ResolvesIn-step :
    (cf : ClassModel) (depth index : ℕ)
    → ResolvesIn cf depth index
    → ResolvesIn cf (suc depth) index
ResolvesIn-step cf zero index r = absurd r
ResolvesIn-step cf (suc depth) index (entry, at, inl plain) = (entry, at, inl plain)
ResolvesIn-step cf (suc depth) index (entry, at, inr (dynamic, (method, has, all))) = (
  entry,
  at,
  inr (
    dynamic,
    (method, has, All-map method.argument_indexes (λ x. ResolvesIn-step cf depth x) all),
  ),
)

ResolvesIn-deeper :
    (cf : ClassModel) (more depth index : ℕ)
    → ResolvesIn cf depth index
    → ResolvesIn cf (more + depth) index
ResolvesIn-deeper cf zero depth index r =
    let same : depth ≡ 0 + depth = omega arith in subst (λ d. ResolvesIn cf d index) same r
ResolvesIn-deeper cf (suc more) depth index r =
    let same : suc (more + depth) ≡ suc more + depth = omega arith in
    subst (λ d. ResolvesIn cf d index) same
      (ResolvesIn-step cf (more + depth) index (ResolvesIn-deeper cf more depth index r))

-- Finitely many constants have one depth.
pub Resolves-together :
    (cf : ClassModel) (xs : List ℕ)
    → All (Resolves cf) xs
    → (depth : ℕ) × All (ResolvesIn cf depth) xs
Resolves-together cf [] all = (0, tt)
Resolves-together cf (x ∷ xs) ((one, r), all) =
    let (others, rs) = Resolves-together cf xs all in
    let same : others + one ≡ one + others = omega arith in
    (
      one + others,
      (
        subst (λ d. ResolvesIn cf d x) same (ResolvesIn-deeper cf others one x r),
        All-map xs (λ y. ResolvesIn-deeper cf one others y) rs,
      ),
    )

pub Needs-trans : (cf : ClassModel) (i j k : ℕ) → Needs cf i j → Needs cf j k → Needs cf i k
Needs-trans cf i j k first second depth r =
    let (d1, less1, r1) = first depth r in
    let (d2, less2, r2) = second d1 r1 in (d2, omega arith, r2)

-- A constant that needs itself is never resolved.
Needs-never :
    (cf : ClassModel) (i fuel depth : ℕ) → depth < fuel → Needs cf i i → ResolvesIn cf depth i → ⊥
Needs-never cf i zero depth small needs r = omega arith
Needs-never cf i (suc fuel) depth small needs r =
    let (less, below, r') = needs depth r in Needs-never cf i fuel less (omega arith) needs r'

pub Needs-cycle : (cf : ClassModel) (i : ℕ) → Needs cf i i → Resolves cf i → ⊥
Needs-cycle cf i needs (depth, r) = Needs-never cf i (suc depth) depth (omega arith) needs r

pub All-at : (P : ℕ → Type 0) (xs : List ℕ) (x : ℕ) → Any (λ y. y ≡ x) xs → All P xs → P x
All-at P (y ∷ xs) x (inl same) (p, all) = subst P same p
All-at P (y ∷ xs) x (inr there) (p, all) = All-at P xs x there all
All-at P [] x there all = absurd there

-- A dynamic constant needs its arguments.
pub Needs-argument :
    (cf : ClassModel) (i : ℕ) (entry : CpEntry) (method : BootstrapMethod) (x : ℕ)
    → get_elem? cf.pool i ≡ some entry
    → is_dynamic entry.tag ≡ true
    → get_elem? cf.bootstraps entry.a ≡ some method
    → Any (λ y. y ≡ x) method.argument_indexes
    → Needs cf i x
Needs-argument cf i entry method x at dynamic has there zero r = absurd r
Needs-argument cf i entry method x at dynamic has there (suc depth) (entry', at', inl plain) =
    let same : entry ≡ entry' = cc (sym at ∙ at') in
    absurd (cc (sym dynamic ∙ ap (λ e. is_dynamic e.tag) same ∙ plain))
Needs-argument cf i entry method x at dynamic has there (suc depth)
      (entry', at', inr (_, (method', has', all))) =
    let same : entry' ≡ entry = cc (sym at' ∙ at) in
    let same_method : method' ≡ method =
      cc (sym has' ∙ ap (λ e. get_elem? cf.bootstraps e.a) same ∙ has) in
    (
      depth,
      omega arith,
      All-at (ResolvesIn cf depth) method.argument_indexes x there
          (subst (λ m. All (ResolvesIn cf depth) m.argument_indexes) same_method all),
    )
