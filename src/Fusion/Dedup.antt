-- ===== src/Fusion/Dedup.antt =====
-- fusion.go, step 1c of `Assess`: what is kept of the findings of one fingerprint.
use shell_sight.Common.{
  String, Bool-cases, Option-cases, inl, inr, Option, none, some, List, [], ◌∷◌, ◌++◌, length, ◌≡◌,
  ◌≢◌, ◌⊎◌, refl, arith, ap, sym, ◌∙◌, if◌then◌else◌, All,
}
use shell_sight.Common.Int.{ℤ, ◌≤ℤ◌, ◌<ℤ◌, ltb_ℤ}
use shell_sight.Common.Text.{str_eq, str_eq_iff}
use shell_sight.Finding.{Finding}
use shell_sight.Fusion.{DedupState, lookup, modify, keep_better, dedup_step, dedup_from, dedup}
pub mod Upsert
use shell_sight.Fusion.Dedup.Upsert.{
  upsert, find, keep_better_fingerprint, upsert_all, dedup-eq-upsert_all,
}

-- The better of a finding and an earlier one.
better : Finding → Option Finding → Finding
better f none = f
better f (some g) = keep_better f g

-- The first finding of fingerprint `k` that no other of that fingerprint outscores.
unfoldable pub best_from : String → Option Finding → List Finding → Option Finding
unfolding better
best_from k o [] = o
best_from k o (f ∷ fs) = best_from k (if str_eq f.fingerprint k then some (better f o) else o) fs

find-upsert :
    (k : String) (f : Finding) (ds : List Finding)
    → find k (upsert f ds)
      ≡ (if str_eq f.fingerprint k then some (better f (find k ds)) else find k ds)
unfolding find upsert better
find-upsert k f [] = refl
find-upsert k f (g ∷ gs) = ground (
  arith,
  str_eq_iff g.fingerprint f.fingerprint,
  str_eq_iff g.fingerprint k,
  str_eq_iff f.fingerprint k,
  find-upsert k f gs,
  keep_better_fingerprint f g,
)

find-upsert_all :
    (k : String) (fs ds : List Finding) → find k (upsert_all fs ds) ≡ best_from k (find k ds) fs
unfolding upsert_all best_from
find-upsert_all k [] ds = refl
find-upsert_all k (f ∷ fs) ds = find-upsert_all k fs (upsert f ds) ∙ rw (find-upsert k f ds)

-- No two findings of the list have one fingerprint.
abbrev pub IsDistinct : List Finding → Type 0
IsDistinct [] = Unit {0}
IsDistinct (g ∷ gs) = (find g.fingerprint gs ≡ none) × IsDistinct gs

upsert-IsDistinct : (f : Finding) (ds : List Finding) → IsDistinct ds → IsDistinct (upsert f ds)
unfolding find upsert
upsert-IsDistinct f [] h = (refl, tt)
upsert-IsDistinct f (g ∷ gs) h = elim (Bool-cases (str_eq g.fingerprint f.fingerprint)) [
  | inl same ↦
      rw same (
        rw (keep_better_fingerprint f g ((str_eq_iff g.fingerprint f.fingerprint).0 same)) h.0,
        h.1,
      )
  | inr differ ↦ rw differ (
    ground (
      arith,
      find-upsert g.fingerprint f gs,
      str_eq_iff g.fingerprint f.fingerprint,
      str_eq_iff f.fingerprint g.fingerprint,
      h.0,
      differ,
    ),
    upsert-IsDistinct f gs h.1,
  )
]

upsert_all-IsDistinct : (fs ds : List Finding) → IsDistinct ds → IsDistinct (upsert_all fs ds)
unfolding upsert_all
upsert_all-IsDistinct [] ds h = h
upsert_all-IsDistinct (f ∷ fs) ds h =
    upsert_all-IsDistinct fs (upsert f ds) (upsert-IsDistinct f ds h)

dedup-find_best : (fs : List Finding) (k : String) → find k (dedup fs) ≡ best_from k none fs
unfolding find
dedup-find_best fs k = rw (dedup-eq-upsert_all fs) (find-upsert_all k fs [])

-- No finding of the list has the fingerprint `k`.
abbrev pub IsAbsent : String → List Finding → Type 0
IsAbsent k fs = All (λ f. f.fingerprint ≢ k) fs

-- Those with the fingerprint `k` score less than `bound`, or no more than it.
abbrev pub AllBelow : String → ℤ → List Finding → Type 0
AllBelow k bound fs = All (λ f. f.fingerprint ≡ k → f.score <ℤ bound) fs

abbrev pub AllUpTo : String → ℤ → List Finding → Type 0
AllUpTo k bound fs = All (λ f. f.fingerprint ≡ k → f.score ≤ℤ bound) fs

-- `kept` stands in the list with the fingerprint `k`, those of its fingerprint before it score less
-- and those behind it no more.
pub record IsBest (k : String) (fs : List Finding) (kept : Finding) : Type 0 where
  pub before : List Finding
  pub behind : List Finding
  pub stands : fs ≡ before ++ kept ∷ behind
  pub same_key : kept.fingerprint ≡ k
  pub before_less : AllBelow k kept.score before
  pub behind_no_more : AllUpTo k kept.score behind

-- What is kept of the findings with the fingerprint `k`.
abbrev pub Keeps : String → List Finding → Option Finding → Type 0
Keeps k fs none = IsAbsent k fs
Keeps k fs (some kept) = IsBest k fs kept

IsBest-cons :
    (k : String) (f kept : Finding) (fs : List Finding)
    → (f.fingerprint ≡ k → f.score <ℤ kept.score)
    → IsBest k fs kept
    → IsBest k (f ∷ fs) kept
IsBest-cons k f kept fs less b = record {
  before = f ∷ b.before;
  behind = b.behind;
  stands = ap (λ xs. f ∷ xs) b.stands;
  same_key = b.same_key;
  before_less = (less, b.before_less);
  behind_no_more = b.behind_no_more;
}

IsBest-first :
    (k : String) (f kept : Finding) (fs : List Finding)
    → kept ≡ f
    → f.fingerprint ≡ k
    → AllUpTo k f.score fs
    → IsBest k (f ∷ fs) kept
IsBest-first k f kept fs is same rest = record {
  before = [];
  behind = fs;
  stands = ap (λ x. x ∷ fs) (sym is);
  same_key = rw is same;
  before_less = tt;
  behind_no_more = rw is rest;
}

Keeps-cons :
    (k : String) (f : Finding) (fs : List Finding)
    → f.fingerprint ≢ k
    → (kept : Option Finding) → Keeps k fs kept
    → Keeps k (f ∷ fs) kept
Keeps-cons k f fs other none h = (other, h)
Keeps-cons k f fs other (some kept) h = IsBest-cons k f kept fs (λ is. absurd (other is)) h

-- Starting from a finding, either it stays, or a better one of the list is found.
best_from-kept :
    (k : String) (fs : List Finding) (g : Finding)
    → (kept : Finding) × (best_from k (some g) fs ≡ some kept)
      × ((kept ≡ g) × AllUpTo k g.score fs ⊎ (g.score <ℤ kept.score) × IsBest k fs kept)
unfolding best_from better keep_better
best_from-kept k [] g = (g, refl, inl (refl, tt))
best_from-kept k (f ∷ fs) g = elim (Bool-cases (str_eq f.fingerprint k)) [
  | inr differ ↦
      let (kept, e, how) = best_from-kept k fs g in
      let other : f.fingerprint ≢ k = λ same. cc ((str_eq_iff f.fingerprint k).1 same) in
      (
        kept,
        rw differ e,
        elim how [
          | inl (same, rest) ↦ inl (same, ((λ is. absurd (other is)), rest))
          | inr (more, best) ↦ inr (more, IsBest-cons k f kept fs (λ is. absurd (other is)) best)
        ],
      )
  | inl same ↦ elim (Bool-cases (ltb_ℤ g.score f.score)) [
    | inl beats ↦
        let (kept, e, how) = best_from-kept k fs f in
        let less : g.score <ℤ f.score = ground (arith, beats) in
        (
          kept,
          rw (same, beats) e,
          elim how [
            | inl (is, rest) ↦
                inr (
                  rw is less,
                  IsBest-first k f kept fs is ((str_eq_iff f.fingerprint k).0 same) rest,
                )
            | inr (more, best) ↦
                inr (omega (arith, less, more), IsBest-cons k f kept fs (λ _. more) best)
          ],
        )
    | inr stays ↦
        let (kept, e, how) = best_from-kept k fs g in
        let no_more : f.score ≤ℤ g.score = ground (arith, stays) in
        (
          kept,
          rw (same, stays) e,
          elim how [
            | inl (is, rest) ↦ inl (is, ((λ _. no_more), rest))
            | inr (more, best) ↦
                inr (more, IsBest-cons k f kept fs (λ _. omega (arith, no_more, more)) best)
          ],
        )
  ]
]

best_from-Keeps : (k : String) (fs : List Finding) → Keeps k fs (best_from k none fs)
unfolding best_from better
best_from-Keeps k [] = tt
best_from-Keeps k (f ∷ fs) = elim (Bool-cases (str_eq f.fingerprint k)) [
  | inr differ ↦
      let other : f.fingerprint ≢ k = λ same. cc ((str_eq_iff f.fingerprint k).1 same) in
      rw differ (Keeps-cons k f fs other (best_from k none fs) (best_from-Keeps k fs))
  | inl same ↦
      let (kept, e, how) = best_from-kept k fs f in
      let is_k = (str_eq_iff f.fingerprint k).0 same in
      rw (same, e)
        (elim how [
          | inl (is, rest) ↦ IsBest-first k f kept fs is is_k rest
          | inr (more, best) ↦ IsBest-cons k f kept fs (λ _. more) best
        ])
]

-- Deduplication leaves no two findings with one fingerprint. For a fingerprint it keeps nothing where
-- the input has no finding of it, and otherwise a finding of the input with that fingerprint such that
-- those of the fingerprint that stand before it in the input score less and those behind it no more.
pub dedup-find :
    (fs : List Finding) → IsDistinct (dedup fs) × ((k : String) → Keeps k fs (find k (dedup fs)))
dedup-find fs = (
  rw (dedup-eq-upsert_all fs) (upsert_all-IsDistinct fs [] tt),
  λ k. rw (dedup-find_best fs k) (best_from-Keeps k fs),
)
