-- ===== src/Fusion/Dedup/Upsert.antt =====
-- fusion.go, step 1c of `Assess`: the map of indices against inserting into a plain list.
use shell_sight.Common.{
  ℕ, zero, suc, String, Option-cases, inl, inr, Option, none, some, List, [], ◌∷◌, ◌++◌, length,
  ◌≡◌, refl, arith, ap, sym, ◌∙◌, if◌then◌else◌,
}
use shell_sight.Common.Text.{str_eq, str_eq_iff}
use shell_sight.Finding.{Finding}
use shell_sight.Fusion.{DedupState, lookup, modify, keep_better, dedup_step, dedup_from, dedup}

-- The specification: a finding replaces the earlier one of its fingerprint if it scores higher, and
-- stands at the end if there is none.
unfoldable pub upsert : Finding → List Finding → List Finding
upsert f [] = f ∷ []
upsert f (g ∷ gs) =
    if str_eq g.fingerprint f.fingerprint then keep_better f g ∷ gs else g ∷ upsert f gs

-- The first finding with fingerprint `k`.
unfoldable pub find : String → List Finding → Option Finding
find k [] = none
find k (g ∷ gs) = if str_eq g.fingerprint k then some g else find k gs

suc_option : Option ℕ → Option ℕ
suc_option none = none
suc_option (some n) = some (suc n)

index_of : String → List Finding → Option ℕ
unfolding suc_option
index_of k [] = none
index_of k (g ∷ gs) = if str_eq g.fingerprint k then some 0 else suc_option (index_of k gs)

-- The map `seen` holds the place of each fingerprint, and nothing else.
abbrev Agrees : DedupState → Type 0
Agrees s = (k : String) → lookup k s.seen ≡ index_of k s.deduped

pub keep_better_fingerprint :
    (f g : Finding) → g.fingerprint ≡ f.fingerprint → (keep_better f g).fingerprint ≡ g.fingerprint
unfolding keep_better
keep_better_fingerprint f g h = ground arith

modify-eq-upsert :
    (f : Finding) (i : ℕ) (ds : List Finding)
    → index_of f.fingerprint ds ≡ some i
    → modify ds i (keep_better f) ≡ upsert f ds
unfolding index_of upsert modify
modify-eq-upsert f i [] h = cc
modify-eq-upsert f zero (g ∷ gs) h = ground arith
modify-eq-upsert f (suc i) (g ∷ gs) h = ground (arith, modify-eq-upsert f i gs)

append-eq-upsert :
    (f : Finding) (ds : List Finding)
    → index_of f.fingerprint ds ≡ none
    → ds ++ f ∷ [] ≡ upsert f ds
unfolding index_of upsert
append-eq-upsert f [] h = refl
append-eq-upsert f (g ∷ gs) h = ground (arith, append-eq-upsert f gs)

index_of-upsert_old :
    (f : Finding) (k : String) (i : ℕ) (ds : List Finding)
    → index_of f.fingerprint ds ≡ some i
    → index_of k (upsert f ds) ≡ index_of k ds
unfolding index_of upsert
index_of-upsert_old f k i [] h = cc
index_of-upsert_old f k zero (g ∷ gs) h =
    ground (arith, str_eq_iff g.fingerprint f.fingerprint, keep_better_fingerprint f g)
index_of-upsert_old f k (suc i) (g ∷ gs) h = ground (arith, index_of-upsert_old f k i gs)

index_of-upsert_new :
    (f : Finding) (k : String) (ds : List Finding)
    → index_of f.fingerprint ds ≡ none
    → index_of k (upsert f ds)
      ≡ (if str_eq f.fingerprint k then some (length ds) else index_of k ds)
unfolding index_of upsert
index_of-upsert_new f k [] h = refl
index_of-upsert_new f k (g ∷ gs) h = ground (
  arith,
  str_eq_iff g.fingerprint f.fingerprint,
  str_eq_iff g.fingerprint k,
  str_eq_iff f.fingerprint k,
  index_of-upsert_new f k gs,
)

dedup_step-deduped :
    (f : Finding) (s : DedupState) → Agrees s → (dedup_step f s).deduped ≡ upsert f s.deduped
unfolding dedup_step
dedup_step-deduped f s h = elim (Option-cases (lookup f.fingerprint s.seen)) [
  | inl e ↦ rw (e, dedup_step) (append-eq-upsert f s.deduped (sym (h f.fingerprint) ∙ e))
  | inr (i, e) ↦ rw (e, dedup_step) (modify-eq-upsert f i s.deduped (sym (h f.fingerprint) ∙ e))
]

dedup_step-Agrees : (f : Finding) (s : DedupState) → Agrees s → Agrees (dedup_step f s)
unfolding dedup_step lookup
dedup_step-Agrees f s h k =
    rw (dedup_step-deduped f s h) (elim (Option-cases (lookup f.fingerprint s.seen)) [
      | inl e ↦
          ground (arith, e, h k, index_of-upsert_new f k s.deduped (sym (h f.fingerprint) ∙ e))
      | inr (i, e) ↦
          ground (arith, e, h k, index_of-upsert_old f k i s.deduped (sym (h f.fingerprint) ∙ e))
    ])

unfoldable pub upsert_all : List Finding → List Finding → List Finding
upsert_all [] ds = ds
upsert_all (f ∷ fs) ds = upsert_all fs (upsert f ds)

dedup_from-eq-upsert_all :
    (fs : List Finding) (s : DedupState)
    → Agrees s
    → (dedup_from fs s).deduped ≡ upsert_all fs s.deduped
unfolding dedup_from upsert_all
dedup_from-eq-upsert_all [] s h = refl
dedup_from-eq-upsert_all (f ∷ fs) s h =
    dedup_from-eq-upsert_all fs (dedup_step f s) (dedup_step-Agrees f s h)
    ∙ ap (upsert_all fs) (dedup_step-deduped f s h)

-- The loop with its map of indices computes what inserting the findings one by one into a plain
-- list computes.
pub dedup-eq-upsert_all : (fs : List Finding) → dedup fs ≡ upsert_all fs []
unfolding dedup lookup index_of
dedup-eq-upsert_all fs =
    dedup_from-eq-upsert_all fs (record { seen = []; deduped = [] }) (λ k. refl)
