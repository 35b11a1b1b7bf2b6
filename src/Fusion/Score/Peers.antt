-- ===== src/Fusion/Score/Peers.antt =====
-- fusion.go, `corroborated` and `isCredibleSignal`: which peers can raise a finding.
use shell_sight.Common.{
  ℕ, zero, suc, ◌+◌, true, false, Bool-cases, inl, inr, List, [], ◌∷◌, get_elem?, some, ◌≡◌, ◌≢◌,
  ◌⊎◌, refl, arith, ◌==◌,
}
use shell_sight.Common.Text.{str_eq, str_eq_iff}
use shell_sight.Finding.{Finding}
use shell_sight.Fusion.Normalize.{target_key}
use shell_sight.Fusion.Score.{
  is_credible_signal, attributed_family, corroborates, corroborated_from, corroborated,
}

-- What makes `g` evidence for `f`: both stand on one host, `g` is a credible signal, and it comes
-- from another view or puts an attributed family on the same artifact.
pub record Corroborates (f g : Finding) : Type 0 where
  pub same_host : g.host ≡ f.host
  pub credible : is_credible_signal g ≡ true
  pub independent :
      (str_eq g.view f.view ≡ false)
      ⊎ ((attributed_family g ≡ true) × (target_key g ≡ target_key f))

pub corroborates_sound : (f g : Finding) → corroborates f g ≡ true → Corroborates f g
unfolding corroborates
corroborates_sound f g h =
    ground (arith, str_eq_iff g.host f.host, str_eq_iff (target_key g) (target_key f))

pub corroborates_complete : (f g : Finding) → Corroborates f g → corroborates f g ≡ true
unfolding corroborates
corroborates_complete f g h = ground (
  arith,
  str_eq_iff g.host f.host,
  str_eq_iff (target_key g) (target_key f),
  h.same_host,
  h.credible,
  h.independent,
)

-- A peer of the finding at index `i`.
pub record Peer (f : Finding) (i : ℕ) (all : List Finding) : Type 0 where
  pub index : ℕ
  pub finding : Finding
  pub elsewhere : index ≢ i
  pub found : get_elem? all index ≡ some finding
  pub evidence : Corroborates f finding

-- The same, with the indices of `all` counted from `j`.
record PeerFrom (f : Finding) (i j : ℕ) (all : List Finding) : Type 0 where
  index : ℕ
  finding : Finding
  elsewhere : j + index ≢ i
  found : get_elem? all index ≡ some finding
  evidence : Corroborates f finding

PeerFrom-cons :
    (f : Finding) (i j : ℕ) (g : Finding) (gs : List Finding)
    → PeerFrom f i (suc j) gs
    → PeerFrom f i j (g ∷ gs)
PeerFrom-cons f i j g gs p = record {
  index = suc p.index;
  finding = p.finding;
  elsewhere = λ e. p.elsewhere (omega arith);
  found = p.found;
  evidence = p.evidence;
}

corroborated_from_sound :
    (f : Finding) (i j : ℕ) (all : List Finding)
    → corroborated_from f i j all ≡ true
    → PeerFrom f i j all
unfolding corroborated_from
corroborated_from_sound f i j [] h = cc
corroborated_from_sound f i j (g ∷ gs) h = elim (Bool-cases (j == i)) [
  | inl same ↦ PeerFrom-cons f i j g gs (corroborated_from_sound f i (suc j) gs (rw same at h))
  | inr differ ↦ elim (Bool-cases (corroborates f g)) [
    | inl raises ↦ record {
      index = 0;
      finding = g;
      elsewhere = λ e. ground (arith, differ);
      found = refl;
      evidence = corroborates_sound f g raises;
    }
    | inr not_this ↦
        PeerFrom-cons f i j g gs
          (corroborated_from_sound f i (suc j) gs (rw (differ, not_this) at h))
  ]
]

corroborated_from_complete :
    (f : Finding) (i j k : ℕ) (g : Finding) (all : List Finding)
    → j + k ≢ i
    → get_elem? all k ≡ some g
    → corroborates f g ≡ true
    → corroborated_from f i j all ≡ true
unfolding corroborated_from
corroborated_from_complete f i j k g [] ne e h = cc
corroborated_from_complete f i j zero g (x ∷ xs) ne e h = ground arith
corroborated_from_complete f i j (suc k) g (x ∷ xs) ne e h =
    ground (arith, corroborated_from_complete f i (suc j) k g xs (omega arith) e h)

-- `corroborated` answers true exactly when the list holds, at another index, a finding on the same
-- host that is a credible signal and either comes from another view or labels the same artifact
-- with an attributed family.
pub corroborated_iff_Peer :
    (f : Finding) (i : ℕ) (all : List Finding)
    → (corroborated f i all ≡ true → Peer f i all) × (Peer f i all → corroborated f i all ≡ true)
unfolding corroborated
corroborated_iff_Peer f i all = (
  λ h.
      let p = corroborated_from_sound f i 0 all h in
      record {
        index = p.index;
        finding = p.finding;
        elsewhere = λ e. p.elsewhere (omega arith);
        found = p.found;
        evidence = p.evidence;
      },
  λ p.
      corroborated_from_complete f i 0 p.index p.finding all (λ e. p.elsewhere (omega arith))
        p.found (corroborates_complete f p.finding p.evidence),
)
