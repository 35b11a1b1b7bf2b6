-- ===== src/Triage.antt =====
-- The console's triage.go: findings are grouped by content, and the groups put in order, worst first.
use shell_sight.Common.{
  ℕ, zero, suc, ◌+◌, Bool, true, false, not, ◌&&◌, ◌||◌, String, List, [], ◌∷◌, ◌++◌, map, length,
  if◌then◌else◌, ltb, leb, ◌==◌,
}
use shell_sight.Common.Int.{ℤ, pos, ltb_ℤ}
use shell_sight.Common.Text.{str_eq, codes, one_of, concat}
pub mod Holds
pub mod Grouped
pub mod Order
pub mod Keys

-- `store.FindingRecord`.
pub record FindingRecord : Type 0 where
  pub id : ℤ
  pub ref : String
  pub content_key : String
  pub host : String
  pub view : String
  pub file_path : String
  pub file_sha256 : String
  pub artifact_kind : String
  pub artifact_id : String
  pub basis : String
  pub knowledge_ref : String
  pub evidence : String
  pub score : ℤ
  pub tier : String
  pub mitre : List String
  pub fingerprint : String

pub record Group : Type 0 where
  pub content_key : String
  pub tier : String
  pub score : ℤ
  pub locations : ℕ
  pub hosts : List String
  pub rules : List String
  pub findings : List FindingRecord

-- `tierRank`; a key that is missing from a Go map gives 0.
unfoldable pub tier_rank : String → ℕ
tier_rank tier =
    if str_eq tier "unknown"
    then 1
    else if str_eq tier "suspicious"
    then 2
    else if str_eq tier "likely-malicious"
    then 3
    else if str_eq tier "confirmed"
    then 4
    else 0

abbrev pub new_group : String → Group
new_group key = record {
  content_key = key;
  tier = "";
  score = pos 0;
  locations = 0;
  hosts = [];
  rules = [];
  findings = [];
}

-- The body of the first loop, at the finding's group.
unfoldable pub absorb : FindingRecord → Group → Group
absorb f g = record {
  content_key = g.content_key;
  tier = if ltb (tier_rank g.tier) (tier_rank f.tier) then f.tier else g.tier;
  score = if ltb_ℤ g.score f.score then f.score else g.score;
  locations = g.locations;
  hosts = g.hosts;
  rules = g.rules;
  findings = g.findings ++ f ∷ [];
}

-- One round of the first loop. The map `byKey` and the slice `order` are one list: the groups in the
-- order in which their keys came.
unfoldable pub add_finding : FindingRecord → List Group → List Group
add_finding f [] = absorb f (new_group f.content_key) ∷ []
add_finding f (g ∷ gs) =
    if str_eq g.content_key f.content_key then absorb f g ∷ gs else g ∷ add_finding f gs

unfoldable pub group_from : List FindingRecord → List Group → List Group
group_from [] gs = gs
group_from (f ∷ fs) gs = group_from fs (add_finding f gs)

-- The order of Go strings, on code points.
unfoldable pub text_less : List ℕ → List ℕ → Bool
text_less [] [] = false
text_less [] (_ ∷ _) = true
text_less (_ ∷ _) [] = false
text_less (x ∷ xs) (y ∷ ys) = ltb x y || x == y && text_less xs ys

unfoldable pub insert_text : String → List String → List String
insert_text s [] = s ∷ []
insert_text s (t ∷ ts) = if text_less (codes t) (codes s) then t ∷ insert_text s ts else s ∷ t ∷ ts

-- `sort.Strings`.
unfoldable pub sort_strings : List String → List String
sort_strings [] = []
sort_strings (s ∷ ss) = insert_text s (sort_strings ss)

-- The loop of `distinct`, with `seen` the keys of its map.
unfoldable pub distinct_from : List String → List String → List String
distinct_from [] seen = []
distinct_from (k ∷ ks) seen = elim (str_eq k "" || one_of k seen) [
  | true ↦ distinct_from ks seen
  | false ↦ k ∷ distinct_from ks (k ∷ seen)
]

unfoldable pub distinct : List FindingRecord → (FindingRecord → String) → List String
distinct fs key = sort_strings (distinct_from (map key fs) [])

unfoldable pub count_from : List String → List String → ℕ
count_from [] seen = length seen
count_from (k ∷ ks) seen = count_from ks (if one_of k seen then seen else k ∷ seen)

unfoldable pub count_distinct : List FindingRecord → (FindingRecord → String) → ℕ
count_distinct fs key = count_from (map key fs) []

-- The body of the second loop.
unfoldable pub complete_group : Group → Group
complete_group g = record {
  content_key = g.content_key;
  tier = g.tier;
  score = g.score;
  locations = count_distinct g.findings (λ f. concat (f.host ∷ "|" ∷ f.file_path ∷ []));
  hosts = distinct g.findings (λ f. f.host);
  rules = distinct g.findings (λ f. f.knowledge_ref);
  findings = g.findings;
}

-- Does group a come before group b?
unfoldable pub worse : Group → Group → Bool
worse a b =
    if not (tier_rank a.tier == tier_rank b.tier)
    then ltb (tier_rank b.tier) (tier_rank a.tier)
    else if ltb_ℤ a.score b.score || ltb_ℤ b.score a.score
    then ltb_ℤ b.score a.score
    else ltb b.locations a.locations

unfoldable pub insert_group : Group → List Group → List Group
insert_group g [] = g ∷ []
insert_group g (h ∷ hs) = if worse h g then h ∷ insert_group g hs else g ∷ h ∷ hs

-- `sort.SliceStable`: from the right, each group goes before those it is not worse than.
unfoldable pub sort_groups : List Group → List Group
sort_groups [] = []
sort_groups (g ∷ gs) = insert_group g (sort_groups gs)

unfoldable pub groups : List FindingRecord → List Group
groups found = sort_groups (map complete_group (group_from found []))
