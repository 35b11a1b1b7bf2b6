-- ===== src/Examples/TriageRuns.antt =====
-- Runs of triage.go and classreader.go.
use shell_sight.Common.{ℕ, ◌≤◌, ◌≡◌, ◌≢◌, refl, String, List, [], ◌∷◌, All}
use shell_sight.Common.Int.{pos}
use shell_sight.Common.Text.{one_of, concat}
use shell_sight.Common.Result.{ok}
use shell_sight.ClassReader.{ClassReader, read_bytes}
use shell_sight.Triage.{
  FindingRecord, Group, tier_rank, absorb, add_finding, group_from, complete_group, groups,
  sort_groups, insert_group, worse, count_distinct, count_from,
}
use shell_sight.Triage.Holds.{about, Holds}
use shell_sight.Triage.Order.{IsOrdered, groups-Holds, groups-IsOrdered}
use shell_sight.Triage.Keys.{count_key, groups-one_each, groups-tier_empty}

abbrev finding : String → String → String → ℕ → FindingRecord
finding key host tier score = record {
  id = pos 1;
  ref = "r";
  content_key = key;
  host = host;
  view = "disk";
  file_path = "/a.php";
  file_sha256 = key;
  artifact_kind = "file";
  artifact_id = "";
  basis = "yara";
  knowledge_ref = "k";
  evidence = "";
  score = pos score;
  tier = tier;
  mitre = [];
  fingerprint = "";
}

abbrev mixed : List FindingRecord
mixed =
    finding "A" "h1" "clean" 10
    ∷ finding "B" "h1" "confirmed" 95
    ∷ finding "A" "h2" "suspicious" 50
    ∷ []

abbrev harmless : List FindingRecord
harmless = finding "A" "h1" "clean" 10 ∷ []

groups-Holds_example : All (Holds mixed) (groups mixed)
groups-Holds_example = groups-Holds mixed

groups-IsOrdered_example : IsOrdered (groups mixed)
groups-IsOrdered_example = groups-IsOrdered mixed

groups-one_each_example :
    (count_key "A" (groups mixed) ≤ 1) × (about "A" mixed ≢ [] → count_key "A" (groups mixed) ≡ 1)
groups-one_each_example = groups-one_each mixed "A"

harmless_low : All (λ f. tier_rank f.tier ≡ 0) harmless
unfolding tier_rank
harmless_low = (refl, tt)

groups-tier_empty_example : All (λ g. g.tier ≡ "") (groups harmless)
groups-tier_empty_example = groups-tier_empty harmless harmless_low

abbrev reader : ClassReader
reader = record { bytes = 0xca ∷ 0xfe ∷ 0xba ∷ 0xbe ∷ []; off = 1 }

read_two : read_bytes 2 reader ≡ ok (0xfe ∷ 0xba ∷ [], record { bytes = reader.bytes; off = 3 })
unfolding read_bytes
read_two = refl

-- The tiers and the numbers of places, in the order shown.
abbrev shown : List Group → List (String × ℕ)
shown [] = []
shown (g ∷ gs) = (g.tier, g.locations) ∷ shown gs

mixed_run : shown (groups mixed) ≡ ("confirmed", 1) ∷ ("suspicious", 2) ∷ []
unfolding groups group_from add_finding absorb complete_group sort_groups insert_group worse
    tier_rank count_distinct count_from one_of concat
mixed_run = refl
