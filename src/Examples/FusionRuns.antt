-- ===== src/Examples/FusionRuns.antt =====
-- Runs of fusion.go and normalize.go.
use shell_sight.Common.{ℕ, String, Bool, true, false, none, some, List, [], ◌∷◌, ◌≡◌, refl, ◌≢◌}
use shell_sight.Common.Int.{ℤ, pos}
use shell_sight.Common.Text.{contains_lower, decimal, one_of}
use shell_sight.Finding.{Tier, clean, likely, confirmed, unset, Finding, Verdict, Coverage, cov_ran}
use shell_sight.ExitCode.{exit_code}
use shell_sight.Fusion.Normalize.{
  MapOrder, behinder_first, godzilla_first, family_from_evidence, mitre_for,
}
use shell_sight.Fusion.Normalize.Labels.{holds_both, family_from_evidence-order}
use shell_sight.Fusion.Score.{
  score_body, tier_for_score, basis_class, attributed_family, corroborated,
}
use shell_sight.Fusion.Score.Bands.{
  IsCalibrated, IsAtMost, MayConfirmAlone, score_body-IsCalibrated, score_body_mono,
  score_body-MayConfirmAlone,
}
use shell_sight.Fusion.Score.Peers.{Peer, corroborated_iff_Peer}
use shell_sight.Fusion.Dedup.Upsert.{find}
use shell_sight.Fusion.Dedup.{IsDistinct, Keeps, dedup-find}
use shell_sight.Fusion.InPlace.{scored_from, score_all-scored}
use shell_sight.Fusion.Verdicts.{IsAllClear, IsWorst}
use shell_sight.Fusion.Assess.{assessed, assess-assessed, assess-exit_code, assess-IsWorst}
use shell_sight.Fusion.{
  dedup_from, dedup_step, lookup, modify, keep_better, rollup, dedup, score_all,
}

-- A finding in a file, with the fields that the examples vary.
abbrev finding : String → String → String → String → Tier → ℤ → Finding
finding view path basis evidence tier score = record {
  schema_version = "1.0";
  id = path;
  host = "WEB01";
  view = view;
  target = record {
    kind = "file";
    process = none;
    file = some (record { path = path; sha256 = "" });
  };
  artifact = record { kind = "file"; identity = path; location = "" };
  detection = record {
    basis = basis;
    knowledge_ref = "";
    evidence = evidence;
    allowlisted = false;
  };
  score = score;
  tier = tier;
  classification = record { family = none; capability = []; source = none };
  artifacts = record { raw = ""; decompiled = ""; features = "" };
  context = [];
  correlation_id = "";
  mitre = [];
  fingerprint = path;
}

abbrev shell : Finding
shell = finding "disk" "/var/www/a.php" "signature" "rule matched" likely (pos 70)

abbrev shell_again : Finding
shell_again = finding "disk" "/var/www/a.php" "signature" "rule matched" likely (pos 75)

abbrev implant : Finding
implant = finding "java-mem" "Filter1" "structural-heuristic" "fileless class" likely (pos 60)

abbrev scored_only : Finding
scored_only = finding "disk" "/var/www/b.php" "taint" "source to sink" unset (pos 90)

abbrev listed : Finding
listed = record implant {
  detection = record {
    basis = "structural-heuristic";
    knowledge_ref = "";
    evidence = "";
    allowlisted = true;
  };
}

abbrev view_of : String → Bool → Coverage
view_of status truncated = record {
  view = "disk";
  status = status;
  reason = "";
  targets_scanned = 3;
  skipped = none;
  scratch = "";
  truncated = truncated;
}

abbrev raw : String → String
raw s = s

abbrev same_order : ℕ → MapOrder
same_order i = behinder_first

-- A lone signature keeps the tier that the probe gave; a memory implant raises it.
score_alone : score_body shell false ≡ (likely, pos 70)
unfolding score_body attributed_family basis_class one_of
score_alone = refl

score_raised : score_body shell true ≡ (confirmed, pos 90)
unfolding score_body attributed_family basis_class one_of
score_raised = refl

process_key : decimal (pos 4312) ≡ "4312"
unfolding decimal
process_key = refl

mitre_java : mitre_for implant ≡ "T1505.003" ∷ "T1620" ∷ []
unfolding mitre_for
mitre_java = refl

family_read :
    family_from_evidence godzilla_first
      (finding "disk" "" "" "key E45E329FEB5D925B in class" clean (pos 0))
    ≡ "Behinder"
unfolding family_from_evidence contains_lower
family_read = refl

shell-IsCalibrated : IsCalibrated shell
unfolding tier_for_score
shell-IsCalibrated = refl

score_body-IsCalibrated_example :
    tier_for_score (score_body shell true).1 ≡ (score_body shell true).0
score_body-IsCalibrated_example = score_body-IsCalibrated shell true shell-IsCalibrated

score_body_mono_example : IsAtMost (score_body shell false) (score_body shell true)
score_body_mono_example = score_body_mono shell

scored_only-confirmed : (score_body scored_only false).0 ≡ confirmed
unfolding score_body attributed_family basis_class one_of tier_for_score
scored_only-confirmed = refl

score_body-MayConfirmAlone_example : MayConfirmAlone scored_only
score_body-MayConfirmAlone_example = score_body-MayConfirmAlone scored_only scored_only-confirmed

corroborated_iff_Peer_example :
    (corroborated shell 0 (shell ∷ implant ∷ []) ≡ true → Peer shell 0 (shell ∷ implant ∷ []))
    × (Peer shell 0 (shell ∷ implant ∷ []) → corroborated shell 0 (shell ∷ implant ∷ []) ≡ true)
corroborated_iff_Peer_example = corroborated_iff_Peer shell 0 (shell ∷ implant ∷ [])

abbrev two_of_one : List Finding
two_of_one = shell ∷ implant ∷ shell_again ∷ []

dedup_run : dedup two_of_one ≡ shell_again ∷ implant ∷ []
unfolding dedup dedup_from dedup_step lookup modify keep_better
dedup_run = refl

dedup-find_example :
    IsDistinct (dedup two_of_one) × ((k : String) → Keeps k two_of_one (find k (dedup two_of_one)))
dedup-find_example = dedup-find two_of_one

score_all-scored_example :
    score_all (shell ∷ implant ∷ [])
    ≡ some (scored_from (shell ∷ implant ∷ []) 0 (shell ∷ implant ∷ []))
score_all-scored_example = score_all-scored (shell ∷ implant ∷ [])

abbrev two_keys : Finding
two_keys = finding "disk" "/a" "signature" "e45e329feb5d925b 3c6e0b8a9c15224a" clean (pos 0)

family_from_evidence-order_example :
    (holds_both two_keys ≡ false
      → family_from_evidence behinder_first two_keys ≡ family_from_evidence godzilla_first two_keys)
    × (holds_both two_keys ≡ true
        → family_from_evidence behinder_first two_keys
          ≢ family_from_evidence godzilla_first two_keys)
family_from_evidence-order_example = family_from_evidence-order two_keys

abbrev covered : List Coverage
covered = view_of cov_ran false ∷ []

abbrev report : List Finding
report = assessed raw same_order two_of_one

abbrev verdict : Verdict
verdict = rollup report covered

assess-exit_code_example :
    (exit_code verdict ≡ 0 → IsAllClear report covered)
    × (IsAllClear report covered → exit_code verdict ≡ 0)
assess-exit_code_example =
    assess-exit_code raw same_order two_of_one covered verdict report
      (assess-assessed raw same_order two_of_one covered)

assess-IsWorst_example : IsWorst verdict report
assess-IsWorst_example =
    assess-IsWorst raw same_order two_of_one covered verdict report
      (assess-assessed raw same_order two_of_one covered)
