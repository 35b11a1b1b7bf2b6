-- ===== src/Finding.antt =====
-- shellsight/internal/finding/finding.go and verdict.go: the records that probes report and fusion
-- scores. Of `Classification` the constant `Confidence` (a float64) is left out: nothing reads it.
use shell_sight.Common.{ℕ, ◌+◌, String, Bool, Option, List, [], ◌∷◌}
use shell_sight.Common.Int.{ℤ}
use shell_sight.Common.Text.{one_of}

-- `Tier` is a Go string: `unset` is "", and `other` is any text that is no named tier.
pub data Tier : Type 0 where
  clean suspicious likely confirmed unknown unset : Tier
  other : String → Tier

-- verdict.go, `Rank`.
unfoldable pub rank : Tier → ℕ
rank confirmed = 3
rank likely = 2
rank suspicious = 1
rank _ = 0

pub record Process : Type 0 where
  pub pid : ℤ
  pub name : String
  pub app_pool : String
  pub bitness : String

pub record File : Type 0 where
  pub path : String
  pub sha256 : String

pub record Target : Type 0 where
  pub kind : String
  pub process : Option Process
  pub file : Option File

pub record Artifact : Type 0 where
  pub kind : String
  pub identity : String
  pub location : String

pub record Detection : Type 0 where
  pub basis : String
  pub knowledge_ref : String
  pub evidence : String
  pub allowlisted : Bool

pub record Classification : Type 0 where
  pub family : Option String
  pub capability : List String
  pub source : Option String

pub record Artifacts : Type 0 where
  pub raw : String
  pub decompiled : String
  pub features : String

pub record Finding : Type 0 where
  pub schema_version : String
  pub id : String
  pub host : String
  pub view : String
  pub target : Target
  pub artifact : Artifact
  pub detection : Detection
  pub score : ℤ
  pub tier : Tier
  pub classification : Classification
  pub artifacts : Artifacts
  pub context : List (String × String)
  pub correlation_id : String
  pub mitre : List String
  pub fingerprint : String

pub record Verdict : Type 0 where
  pub tier : Tier
  pub score : ℤ
  pub incomplete : Bool

-- What a filesystem probe declined to read.
pub record ScanSkips : Type 0 where
  pub non_regular : ℕ
  pub unreadable : ℕ
  pub oversize_skipped : ℕ
  pub no_language_detector : ℕ

pub total : ScanSkips → ℕ
total s = s.non_regular + s.unreadable + s.oversize_skipped + s.no_language_detector

-- The constants `CovRan`, `CovNA`, `CovDegraded` and `CovFailed`.
abbrev pub cov_ran : String
cov_ran = "ran"

abbrev pub cov_na : String
cov_na = "n/a"

abbrev pub cov_degraded : String
cov_degraded = "degraded"

abbrev pub cov_failed : String
cov_failed = "failed"

-- `Coverage`, less the discovery report, which fusion passes by.
pub record Coverage : Type 0 where
  pub view : String
  pub status : String
  pub reason : String
  pub targets_scanned : ℕ
  pub skipped : Option ScanSkips
  pub scratch : String
  pub truncated : Bool

pub valid_artifact_cov_status : String → Bool
valid_artifact_cov_status s = one_of s ("complete" ∷ "degraded" ∷ "failed" ∷ [])
