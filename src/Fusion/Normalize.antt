-- ===== src/Fusion/Normalize.antt =====
-- shellsight/internal/fusion/normalize.go: tags, family labels and the content fingerprint.
pub mod Labels
use shell_sight.Common.{
  String, Bool, true, false, Option, none, some, List, [], ◌∷◌, ◌++◌, if◌then◌else◌,
}
use shell_sight.Common.Text.{str_eq, contains, contains_lower, concat, join, decimal}
use shell_sight.Finding.{Finding, Process, File}

abbrev pub kb_behavior_view_state : String
kb_behavior_view_state = "kb:behavioral/viewstate-mac-failure"

abbrev pub kb_behavior_iis_config : String
kb_behavior_iis_config = "kb:behavioral/iis-config-change"

iis_component_contracts : List String
iis_component_contracts =
    "pipeline" ∷ "IHttpModule" ∷ "IHttpHandler" ∷ "HttpApplication" ∷ "VirtualPathProvider"
    ∷ "IRouter" ∷ "IEndpointRouteBuilder" ∷ "IStartupFilter" ∷ "IMiddleware" ∷ "IOwinMiddleware"
    ∷ "convention-middleware" ∷ []

contains_any : String → List String → Bool
contains_any s [] = false
contains_any s (c ∷ cs) = if contains s c then true else contains_any s cs

unfoldable pub is_iis_component : String → Bool
unfolding contains_any iis_component_contracts
is_iis_component evidence = contains_any evidence iis_component_contracts

-- `mitreFor`; the last `else` of the behavioural view joins two cases of the source that agree.
unfoldable pub mitre_for : Finding → List String
mitre_for f =
    if str_eq f.view "disk"
    then "T1505.003" ∷ []
    else if str_eq f.view "java-mem"
    then "T1505.003" ∷ "T1620" ∷ []
    else if str_eq f.view "dotnet-mem"
    then ("T1505.003" ∷ [])
      ++ (if is_iis_component f.detection.evidence then "T1505.004" ∷ [] else [])
      ++ "T1620" ∷ []
    else if str_eq f.view "behavioral"
    then if str_eq f.detection.knowledge_ref kb_behavior_view_state
      then "T1505.003" ∷ []
      else if str_eq f.detection.knowledge_ref kb_behavior_iis_config
      then "T1505.003" ∷ "T1505.004" ∷ []
      else "T1505.003" ∷ []
    else []

-- Go ranges over a map in an order that it does not fix, so the order is an argument.
pub data MapOrder : Type 0 where
  behinder_first godzilla_first : MapOrder

abbrev pub behinder_key : String
behinder_key = "e45e329feb5d925b"

abbrev pub godzilla_key : String
godzilla_key = "3c6e0b8a9c15224a"

unfoldable pub family_fingerprints : MapOrder → List (String × String)
family_fingerprints behinder_first = (behinder_key, "Behinder") ∷ (godzilla_key, "Godzilla") ∷ []
family_fingerprints godzilla_first = (godzilla_key, "Godzilla") ∷ (behinder_key, "Behinder") ∷ []

first_family : String → List (String × String) → String
first_family evidence [] = ""
first_family evidence ((constant, fam) ∷ rest) =
    if contains_lower evidence constant then fam else first_family evidence rest

-- `familyFromEvidence`. `ToLower` acts on more than ASCII letters in Go, but maps no other letter to
-- a hexadecimal digit, and the constants consist of those.
unfoldable pub family_from_evidence : MapOrder → Finding → String
unfolding first_family family_fingerprints
family_from_evidence order f = first_family f.detection.evidence (family_fingerprints order)

key_of_process : Option Process → Finding → String
key_of_process none f = f.artifact.identity
key_of_process (some p) f = concat ("proc:" ∷ decimal p.pid ∷ ":" ∷ f.artifact.identity ∷ [])

key_of_target : Option File → Option Process → Finding → String
unfolding key_of_process
key_of_target (some file) process f = concat ("file:" ∷ file.path ∷ [])
key_of_target none process f = key_of_process process f

unfoldable pub target_key : Finding → String
unfolding key_of_target
target_key f = key_of_target f.target.file f.target.process f

text_or_empty : Option String → String
text_or_empty none = ""
text_or_empty (some s) = s

-- The text that `fingerprint` hashes.
unfoldable pub fingerprint_text : Finding → String
unfolding text_or_empty
fingerprint_text f =
    join
      (f.host
        ∷ f.view
        ∷ target_key f
        ∷ f.detection.basis
        ∷ f.detection.knowledge_ref
        ∷ f.detection.evidence
        ∷ text_or_empty f.classification.family
        ∷ [])
      "|"

-- `digest` stands for the first 16 hexadecimal digits of the SHA-256 of a text.
unfoldable pub fingerprint : (String → String) → Finding → String
fingerprint digest f = digest (fingerprint_text f)
