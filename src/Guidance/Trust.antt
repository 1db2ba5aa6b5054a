-- ===== src/Guidance/Trust.antt =====
-- agent-harness/src/agent_harness/guidance/trust.py. Parameters: the identity of a workspace, which is
-- its resolved path in folded case, and `str` of a JSON value that is no text. The lock is left out.
pub mod Decisions
use general_agent_design.Common.{
  String, Bool, true, false, not, ◌||◌, Option, none, some, List, [], ◌∷◌, ◌==◌, contains,
  if◌then◌else◌,
}
use general_agent_design.Common.Dict.{Dict, lookup, insert}
use general_agent_design.Domain.Errors.{Result, ok, err, value_error}
use general_agent_design.Domain.Json.{Value, text, dict, Members, no_member, member}

pub data WorkspaceTrustState : Type 0 where
  unknown trusted_once trusted untrusted : WorkspaceTrustState

pub data TrustDecisionSource : Type 0 where
  interactive persisted user_config default : TrustDecisionSource

pub record ProjectTrustContext : Type 0 where
  pub workspace_status : WorkspaceTrustState
  pub source : TrustDecisionSource
  pub guidance_allowed : Bool
  pub skills_allowed : Bool
  pub mcp_allowed : Bool
  pub project_config_allowed : Bool
  pub project_stdio_allowed : Bool

abbrev pub is_trusted : WorkspaceTrustState → Bool
is_trusted trusted_once = true
is_trusted trusted = true
is_trusted _ = false

unfoldable pub resolve_project_trust :
    WorkspaceTrustState → TrustDecisionSource → Bool → Bool → Bool → ProjectTrustContext
resolve_project_trust status source guidance_requires skills_require mcp_requires = record {
  workspace_status = status;
  source = source;
  guidance_allowed = is_trusted status || not guidance_requires;
  skills_allowed = is_trusted status || not skills_require;
  mcp_allowed = is_trusted status || not mcp_requires;
  project_config_allowed = is_trusted status || not mcp_requires;
  project_stdio_allowed = is_trusted status;
}

-- WorkspaceTrustState.value, and the state of a text
abbrev pub state_text : WorkspaceTrustState → String
state_text unknown = "unknown"
state_text trusted_once = "trusted_once"
state_text trusted = "trusted"
state_text untrusted = "untrusted"

abbrev pub state_of : String → Result WorkspaceTrustState
state_of s =
    if s == "unknown"
    then ok unknown
    else if s == "trusted_once"
    then ok trusted_once
    else if s == "trusted"
    then ok trusted
    else if s == "untrusted"
    then ok untrusted
    else err (value_error "not a valid WorkspaceTrustState")

-- `file` is what json.loads gives for the file at the store's path; a file that is missing or
-- malformed is `none`.
pub record WorkspaceTrustStore : Type 0 where
  pub once_roots : List String
  pub file : Option Value

abbrev pub text_members : Dict String → Members
text_members [] = no_member
text_members ((k, v) ∷ d) = member k (text v) (text_members d)

abbrev pub text_or_unknown : Option String → String
text_or_unknown none = "unknown"
text_or_unknown (some s) = s

module _ (identity : String → String) (show : Value → String) where
  abbrev pub str : Value → String
  str (text s) = s
  str v = show v

  abbrev pub rows : Members → Dict String
  rows no_member = []
  rows (member k v ms) = (k, str v) ∷ rows ms

  -- WorkspaceTrustStore._read
  abbrev pub read : Option Value → Dict String
  read (some (dict ms)) = rows ms
  read _ = []

  -- WorkspaceTrustStore.get
  unfoldable pub get : String → WorkspaceTrustStore → Result WorkspaceTrustState
  get workspace s =
      if contains (identity workspace) s.once_roots
      then ok trusted_once
      else state_of (text_or_unknown (lookup (identity workspace) (read s.file)))

  abbrev pub with_row : String → WorkspaceTrustState → WorkspaceTrustStore → WorkspaceTrustStore
  with_row workspace state s = record s {
    file =
        some (dict (text_members (insert (identity workspace) (state_text state) (read s.file))));
  }

  -- WorkspaceTrustStore.set
  unfoldable pub set : String → WorkspaceTrustState → WorkspaceTrustStore → WorkspaceTrustStore
  set workspace trusted_once s = record s { once_roots = identity workspace ∷ s.once_roots }
  set workspace state s = with_row workspace state s
