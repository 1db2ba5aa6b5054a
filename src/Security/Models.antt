-- ===== src/Security/Models.antt =====
-- agent-harness/src/agent_harness/security/models.py, and what the security code takes from Python's
-- library and the file system.
use general_agent_design.Common.{
  ℕ, String, Bool, true, false, not, Option, none, some, List, any, ◌==◌,
}
use Prim.Native.String
use general_agent_design.Domain.Json.{Value, text}
use general_agent_design.Domain.Tools.{Capability, Capability-discrete}
use mathlib.Core.Bool.{decide}

pub data SandboxMode : Type 0 where
  read_only_mode workspace_write danger_full_access : SandboxMode

pub data ApprovalPolicy : Type 0 where
  untrusted on_request never : ApprovalPolicy

pub data PermissionDecision : Type 0 where
  allow ask deny : PermissionDecision

pub data RuleSource : Type 0 where
  builtin managed user trusted_project session turn_approval : RuleSource
  agent_definition parent_delegation hook : RuleSource

abbrev pub is_deny : PermissionDecision → Bool
is_deny deny = true
is_deny _ = false

abbrev pub is_ask : PermissionDecision → Bool
is_ask ask = true
is_ask _ = false

abbrev pub is_allow : PermissionDecision → Bool
is_allow allow = true
is_allow _ = false

pub record Principal : Type 0 where
  pub session_id : String
  pub thread_id : String
  pub turn_id : String
  pub agent_id : String
  pub parent_agent_id : Option String
  pub depth : ℕ
  pub allowed_tools : List String
  pub capabilities : List Capability
  pub sandbox_mode : SandboxMode
  pub approval_policy : ApprovalPolicy

-- A path is the list of its components.
abbrev pub FilePath : Type 0
FilePath = List String

-- The timeout in seconds is left out.
pub record SandboxPolicy : Type 0 where
  pub mode : SandboxMode
  pub workspace_root : FilePath
  pub readable_roots : List FilePath
  pub writable_roots : List FilePath
  pub network_enabled : Bool
  pub environment_allow : List String
  pub max_output_chars : ℕ

-- `reason` of a PermissionEvaluation: its texts, one constructor for each.
pub data Reason : Type 0 where
  outside_allowlist : Reason
  missing_capabilities : List Capability → Reason
  path_policy : Reason
  permission_rules : Reason
  mcp_mode : Option String → Reason
  profile_default : Reason
  hook_denied : Reason
  hook_asked : Reason

pub record PermissionEvaluation : Type 0 where
  pub decision : PermissionDecision
  pub reason : Reason
  pub matched_rules : List String
  pub effective_capabilities : List Capability
  pub sandbox_policy : SandboxPolicy

abbrev pub has_capability : Capability → List Capability → Bool
has_capability c cs = any (λ d. decide (Capability-discrete c d)) cs

-- `fnmatch.fnmatch`, `str` of a value that is no text, and `pathlib` over the file system:
-- `parts` splits a raw path, `canonical` is `Path.resolve`, `posix` is `as_posix` of components. `show_names` is the text
-- of the sorted list of the capabilities' values.
pub record Host : Type 0 where
  pub fnmatch : String → String → Bool
  pub render : Value → String
  pub show_names : List Capability → String
  pub is_absolute : String → Bool
  pub parts : String → FilePath
  pub canonical : FilePath → FilePath
  pub posix : FilePath → String

-- str(value)
abbrev pub str : Host → Value → String
str h (text s) = s
str h v = h.render v

-- The text of a reason.
unfoldable pub reason_text : Host → Reason → String
reason_text h outside_allowlist = "Tool is outside the agent allowlist"
reason_text h (missing_capabilities cs) = String.◌++◌ "Missing capabilities: " (h.show_names cs)
reason_text h path_policy = "Built-in path policy"
reason_text h permission_rules = "Matched permission rules"
reason_text h (mcp_mode none) = "MCP approval mode None"
reason_text h (mcp_mode (some mode)) = String.◌++◌ "MCP approval mode " mode
reason_text h profile_default = "Security profile default"
reason_text h hook_denied = "PreToolUse hook denied the call"
reason_text h hook_asked = "PreToolUse hook requested approval"

-- The truth of an optional text: `None` and the empty text are false.
abbrev pub given : Option String → Bool
given none = false
given (some s) = not (s == "")
