-- ===== src/Capabilities/Issues.antt =====
-- What the resolver reports and resolves, and what it takes of Python and the database:
-- backend/app/capabilities/resolver.py. An issue has its code and path; its message is left out.
use hermes_agent_platform.Base.{
  ℕ, Bool, Option, none, some, List, String, ◌==◌, if◌then◌else◌, nat_eq, string_eq,
}
use hermes_agent_platform.Base.Json.{Json, Items, Fields, arr, obj, nil, end, get, truth}
use hermes_agent_platform.Capabilities.{runtime_status_eq}
use hermes_agent_platform.Capabilities.Ranges.{Unicode}

pub data IssueCode : Type 0 where
  runtime_required runtime_unavailable runtime_feature_mismatch : IssueCode
  skill_version_invalid capability_not_bound contract_version_mismatch : IssueCode
  capability_implementation_missing provider_unhealthy : IssueCode
  resource_scope_required resource_scope_mismatch : IssueCode

pub record PreflightIssue : Type 0 where
  pub code : IssueCode
  pub path : String
  pub severity : String

abbrev pub issue : IssueCode → String → PreflightIssue
issue code path = record { code = code; path = path; severity = "error" }

pub record ResolvedCapability : Type 0 where
  pub binding_id : ℕ
  pub tool_name : String
  pub capability_key : String
  pub capability_version : String
  pub description : String
  pub input_schema : Fields
  pub output_schema : Fields
  pub implementation_id : ℕ
  pub connector_operation_id : ℕ
  pub connector_instance_revision_id : ℕ
  pub resource_scope_revision_id : Option ℕ
  pub parameter_policy : Fields
  pub quota_policy : Fields
  pub approval_policy : Fields

-- What the digest is taken of.
pub data Payload : Type 0 where
  legacy_payload : ℕ → Payload
  tools_payload : ℕ → Fields → List ResolvedCapability → Payload

-- What Python and the database do here: whether `int` of a value is 1, where it does not raise;
-- `str` of a value and of an identifier; `UUID` of a text, where it does not raise; the order of
-- texts of the database; the digest of a value.
pub record Calls : Type 0 where
  pub unicode : Unicode
  pub int_is_one : Json → Option Bool
  pub str_of : Json → String
  pub show : ℕ → String
  pub uuid : String → Option ℕ
  pub text_before : String → String → Bool
  pub digest : Payload → String

abbrev pub is_error : PreflightIssue → Bool
is_error i = i.severity == "error"

-- `d.get(k)` where it is a dict, else an empty dict; the same for a list.
abbrev pub object_at : String → Fields → Fields
object_at k d = elim (get k d) [ none ↦ end | some v ↦ elim v [ obj fs ↦ fs | _ ↦ end ] ]

abbrev pub items_at : String → Fields → Items
items_at k d = elim (get k d) [ none ↦ nil | some v ↦ elim v [ arr xs ↦ xs | _ ↦ nil ] ]

-- The identifier under a key: absent or false, no UUID, or one.
pub data Reference : Type 0 where
  missing malformed : Reference
  refers : ℕ → Reference

abbrev pub as_reference : Option ℕ → Reference
as_reference none = malformed
as_reference (some i) = refers i

unfoldable pub reference : Calls → String → Fields → Reference
reference c key d = elim (get key d) [
  | none ↦ missing
  | some v ↦ if truth v then as_reference (c.uuid (c.str_of v)) else missing
]
