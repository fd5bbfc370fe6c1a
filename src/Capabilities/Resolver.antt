-- ===== src/Capabilities/Resolver.antt =====
-- `resolve_agent_capabilities`: backend/app/capabilities/resolver.py. The list of issues that its
-- helpers extend is what they return.
use hermes_agent_platform.Base.{
  ℕ, Bool, true, false, not, ◌&&◌, Option, none, some, List, [], ◌∷◌, ◌++◌, String, ◌==◌,
  if◌then◌else◌, any, is_empty, nat_eq, string_eq,
}
use hermes_agent_platform.Base.Json.{Json, Fields, int, end, get, truth, has_truth}
use hermes_agent_platform.Capabilities.{Registry, runtime_status_eq}
use hermes_agent_platform.Capabilities.Issues.{
  runtime_feature_mismatch, PreflightIssue, issue, is_error, ResolvedCapability, legacy_payload,
  tools_payload, Calls,
}
use hermes_agent_platform.Capabilities.Runtime.{runtime_features}
use hermes_agent_platform.Capabilities.Rows.{Row, bound_rows, rows_from}
use hermes_agent_platform.Capabilities.Skills.{skill_issues}
use hermes_agent_platform.Capabilities.Providers.{resolve_rows}

-- An Agent's version, with what the resolver reads of it.
pub record AgentVersion : Type 0 where
  pub id : ℕ
  pub snapshot : Fields
  pub snapshot_format_version : ℕ

pub record CapabilityResolution : Type 0 where
  pub agent_version_id : ℕ
  pub format_version : ℕ
  pub legacy : Bool
  pub tools : List ResolvedCapability
  pub issues : List PreflightIssue
  pub resolution_digest : String
  pub runtime_features : Fields

unfoldable pub ready : CapabilityResolution → Bool
ready r = not (any is_error r.issues)

unfoldable pub gateway_issues : Fields → List Row → List PreflightIssue
gateway_issues features rows =
    if not (is_empty rows) && not (has_truth "capability_gateway" features)
    then issue runtime_feature_mismatch "runtime.required_features.capability_gateway" ∷ []
    else []

-- What `int` is taken of.
abbrev pub format_of : AgentVersion → Json
format_of v =
    let stored : Json =
      (if v.snapshot_format_version == 0 then int true 1 else int true v.snapshot_format_version) in
    elim (get "format_version" v.snapshot) [
      | none ↦ stored
      | some j ↦ if truth j then j else stored
    ]

unfoldable pub resolve_current : Calls → Registry → AgentVersion → CapabilityResolution
unfolding runtime_features rows_from gateway_issues skill_issues resolve_rows
resolve_current c reg v =
    let (features, runtime_issues) = runtime_features c reg v.snapshot in
    let rows = bound_rows c reg v.id in
    let (tools, row_issues) = resolve_rows c reg rows in
    record {
      agent_version_id = v.id;
      format_version = 2;
      legacy = false;
      tools = tools;
      issues =
          runtime_issues
          ++ (gateway_issues features rows ++ (skill_issues c reg v.snapshot rows ++ row_issues));
      resolution_digest = c.digest (tools_payload v.id features tools);
      runtime_features = features;
    }

-- `none` where `int` raises.
unfoldable pub resolve_agent_capabilities :
    Calls → Registry → AgentVersion → Option CapabilityResolution
unfolding resolve_current
resolve_agent_capabilities c reg v = elim (c.int_is_one (format_of v)) [
  | none ↦ none
  | some true ↦ some (record {
    agent_version_id = v.id;
    format_version = 1;
    legacy = true;
    tools = [];
    issues = [];
    resolution_digest = c.digest (legacy_payload v.id);
    runtime_features = end;
  })
  | some false ↦ some (resolve_current c reg v)
]
