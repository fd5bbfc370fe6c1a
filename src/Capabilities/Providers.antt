-- ===== src/Capabilities/Providers.antt =====
-- `_implementation`, and the loop of `resolve_agent_capabilities` over the bindings:
-- backend/app/capabilities/resolver.py.
use Prim.Native.String.{◌++◌ as ◌<>◌}
use hermes_agent_platform.Base.{
  ℕ, Bool, true, false, not, ◌&&◌, ◌||◌, Option, none, some, List, [], ◌∷◌, ◌++◌, String, ◌==◌,
  if◌then◌else◌, filter, first_by, nat_eq, string_eq, ltb,
}
use hermes_agent_platform.Base.Json.{null, get}
use hermes_agent_platform.Capabilities.{
  ContractStatus, published, deprecated, CapabilityImplementation, Connector, postgresql_mcp,
  database_mcp, ConnectorOperation, ConnectorInstance, Health, ConnectorInstanceRevision,
  ResourceScopeRevision, AgentCapabilityBinding, Registry, get_row, runtime_status_eq,
}
use hermes_agent_platform.Capabilities.Issues.{
  contract_version_mismatch, capability_implementation_missing, provider_unhealthy,
  resource_scope_required, resource_scope_mismatch, PreflightIssue, issue, ResolvedCapability,
  Calls,
}
use hermes_agent_platform.Capabilities.Rows.{Row}

-- The order of the implementations: by priority, then by age.
abbrev pub preferred : CapabilityImplementation → CapabilityImplementation → Bool
preferred i j =
    ltb i.priority j.priority || i.priority == j.priority && ltb i.created_at j.created_at

unfoldable pub implementation :
    Registry → AgentCapabilityBinding → ℕ → Option CapabilityImplementation
implementation reg b capability_version_id = elim b.implementation_id [
  | some i ↦ elim (get_row (λ (m : CapabilityImplementation). m.id) i reg.implementations) [
    | none ↦ none
    | some m ↦ if m.is_active then some m else none
  ]
  | none ↦ first_by preferred (
      filter
        (λ (m : CapabilityImplementation).
          m.capability_version_id == capability_version_id && m.is_active)
        reg.implementations)
]

abbrev pub is_usable : ContractStatus → Bool
is_usable published = true
is_usable deprecated = true
is_usable _ = false

abbrev pub is_database : Option Connector → Bool
is_database none = false
is_database (some k) = elim k.type [ postgresql_mcp ↦ true | database_mcp ↦ true | _ ↦ false ]

abbrev pub is_offline : Health → Bool
is_offline Health.offline = true
is_offline _ = false

abbrev pub binding_path : Row → String
binding_path r = "capability_bindings." <> r.binding.tool_alias

unfoldable pub provider_issues : Registry → Row → ConnectorInstanceRevision → List PreflightIssue
provider_issues reg r revision =
    elim (get_row (λ (i : ConnectorInstance). i.id) revision.connector_instance_id reg.instances) [
      | none ↦ issue provider_unhealthy (binding_path r) ∷ []
      | some i ↦
          if not i.enabled || is_offline i.health_status
          then issue provider_unhealthy (binding_path r) ∷ []
          else []
    ]

unfoldable pub scope_of : Registry → AgentCapabilityBinding → Option ResourceScopeRevision
scope_of reg b = elim b.resource_scope_revision_id [
  | none ↦ none
  | some i ↦ get_row (λ (s : ResourceScopeRevision). s.id) i reg.scopes
]

-- `str((scope_definition or {}).get("connector_revision_id"))`
abbrev pub scope_revision : Calls → ResourceScopeRevision → String
scope_revision c s = elim (get "connector_revision_id" s.scope_definition) [
  | none ↦ c.str_of null
  | some v ↦ c.str_of v
]

abbrev pub connector_of : Registry → ConnectorOperation → Option Connector
connector_of reg o = get_row (λ (k : Connector). k.id) o.connector_id reg.connectors

unfoldable pub scope_issues :
    Calls → Registry → Row → ConnectorOperation → ConnectorInstanceRevision → List PreflightIssue
unfolding scope_of
scope_issues c reg r operation revision =
    let path = binding_path r <> ".resource_scope_revision_id" in
    if is_database (connector_of reg operation)
    then elim (scope_of reg r.binding) [
      | none ↦ issue resource_scope_required path ∷ []
      | some s ↦
          if scope_revision c s == c.show revision.id
          then []
          else issue resource_scope_mismatch path ∷ []
    ]
    else []

-- `a or b`
abbrev pub text_or : Option String → String → String
text_or none t = t
text_or (some s) t = if s == "" then t else s

abbrev pub tool :
    Row
    → CapabilityImplementation
    → ConnectorOperation
    → ConnectorInstanceRevision
    → ResolvedCapability
tool r m operation revision = record {
  binding_id = r.binding.id;
  tool_name = r.binding.tool_alias;
  capability_key = r.capability.key;
  capability_version = r.version.version;
  description = text_or r.capability.description r.capability.display_name;
  input_schema = r.version.input_schema;
  output_schema = r.version.output_schema;
  implementation_id = m.id;
  connector_operation_id = operation.id;
  connector_instance_revision_id = revision.id;
  resource_scope_revision_id = r.binding.resource_scope_revision_id;
  parameter_policy = r.binding.parameter_policy;
  quota_policy = r.binding.quota_policy;
  approval_policy = r.binding.approval_policy;
}

abbrev pub operation_of : Registry → CapabilityImplementation → Option ConnectorOperation
operation_of reg m =
    get_row (λ (o : ConnectorOperation). o.id) m.connector_operation_id reg.operations

abbrev pub revision_of : Registry → CapabilityImplementation → Option ConnectorInstanceRevision
revision_of reg m =
    get_row (λ (v : ConnectorInstanceRevision). v.id) m.connector_instance_revision_id reg.revisions

-- The rest of the body of the loop over the rows, once the implementation is found.
unfoldable pub resolve_implementation :
    Calls
    → Registry
    → Row
    → CapabilityImplementation
    → List ResolvedCapability × List PreflightIssue
unfolding provider_issues scope_issues
resolve_implementation c reg r m = elim (operation_of reg m) [
  | none ↦ ([], issue capability_implementation_missing (binding_path r) ∷ [])
  | some operation ↦ elim (revision_of reg m) [
    | none ↦ ([], issue capability_implementation_missing (binding_path r) ∷ [])
    | some revision ↦ (
      tool r m operation revision ∷ [],
      provider_issues reg r revision ++ scope_issues c reg r operation revision,
    )
  ]
]

-- The body of the loop over the rows.
unfoldable pub resolve_row : Calls → Registry → Row → List ResolvedCapability × List PreflightIssue
unfolding implementation resolve_implementation
resolve_row c reg r =
    if not (is_usable r.version.status)
    then ([], issue contract_version_mismatch (binding_path r) ∷ [])
    else elim (implementation reg r.binding r.version.id) [
      | none ↦ ([], issue capability_implementation_missing (binding_path r) ∷ [])
      | some m ↦ resolve_implementation c reg r m
    ]

unfoldable pub resolve_rows :
    Calls → Registry → List Row → List ResolvedCapability × List PreflightIssue
unfolding resolve_row
resolve_rows c reg [] = ([], [])
resolve_rows c reg (r ∷ rs) =
    let (tools, issues) = resolve_row c reg r in
    let (more, others) = resolve_rows c reg rs in (tools ++ more, issues ++ others)
