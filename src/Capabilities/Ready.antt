-- ===== src/Capabilities/Ready.antt =====
-- When an Agent's version is ready: what backend/app/capabilities/resolver.py promises of a
-- resolution without errors, in terms of the registry.
pub mod Bound
pub mod Required
pub mod Equipped
pub mod Resolution
use hermes_agent_platform.Base.{
  ℕ, ◌≡◌, ◌≢◌, ◌⊎◌, Bool, true, false, some, List, String, All, All₂, is_empty,
}
use hermes_agent_platform.Base.Json.{Json, Fields, Items, nil, cons, has_truth}
use hermes_agent_platform.Capabilities.{
  AgentRuntime, RuntimeStatus, ContractStatus, published, deprecated, CapabilityImplementation,
  CapabilityVersion, AgentCapabilityBinding, SkillCapabilityRequirement, ConnectorOperation, Health,
  ConnectorInstance, ConnectorInstanceRevision, ResourceScopeRevision, Registry, get_row,
}
use hermes_agent_platform.Capabilities.Issues.{
  Calls, ResolvedCapability, reference, refers, malformed, object_at, items_at,
}
use hermes_agent_platform.Capabilities.Ranges.{version_satisfies}
use hermes_agent_platform.Capabilities.Runtime.{profile_features}
use hermes_agent_platform.Capabilities.Rows.{Row, version_of, bound_rows}
use hermes_agent_platform.Capabilities.Skills.{item_reference, binding_for}
use hermes_agent_platform.Capabilities.Providers.{
  implementation, operation_of, revision_of, connector_of, is_database, scope_of, scope_revision,
  tool,
}
use hermes_agent_platform.Capabilities.Resolver.{AgentVersion}

-- The connection of a revision is there, switched on, and not offline.
abbrev pub IsHealthy : Registry → ConnectorInstanceRevision → Type 0
IsHealthy reg v =
    (i : ConnectorInstance) × (get_row (λ (i : ConnectorInstance). i.id) v.connector_instance_id
        reg.instances
      ≡ some i)
    × (i.enabled ≡ true)
    × (i.health_status ≢ Health.offline)

-- A database is used within a scope of this very revision.
abbrev pub IsScoped :
    Calls → Registry → Row → ConnectorOperation → ConnectorInstanceRevision → Type 0
IsScoped c reg r o v =
    (is_database (connector_of reg o) ≡ true)
    → (s : ResourceScopeRevision) × (scope_of reg r.binding ≡ some s)
      × (scope_revision c s ≡ c.show v.id)

-- A bound capability is resolved to a tool.
pub record Resolves (c : Calls) (reg : Registry) (r : Row) (t : ResolvedCapability) : Type 0 where
  pub usable : (r.version.status ≡ published) ⊎ (r.version.status ≡ deprecated)
  pub chosen : CapabilityImplementation
  pub operation : ConnectorOperation
  pub revision : ConnectorInstanceRevision
  pub has_implementation : implementation reg r.binding r.version.id ≡ some chosen
  pub has_operation : operation_of reg chosen ≡ some operation
  pub has_revision : revision_of reg chosen ≡ some revision
  pub healthy : IsHealthy reg revision
  pub scoped : IsScoped c reg r operation revision
  pub is_tool : t ≡ tool r chosen operation revision

-- Every item of a JSON list satisfies `P`.
abbrev pub AllItems : (Json → Type 0) → Items → Type 0
AllItems P nil = Unit
AllItems P (cons x xs) = P x × AllItems P xs

-- The Runtime of a snapshot is there and up, and has every feature that the snapshot requires.
pub record HasRuntime (c : Calls) (reg : Registry) (snapshot features : Fields) : Type 0 where
  pub id : ℕ
  pub runtime : AgentRuntime
  pub is_named : reference c "runtime_id" (object_at "runtime" snapshot) ≡ refers id
  pub is_there : get_row (λ (r : AgentRuntime). r.id) id reg.runtimes ≡ some runtime
  pub not_offline : runtime.status ≢ RuntimeStatus.offline
  pub not_disabled : runtime.status ≢ RuntimeStatus.disabled
  pub has_profile : features ≡ profile_features reg runtime
  pub has_features :
      AllItems
        (λ name. has_truth (c.str_of name) features ≡ true)
        (items_at "required_features" (object_at "runtime" snapshot))

-- Some item of the list of Skills refers to this version of a Skill.
abbrev pub Refers : Calls → Items → ℕ → Type 0
Refers c nil i = ⊥
Refers c (cons x xs) i = (item_reference c x ≡ refers i) ⊎ Refers c xs i

-- A requirement is met by a bound version within its range.
abbrev pub Met : Calls → Registry → List Row → SkillCapabilityRequirement → Type 0
Met c reg rows q =
    (b : AgentCapabilityBinding) × (binding_for rows q ≡ some b)
    × (v : CapabilityVersion) × (version_of reg b ≡ some v)
    × (version_satisfies c.unicode v.version q.version_range ≡ true)

-- The Skills of a snapshot are named by identifiers, and what they require is bound.
pub record HasSkills (c : Calls) (reg : Registry) (skills : Items) (rows : List Row) : Type 0 where
  pub named : AllItems (λ x. item_reference c x ≢ malformed) skills
  pub met :
      All
        (λ q. q.required ≡ true → Refers c skills q.skill_version_id → Met c reg rows q)
        reg.requirements

-- A version is ready, with these features of its Runtime and these tools.
pub record IsReady (c : Calls) (reg : Registry) (v : AgentVersion) (features : Fields)
    (tools : List ResolvedCapability) : Type 0 where
  pub runs : HasRuntime c reg v.snapshot features
  pub dispatches :
      (is_empty (bound_rows c reg v.id) ≡ true) ⊎ (has_truth "capability_gateway" features ≡ true)
  pub equipped : HasSkills c reg (items_at "skills" v.snapshot) (bound_rows c reg v.id)
  pub bound : All₂ (Resolves c reg) (bound_rows c reg v.id) tools
