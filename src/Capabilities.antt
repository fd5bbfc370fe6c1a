-- ===== src/Capabilities.antt =====
-- The rows of the capability registry: backend/app/db/models.py, with the columns that
-- backend/app/capabilities/resolver.py and services/mcp-gateway read, and the database as one value. Identifiers and times
-- are numbers.
pub mod Ranges
pub mod Issues
pub mod Runtime
pub mod Rows
pub mod Skills
pub mod Providers
pub mod Resolver
pub mod Ready
pub mod Tokens
use hermes_agent_platform.Base.{
  ℕ, ◌≡◌, ap, Bool, true, false, Option, none, some, List, String, ◌==◌, Eq, find, nat_eq,
}
use hermes_agent_platform.Base.Json.{Json, Fields}

pub data RuntimeStatus : Type 0 where
  unknown online offline disabled : RuntimeStatus

RuntimeStatus-discrete : Discrete RuntimeStatus
RuntimeStatus-discrete = hlevel

instance unfoldable pub runtime_status_eq : Eq RuntimeStatus
unfolding RuntimeStatus-discrete
runtime_status_eq = record { dec = RuntimeStatus-discrete }

pub record AgentRuntime : Type 0 where
  pub id : ℕ
  pub version : String
  pub status : RuntimeStatus

pub record RuntimeFeatureProfile : Type 0 where
  pub runtime_registry_id : ℕ
  pub runtime_version : String
  pub features : Fields
  pub observed_at : ℕ

pub record Capability : Type 0 where
  pub id : ℕ
  pub key : String
  pub display_name : String
  pub description : Option String

pub data ContractStatus : Type 0 where
  draft testing published deprecated disabled : ContractStatus

pub data SideEffect : Type 0 where
  read_only write destructive external_communication long_running : SideEffect

pub data Idempotency : Type 0 where
  safe_retry idempotent non_idempotent : Idempotency

pub record CapabilityVersion : Type 0 where
  pub id : ℕ
  pub capability_id : ℕ
  pub version : String
  pub input_schema : Fields
  pub output_schema : Fields
  pub side_effect : SideEffect
  pub idempotency : Idempotency
  pub cache_policy : Fields
  pub status : ContractStatus

pub record CapabilityImplementation : Type 0 where
  pub id : ℕ
  pub capability_version_id : ℕ
  pub connector_operation_id : ℕ
  pub connector_instance_revision_id : ℕ
  pub priority : ℕ
  pub is_active : Bool
  pub created_at : ℕ

pub data ConnectorType : Type 0 where
  internal_rest mcp postgresql_mcp database_mcp : ConnectorType

pub record Connector : Type 0 where
  pub id : ℕ
  pub type : ConnectorType

pub record ConnectorOperation : Type 0 where
  pub id : ℕ
  pub connector_id : ℕ
  pub response_mapping : Fields
  pub side_effect : SideEffect

pub data Health : Type 0 where
  unknown healthy degraded offline : Health

pub record ConnectorInstance : Type 0 where
  pub id : ℕ
  pub health_status : Health
  pub enabled : Bool

pub record ConnectorInstanceRevision : Type 0 where
  pub id : ℕ
  pub connector_instance_id : ℕ
  pub connection_config : Fields
  pub retry_policy : Fields

pub record ResourceScopeRevision : Type 0 where
  pub id : ℕ
  pub scope_definition : Fields

pub record SkillCapabilityRequirement : Type 0 where
  pub skill_version_id : ℕ
  pub alias : String
  pub capability_key : String
  pub version_range : String
  pub required : Bool

pub record AgentCapabilityBinding : Type 0 where
  pub id : ℕ
  pub agent_version_id : ℕ
  pub tool_alias : String
  pub capability_version_id : ℕ
  pub implementation_id : Option ℕ
  pub resource_scope_revision_id : Option ℕ
  pub parameter_policy : Fields
  pub quota_policy : Fields
  pub approval_policy : Fields
  pub enabled : Bool

pub record Registry : Type 0 where
  pub runtimes : List AgentRuntime
  pub profiles : List RuntimeFeatureProfile
  pub capabilities : List Capability
  pub versions : List CapabilityVersion
  pub implementations : List CapabilityImplementation
  pub connectors : List Connector
  pub operations : List ConnectorOperation
  pub instances : List ConnectorInstance
  pub revisions : List ConnectorInstanceRevision
  pub scopes : List ResourceScopeRevision
  pub requirements : List SkillCapabilityRequirement
  pub bindings : List AgentCapabilityBinding

-- `session.get(Model, id)`
abbrev pub get_row {ℓ} : {A : Type ℓ} → (A → ℕ) → ℕ → List A → Option A
get_row id_of i rows = find (λ r. id_of r == i) rows
