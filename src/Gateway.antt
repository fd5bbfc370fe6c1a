-- ===== src/Gateway.antt =====
-- The gateway through which an execution calls capabilities:
-- services/mcp-gateway/hermes_mcp_gateway/capability_gateway.py. The registry is that of the
-- backend's database. Latencies, summaries and messages are left out, and JSON columns are the
-- dicts that `_json_object` makes of them.
pub mod Arguments
pub mod Checks
pub mod Quota
pub mod Invoke
pub mod Log
pub mod Logged
pub mod Slots
pub mod Twin
pub mod Permitted
pub mod Sent
pub mod Retries
pub mod Ready
pub mod Tokens
use hermes_agent_platform.Base.{
  ℕ, ◌+◌, ◌≡◌, ap, Bool, true, false, not, ◌&&◌, ◌||◌, Option, none, some, List, [], ◌∷◌, ◌++◌,
  String, ◌==◌, ◌∈◌, if◌then◌else◌, Eq, find, filter, first_by, count, nat_eq, string_eq, option_eq,
  leb, ltb,
}
use hermes_agent_platform.Base.Json.{Json, Items, Fields}
use hermes_agent_platform.Base.Outcome.{Outcome}
use hermes_agent_platform.Policy.{Python, Policy}
use hermes_agent_platform.Capabilities.{
  Registry, AgentCapabilityBinding, CapabilityVersion, Capability, CapabilityImplementation,
  Connector, ConnectorOperation, ConnectorInstance, ConnectorInstanceRevision,
  ResourceScopeRevision,
}

-- The keys of `STANDARD_ERRORS`.
pub data ErrorCode : Type 0 where
  invalid_argument not_found permission_denied conflict rate_limited : ErrorCode
  provider_unavailable timeout output_invalid internal_error : ErrorCode

-- What ends the body of the `try`: a `GatewayError`, an `MCPAccessDenied`, the two exceptions of
-- httpx, or any other.
pub data Failure : Type 0 where
  gateway_error : ErrorCode → Failure
  access_denied timeout_exception http_error unexpected : Failure

-- What `_invoke_provider` raises.
pub data ProviderFailure : Type 0 where
  provider_error : ErrorCode → ProviderFailure
  provider_timeout provider_http_error provider_unexpected : ProviderFailure

abbrev pub failure_of : ProviderFailure → Failure
failure_of (provider_error code) = gateway_error code
failure_of provider_timeout = timeout_exception
failure_of provider_http_error = http_error
failure_of provider_unexpected = unexpected

-- The claims of an execution token.
pub record Claims : Type 0 where
  pub execution_id : String
  pub agent_id : String
  pub agent_version_id : String
  pub resolution_digest : String
  pub jti : String
  pub allowed_bindings : List String

pub data InvocationStatus : Type 0 where
  pending succeeded failed denied : InvocationStatus

InvocationStatus-discrete : Discrete InvocationStatus
InvocationStatus-discrete = hlevel

instance unfoldable pub invocation_status_eq : Eq InvocationStatus
unfolding InvocationStatus-discrete
invocation_status_eq = record { dec = InvocationStatus-discrete }

-- A row of `capability_invocations`.
pub record Invocation : Type 0 where
  pub id : ℕ
  pub execution_id : String
  pub binding_id : Option ℕ
  pub revision_id : Option ℕ
  pub status : InvocationStatus
  pub error_code : Option ErrorCode
  pub cache_hit : Bool
  pub created_at : ℕ

-- A row of `execution_logs`, with the digest of the version that it runs.
pub record Execution : Type 0 where
  pub id : String
  pub agent_id : String
  pub agent_version_id : String
  pub is_running : Bool
  pub details : Fields
  pub resolution_digest : Option String

pub record CacheEntry : Type 0 where
  pub key : String
  pub value : Json
  pub expires_at : ℕ

-- What a call changes: the table of invocations, the cache, and the calls that went out to a
-- provider, each by the row of its invocation with the arguments. `fresh` is the next new UUID.
pub record Store : Type 0 where
  pub fresh : ℕ
  pub invocations : List Invocation
  pub cache : List CacheEntry
  pub sent : List (ℕ × Fields)

-- A row of the query for the connection.
pub record Provider : Type 0 where
  pub operation : ConnectorOperation
  pub connector : Connector
  pub revision : ConnectorInstanceRevision
  pub instance_row : ConnectorInstance
  pub scope : Option ResourceScopeRevision

-- The row of the query for the binding.
pub record Bound : Type 0 where
  pub binding : AgentCapabilityBinding
  pub version : CapabilityVersion
  pub capability : Capability

-- What a call finds: the time, the database, Redis, and the libraries. `verify` is the
-- verification of a token; `conforms` is `jsonschema.validate`, `none` where it raises something
-- other than a ValidationError; `int_of` is `int`, `none` where it raises, and 0 for a negative
-- number, since every count reaches both; `cache_key` is the key that `_cache_key` hashes;
-- `read_policy` is how a policy's dict reads; `answer` is what the provider's response, or its
-- failure to respond, makes of `_invoke_provider`, and `mapped` is `_map_response`.
pub record World : Type 0 where
  pub now : ℕ
  pub registry : Registry
  pub executions : List Execution
  pub has_redis : Bool
  pub is_revoked : String → Bool
  pub python : Python
  pub upper : String → String
  pub strip : String → String
  pub str_of : Json → String
  pub show : ℕ → String
  pub int_of : Json → Option ℕ
  pub verify : String → Option Claims
  pub conforms : Json → Fields → Option Bool
  pub greater : Json → Json → Option Bool
  pub read_policy : Fields → Policy
  pub cache_key : Bound → CapabilityImplementation → Claims → Fields → String
  pub answer : Bound → Provider → Fields → Outcome ProviderFailure Json
  pub mapped : Json → Fields → Json

-- A request: its `Authorization` header, and its body, `none` where it is not JSON.
pub record Request : Type 0 where
  pub authorization : Option String
  pub body : Option Json
