-- ===== src/Tests/Resolution.antt =====
-- Versions and their ranges, and a version of an Agent with one bound capability.
use Prim.Native.Char.{code}
use hermes_agent_platform.Base.{
  ℕ, ◌-◌, ◌≡◌, refl, ◌↔◌, Bool, true, false, ◌&&◌, ◌||◌, Option, none, some, List, [], ◌∷◌, String,
  ◌==◌, if◌then◌else◌, leb, nat_eq, string_eq,
}
use hermes_agent_platform.Base.Json.{Json, Fields, null, str, arr, obj, bool, nil, cons, end, field}
use hermes_agent_platform.Capabilities.{
  Registry, AgentRuntime, RuntimeStatus, RuntimeFeatureProfile, Capability, CapabilityVersion,
  published, CapabilityImplementation, Connector, postgresql_mcp, ConnectorOperation, Health,
  ConnectorInstance, ConnectorInstanceRevision, ResourceScopeRevision, SkillCapabilityRequirement,
  AgentCapabilityBinding, read_only, safe_retry,
}
use hermes_agent_platform.Capabilities.Issues.{Calls}
use hermes_agent_platform.Capabilities.Ranges.{Unicode, version_satisfies}
use hermes_agent_platform.Capabilities.Resolver.{
  AgentVersion, ready, resolve_current, resolve_agent_capabilities,
}
use hermes_agent_platform.Capabilities.Ready.{IsReady}
use hermes_agent_platform.Capabilities.Ready.Resolution.{resolve_agent_capabilities-IsReady}

-- The part of Unicode's table that ASCII is.
abbrev pub unicode : Unicode
unicode = record {
  digit = λ c. if leb b'0' (code c) && leb (code c) b'9' then some (code c - b'0') else none;
  space = λ c. code c == b' ' || code c == b'\t';
}

in_range : version_satisfies unicode "1.10.0" " >=1.9.0 <2.0.0 " ≡ true
unfolding version_satisfies string_eq nat_eq
in_range = refl

above_range : version_satisfies unicode "2.0.0" ">=1.9.0 <2.0.0" ≡ false
unfolding version_satisfies string_eq nat_eq
above_range = refl

no_version : version_satisfies unicode "1.10" "<2.0.0" ≡ true
unfolding version_satisfies string_eq nat_eq
no_version = refl

any_version : version_satisfies unicode "one" " * " ≡ true
unfolding version_satisfies string_eq nat_eq
any_version = refl

bad_range : version_satisfies unicode "1.0.0" "^1.0.0" ≡ false
unfolding version_satisfies string_eq nat_eq
bad_range = refl

abbrev pub calls : Calls
calls = record {
  unicode = unicode;
  int_is_one = λ j. some false;
  str_of = λ j. elim j [ str s ↦ s | _ ↦ "None" ];
  show = λ n. if n == 6 then "six" else "other";
  uuid = λ s. if s == "one" then some 1 else if s == "two" then some 2 else none;
  text_before = λ s t. true;
  digest = λ p. "sha256";
}

abbrev pub binding : AgentCapabilityBinding
binding = record {
  id = 10;
  agent_version_id = 20;
  tool_alias = "sales";
  capability_version_id = 3;
  implementation_id = none;
  resource_scope_revision_id = some 8;
  parameter_policy = end;
  quota_policy = end;
  approval_policy = end;
  enabled = true;
}

abbrev pub registry : Registry
registry = record {
  runtimes = record { id = 1; version = "1.0"; status = RuntimeStatus.online } ∷ [];
  profiles =
      record {
        runtime_registry_id = 1;
        runtime_version = "1.0";
        features = field "capability_gateway" (bool true) end;
        observed_at = 5;
      }
      ∷ [];
  capabilities =
      record { id = 4; key = "sales.query"; display_name = "Sales"; description = none } ∷ [];
  versions =
      record {
        id = 3;
        capability_id = 4;
        version = "1.2.0";
        input_schema = end;
        output_schema = end;
        side_effect = read_only;
        idempotency = safe_retry;
        cache_policy = end;
        status = published;
      }
      ∷ [];
  implementations =
      record {
        id = 5;
        capability_version_id = 3;
        connector_operation_id = 7;
        connector_instance_revision_id = 6;
        priority = 100;
        is_active = true;
        created_at = 1;
      }
      ∷ [];
  connectors = record { id = 9; type = postgresql_mcp } ∷ [];
  operations =
      record { id = 7; connector_id = 9; response_mapping = end; side_effect = read_only } ∷ [];
  instances = record { id = 11; health_status = Health.healthy; enabled = true } ∷ [];
  revisions =
      record { id = 6; connector_instance_id = 11; connection_config = end; retry_policy = end }
      ∷ [];
  scopes = record { id = 8; scope_definition = field "connector_revision_id" (str "six") end } ∷ [];
  requirements =
      record {
        skill_version_id = 2;
        alias = "report";
        capability_key = "sales.query";
        version_range = ">=1.0.0";
        required = true;
      }
      ∷ [];
  bindings = binding ∷ [];
}

abbrev pub agent_version : AgentVersion
agent_version = record {
  id = 20;
  snapshot =
      field "runtime" (obj (field "runtime_id" (str "one") end))
        (field "skills" (arr (cons (obj (field "skill_version_id" (str "two") end)) nil)) end);
  snapshot_format_version = 2;
}

version_is_ready : ready (resolve_current calls registry agent_version) ≡ true
unfolding ready resolve_current hermes_agent_platform.Base.Json.get string_eq
    hermes_agent_platform.Base.Json.truth nat_eq
    hermes_agent_platform.Capabilities.runtime_status_eq hermes_agent_platform.Base.Dict.lookup
    hermes_agent_platform.Base.Dict.insert version_satisfies
version_is_ready = refl

-- Without its scope the same version is not ready.
abbrev unscoped : Registry
unscoped = record registry { bindings = record binding { resource_scope_revision_id = none } ∷ [] }

needs_scope : ready (resolve_current calls unscoped agent_version) ≡ false
unfolding ready resolve_current hermes_agent_platform.Base.Json.get string_eq
    hermes_agent_platform.Base.Json.truth nat_eq
    hermes_agent_platform.Capabilities.runtime_status_eq hermes_agent_platform.Base.Dict.lookup
    hermes_agent_platform.Base.Dict.insert version_satisfies
needs_scope = refl

resolve_agent_capabilities-IsReady_example :
    (ready (resolve_current calls registry agent_version) ≡ true)
    ↔ IsReady calls registry agent_version
        (resolve_current calls registry agent_version).runtime_features
        (resolve_current calls registry agent_version).tools
unfolding resolve_agent_capabilities
resolve_agent_capabilities-IsReady_example =
    resolve_agent_capabilities-IsReady calls registry agent_version
      (resolve_current calls registry agent_version) refl refl
