-- ===== src/Tests/Calls.antt =====
-- Calls of a capability through the gateway.
use hermes_agent_platform.Base.{
  ℕ, ◌+◌, ◌≤◌, ◌<◌, ◌≡◌, ◌≢◌, refl, Bool, true, false, not, Option, none, some, List, [], ◌∷◌, ◌++◌,
  String, ◌==◌, if◌then◌else◌, nat_eq, string_eq, arith, inl, leb,
}
use hermes_agent_platform.Base.Json.{
  Json, Fields, null, int, str, arr, obj, bool, nil, cons, end, field,
}
use hermes_agent_platform.Base.Outcome.{ok, raised}
use hermes_agent_platform.Policy.{Python, Policy}
use hermes_agent_platform.Capabilities.{
  CapabilityImplementation, postgresql_mcp, Health, read_only, write, safe_retry, non_idempotent,
  published,
}
use hermes_agent_platform.Gateway.{
  ErrorCode, rate_limited, permission_denied, provider_unavailable, Claims, Execution, Invocation,
  pending, succeeded, provider_unexpected, provider_timeout, Store, Provider, Bound, World, Request,
}
use hermes_agent_platform.Gateway.Quota.{reserve, new_invocation}
use hermes_agent_platform.Gateway.Invoke.{
  Response, success, failure, finish, is_read_only, invoke_capability,
}
use hermes_agent_platform.Gateway.Log.{Logs}
use hermes_agent_platform.Gateway.Logged.{invoke_capability-Logs}
use hermes_agent_platform.Gateway.Slots.{Steps, Step, active, active-Steps}
use hermes_agent_platform.Gateway.Retries.{
  Attempt, responds, times_out, value, retries_of, send, send_bounds, send_times_out,
}
use hermes_agent_platform.Capabilities.Rows.{Row}
use hermes_agent_platform.Capabilities.Providers.{tool}
use hermes_agent_platform.Capabilities.Ready.{Resolves}
use hermes_agent_platform.Tests.Resolution.{registry, calls}

-- Texts in lower case, and numbers of one sign.
abbrev python : Python
python = record {
  lower = λ s. s;
  show = λ n. "0";
  text_length = λ s. 0;
  fullmatch = λ pattern s. true;
  equal = λ v w. true;
  at_least = λ v w. elim v [ int _ n ↦ elim w [ int _ m ↦ leb m n | _ ↦ false ] | _ ↦ false ];
}

abbrev policy : Policy
policy = record {
  forbidden_fields = "admin" ∷ [];
  required_fields = "query" ∷ [];
  allowed_values = [];
  minimum = [];
  maximum = ("limit", int true 10) ∷ [];
  max_length = ("query", 0) ∷ [];
  regex = [];
  fixed = end;
  injected_fields = end;
}

abbrev world : World
world = record {
  now = 1000;
  registry = registry;
  executions =
      record {
        id = "run";
        agent_id = "agent";
        agent_version_id = "twenty";
        is_running = true;
        details = end;
        resolution_digest = some "sha256";
      }
      ∷ [];
  has_redis = true;
  is_revoked = λ jti. false;
  python = python;
  upper = λ s. s;
  strip = λ s. s;
  str_of = λ j. elim j [ str s ↦ s | _ ↦ "None" ];
  show = λ n. if n == 10 then "ten" else if n == 20 then "twenty" else "other";
  int_of = λ j. none;
  verify = λ token.
      if token == "cap1"
      then some (record {
        execution_id = "run";
        agent_id = "agent";
        agent_version_id = "twenty";
        resolution_digest = "sha256";
        jti = "j";
        allowed_bindings = "ten" ∷ [];
      })
      else none;
  conforms = λ v schema. some true;
  greater = λ x y. some (not (python.at_least y x));
  read_policy = λ fs. policy;
  cache_key = λ b m c fs. "key";
  answer = λ b p fs. ok (str "rows");
  mapped = λ v fs. v;
}

abbrev arguments : Fields
arguments = field "query" (str "sales") (field "limit" (int true 5) end)

abbrev request : Request
request = record {
  authorization = some "Bearer cap1";
  body = some (
      obj (
        field "execution_id" (str "run")
          (field "tool_name" (str "sales") (field "arguments" (obj arguments) end))));
}

abbrev store : Store
store = record { fresh = 1; invocations = []; cache = []; sent = [] }

call_succeeds : (invoke_capability world request store).1 ≡ success 1 (str "rows") false
unfolding invoke_capability nat_eq string_eq hermes_agent_platform.Base.Json.get
    hermes_agent_platform.Base.Json.truth hermes_agent_platform.Base.option_eq
    hermes_agent_platform.Gateway.Invoke.cache_ttl
call_succeeds = refl

-- A request that names a key of the connection is refused, and leaves a row.
abbrev greedy : Request
greedy = record request {
  body = some (
      obj (
        field "execution_id" (str "run") (
          field "tool_name" (str "sales")
            (field "arguments" (obj (field "api_key" (str "k") arguments)) end))));
}

greedy_is_denied : (invoke_capability world greedy store).1 ≡ failure permission_denied (some 1)
unfolding invoke_capability nat_eq string_eq hermes_agent_platform.Base.Json.get
    hermes_agent_platform.Base.Json.truth hermes_agent_platform.Base.option_eq
greedy_is_denied = refl

-- A third call of a binding with two slots waits for one of them.
abbrev busy : Invocation
busy = record {
  id = 0;
  execution_id = "other";
  binding_id = some 10;
  revision_id = some 6;
  status = pending;
  error_code = none;
  cache_hit = false;
  created_at = 990;
}

third_is_limited :
    (invoke_capability world request
      (record store { invocations = busy ∷ record busy { id = 0 } ∷ [] })).1
    ≡ failure rate_limited (some 1)
unfolding invoke_capability nat_eq string_eq hermes_agent_platform.Base.Json.get
    hermes_agent_platform.Base.Json.truth hermes_agent_platform.Base.option_eq
    hermes_agent_platform.Gateway.invocation_status_eq
third_is_limited = refl

invoke_capability-Logs_example : Logs store (invoke_capability world request store)
invoke_capability-Logs_example = invoke_capability-Logs world request store tt

abbrev bound : Bound
bound = record {
  binding = record {
    id = 10;
    agent_version_id = 20;
    tool_alias = "sales";
    capability_version_id = 3;
    implementation_id = none;
    resource_scope_revision_id = some 8;
    parameter_policy = end;
    quota_policy = end;
    approval_policy = end;
    enabled = true;
  };
  version = record {
    id = 3;
    capability_id = 4;
    version = "1.2.0";
    input_schema = end;
    output_schema = end;
    side_effect = read_only;
    idempotency = safe_retry;
    cache_policy = end;
    status = published;
  };
  capability = record { id = 4; key = "sales.query"; display_name = "Sales"; description = none };
}

abbrev chosen : CapabilityImplementation
chosen = record {
  id = 5;
  capability_version_id = 3;
  connector_operation_id = 7;
  connector_instance_revision_id = 6;
  priority = 100;
  is_active = true;
  created_at = 1;
}

abbrev provider : Provider
provider = record {
  operation = record { id = 7; connector_id = 9; response_mapping = end; side_effect = read_only };
  connector = record { id = 9; type = postgresql_mcp };
  revision = record {
    id = 6;
    connector_instance_id = 11;
    connection_config = end;
    retry_policy = end;
  };
  instance_row = record { id = 11; health_status = Health.healthy; enabled = true };
  scope = none;
}

abbrev reserved_store : Store
reserved_store = record {
  fresh = 2;
  invocations = new_invocation world 1 bound chosen "run" ∷ [];
  cache = [];
  sent = [];
}

abbrev one_reserved : Steps 10 2 store reserved_store
unfolding reserve hermes_agent_platform.Base.Json.get
one_reserved =
    Steps.next Steps.here
      (Step.reserved world bound chosen provider "run" store reserved_store refl (λ _. refl))

active-Steps_example : active 10 reserved_store ≤ 2
active-Steps_example = active-Steps 10 2 one_reserved (omega arith)

-- A provider that answers the second time.
abbrev slow : ℕ → Attempt
slow k = if k == 0 then responds 503 (value null) else responds 200 (value (str "rows"))

second_answer : send slow read_only safe_retry 1 ≡ (2, ok (str "rows"))
unfolding send nat_eq
second_answer = refl

send_bounds_example :
    ((send slow write non_idempotent 5).0 ≤ 3)
    × (is_read_only write ≡ false
        → non_idempotent ≡ non_idempotent
        → (send slow write non_idempotent 5).0 ≤ 1)
send_bounds_example = send_bounds slow write non_idempotent 5

send_times_out_example :
    (send (λ k. times_out none) read_only safe_retry 3).1 ≡ raised provider_unexpected
unfolding retries_of
send_times_out_example = send_times_out (λ k. times_out none) read_only safe_retry 3 (λ k. refl)

abbrev row : Row
row = record { binding = bound.binding; version = bound.version; capability = bound.capability }

row-Resolves : Resolves calls registry row (tool row chosen provider.operation provider.revision)
unfolding hermes_agent_platform.Capabilities.Providers.implementation nat_eq
    hermes_agent_platform.Capabilities.Providers.scope_of hermes_agent_platform.Base.Json.get
    string_eq
row-Resolves = record {
  usable = inl refl;
  chosen = chosen;
  operation = provider.operation;
  revision = provider.revision;
  has_implementation = refl;
  has_operation = refl;
  has_revision = refl;
  healthy = (provider.instance_row, refl, refl, λ e. cc e);
  scoped = λ d. (
    record { id = 8; scope_definition = field "connector_revision_id" (str "six") end },
    refl,
    refl,
  );
  is_tool = refl;
}
