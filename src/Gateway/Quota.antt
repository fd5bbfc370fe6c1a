-- ===== src/Gateway/Quota.antt =====
-- `_enforce_quota`, and the row that `invoke_capability` inserts when a call is within its quota:
-- services/mcp-gateway/hermes_mcp_gateway/capability_gateway.py. The advisory locks make the two
-- one step, as far as calls of one binding or one connection are concerned.
use hermes_agent_platform.Base.{
  ℕ, ◌+◌, Bool, false, ◌&&◌, ◌||◌, none, some, List, [], ◌∷◌, ◌++◌, String, ◌==◌, if◌then◌else◌,
  count, nat_eq, string_eq, option_eq, leb,
}
use hermes_agent_platform.Base.Json.{Fields, obj, end, get, truth}
use hermes_agent_platform.Base.Outcome.{Outcome, ok, raised, ◌>>=◌, ◌>>◌, raise_if}
use hermes_agent_platform.Capabilities.{CapabilityImplementation}
use hermes_agent_platform.Gateway.{
  rate_limited, Failure, gateway_error, unexpected, pending, Invocation, invocation_status_eq,
  Store, Provider, Bound, World,
}

abbrev pub of_binding : ℕ → Invocation → Bool
of_binding binding_id i = i.binding_id == some binding_id

abbrev pub of_revision : ℕ → Invocation → Bool
of_revision revision_id i = i.revision_id == some revision_id

abbrev pub is_pending : Invocation → Bool
is_pending i = i.status == pending

abbrev pub is_recent : ℕ → Invocation → Bool
is_recent now i = leb now (i.created_at + 60)

abbrev pub object_at : String → Fields → Fields
object_at k d = elim (get k d) [ none ↦ end | some v ↦ elim v [ obj fs ↦ fs | _ ↦ end ] ]

module _ (w : World) where
  -- `int(quota.get(key) or default)`
  unfoldable pub limit : String → ℕ → Fields → Outcome Failure ℕ
  limit key default quota = elim (get key quota) [
    | none ↦ ok default
    | some v ↦
        if truth v
        then elim (w.int_of v) [ none ↦ raised unexpected | some n ↦ ok n ]
        else ok default
  ]

  unfoldable pub enforce_quota :
      Bound → Provider → String → List Invocation → Outcome Failure (Unit {0})
  unfolding limit
  enforce_quota b p execution_id rows = do
    let quota = b.binding.quota_policy
    calls_per_execution ← limit "calls_per_execution" 20 quota
    calls_per_minute ← limit "calls_per_minute" 60 quota
    max_concurrency ← limit "max_concurrency" 2 quota
    let mine = of_binding b.binding.id
    raise_if
        (leb calls_per_execution (count (λ i. mine i && i.execution_id == execution_id) rows)
          || leb calls_per_minute (count (λ i. mine i && is_recent w.now i) rows)
          || leb max_concurrency (count (λ i. mine i && is_pending i) rows))
        (gateway_error rate_limited)
    let instance_quota = object_at "quota_policy" p.revision.connection_config
    instance_calls_per_minute ← limit "calls_per_minute" 600 instance_quota
    instance_max_concurrency ← limit "max_concurrency" 20 instance_quota
    let its = of_revision p.revision.id
    raise_if
        (leb instance_calls_per_minute (count (λ i. its i && is_recent w.now i) rows)
          || leb instance_max_concurrency (count (λ i. its i && is_pending i) rows))
        (gateway_error rate_limited)

  abbrev pub new_invocation : ℕ → Bound → CapabilityImplementation → String → Invocation
  new_invocation id b m execution_id = record {
    id = id;
    execution_id = execution_id;
    binding_id = some b.binding.id;
    revision_id = some m.connector_instance_revision_id;
    status = pending;
    error_code = none;
    cache_hit = false;
    created_at = w.now;
  }

  -- The transaction: the check, and the row.
  unfoldable pub reserve :
      Bound → CapabilityImplementation → Provider → String → Store → Outcome Failure Store
  unfolding enforce_quota
  reserve b m p execution_id s = do
    enforce_quota b p execution_id s.invocations
    ok (record s {
      fresh = s.fresh + 1;
      invocations = s.invocations ++ new_invocation s.fresh b m execution_id ∷ [];
    })
