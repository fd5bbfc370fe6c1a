-- ===== src/Gateway/Invoke.antt =====
-- `invoke_capability`: services/mcp-gateway/hermes_mcp_gateway/capability_gateway.py, with the cache
-- and the rows that it writes. Redis keeps a key until it expires.
use hermes_agent_platform.Base.{
  ℕ, ◌+◌, Bool, true, false, not, ◌&&◌, ◌||◌, Option, none, some, List, [], ◌∷◌, ◌++◌, map, String,
  ◌==◌, ◌∈◌, if◌then◌else◌, any, find, nat_eq, string_eq, ltb,
}
use hermes_agent_platform.Base.Json.{Json, Fields, null, get, truth, has_truth}
use hermes_agent_platform.Base.Outcome.{Outcome, ok, raised}
use hermes_agent_platform.Capabilities.{
  CapabilityImplementation, CapabilityVersion, SideEffect, read_only,
}
use hermes_agent_platform.Capabilities.Providers.{implementation}
use hermes_agent_platform.Gateway.{
  ErrorCode, permission_denied, provider_unavailable, timeout, output_invalid, internal_error,
  Failure, failure_of, gateway_error, access_denied, timeout_exception, http_error, unexpected,
  InvocationStatus, succeeded, failed, denied, Invocation, CacheEntry, Store, Provider, Bound,
  World, Request,
}
use hermes_agent_platform.Gateway.Checks.{
  Authorized, authorize, binding_row, provider_row, check_call, validate,
}
use hermes_agent_platform.Gateway.Quota.{reserve}

abbrev pub is_read_only : SideEffect → Bool
is_read_only read_only = true
is_read_only _ = false

-- `_finish`
abbrev pub finished : InvocationStatus → Option ErrorCode → Bool → Invocation → Invocation
finished status error hit i = record i { status = status; error_code = error; cache_hit = hit }

unfoldable pub finish : ℕ → InvocationStatus → Option ErrorCode → Bool → Store → Store
finish id status error hit s = record s {
  invocations = map (λ i. if i.id == id then finished status error hit i else i) s.invocations;
}

-- What the handlers know of the call: the variables that the body has set.
pub record Context : Type 0 where
  pub bound : Option Bound
  pub chosen : Option CapabilityImplementation
  pub invocation_id : Option ℕ

abbrev pub status_of : ErrorCode → InvocationStatus
status_of permission_denied = denied
status_of _ = failed

abbrev pub or_fresh : Option ℕ → ℕ → ℕ
or_fresh none n = n
or_fresh (some i) n = i

pub data Response : Type 0 where
  success : ℕ → Json → Bool → Response
  failure : ErrorCode → Option ℕ → Response

abbrev pub has_id : ℕ → Invocation → Bool
has_id id i = i.id == id

abbrev pub known : Option Bound → Option CapabilityImplementation → Context
known b m = record { bound = b; chosen = m; invocation_id = none }

-- The handlers, for a call that is not authorised.
abbrev pub code_of : Failure → ErrorCode
code_of (gateway_error code) = code
code_of access_denied = permission_denied
code_of timeout_exception = timeout
code_of http_error = provider_unavailable
code_of unexpected = internal_error

-- `if invocation_id is not None: await _finish(…)`
unfoldable pub finish_failed : Context → ErrorCode → Store → Store × Response
unfolding finish
finish_failed x code s = elim x.invocation_id [
  | none ↦ (s, failure code none)
  | some id ↦ (finish id failed (some code) false s, failure code (some id))
]

module _ (w : World) where
  -- `_cache_ttl`
  unfoldable pub cache_ttl : CapabilityVersion → ℕ
  cache_ttl v =
      if not (is_read_only v.side_effect) || not (has_truth "enabled" v.cache_policy)
      then 0
      else elim (get "ttl_seconds" v.cache_policy) [
        | none ↦ 0
        | some j ↦
            if truth j
            then elim (w.int_of j) [ none ↦ 0 | some n ↦ if ltb 3600 n then 3600 else n ]
            else 0
      ]

  abbrev pub uses_cache : Bound → Bool
  uses_cache b = w.has_redis && ltb 0 (cache_ttl b.version)

  -- `_cache_get`
  unfoldable pub cache_get : String → List CacheEntry → Option Json
  cache_get key cache =
      elim (find (λ (e : CacheEntry). e.key == key && ltb w.now e.expires_at) cache) [
        | none ↦ none
        | some e ↦ elim e.value [ null ↦ none | v ↦ some v ]
      ]

  abbrev pub cached : Bound → String → List CacheEntry → Option Json
  cached b key cache = if uses_cache b then cache_get key cache else none

  -- `_cache_set`
  unfoldable pub cache_set : Bound → String → Json → Store → Store
  cache_set b key v s =
      if uses_cache b
      then record s {
        cache = record { key = key; value = v; expires_at = w.now + cache_ttl b.version } ∷ s.cache;
      }
      else s

  -- A cached value is used where it meets the contract.
  unfoldable pub from_cache : Bound → Option Json → Outcome Failure (Option Json)
  from_cache b none = ok none
  from_cache b (some v) = elim (w.conforms v b.version.output_schema) [
    | none ↦ raised unexpected
    | some true ↦ ok (some v)
    | some false ↦ ok none
  ]

  -- What a provider answers, with the row and the cache when the answer meets the contract.
  unfoldable pub ask :
      Bound → Provider → Fields → String → ℕ → Store → Store × Outcome Failure (Json × Bool)
  unfolding finish cache_set
  ask b p arguments key id s =
      let sent = record s { sent = (id, arguments) ∷ s.sent } in
      elim (w.answer b p arguments) [
        | raised f ↦ (sent, raised (failure_of f))
        | ok result ↦
            let v = w.mapped result p.operation.response_mapping in
            elim (validate w v b.version.output_schema (gateway_error output_invalid)) [
              | raised f ↦ (sent, raised f)
              | ok _ ↦ (finish id succeeded none false (cache_set b key v sent), ok (v, false))
            ]
      ]

  -- The body once the call is reserved.
  unfoldable pub perform :
      Bound → Provider → Fields → String → ℕ → Store → Store × Outcome Failure (Json × Bool)
  unfolding from_cache cache_get finish ask
  perform b p arguments key id s = elim (from_cache b (cached b key s.cache)) [
    | raised f ↦ (s, raised f)
    | ok none ↦ ask b p arguments key id s
    | ok (some v) ↦ (finish id succeeded none true s, ok (v, true))
  ]

  -- The row that `_audit_failure` inserts, or changes where it is there.
  abbrev pub failed_invocation : Authorized → Context → ErrorCode → ℕ → Invocation
  failed_invocation a x code id = record {
    id = id;
    execution_id = a.claims.execution_id;
    binding_id = elim x.bound [ none ↦ none | some b ↦ some b.binding.id ];
    revision_id = elim x.chosen [ none ↦ none | some m ↦ some m.connector_instance_revision_id ];
    status = status_of code;
    error_code = some code;
    cache_hit = false;
    created_at = w.now;
  }

  -- `_audit_failure`
  unfoldable pub audit_failure : Authorized → Context → ErrorCode → Store → Store × Response
  audit_failure a x code s =
      let id = or_fresh x.invocation_id s.fresh in
      let rows =
        (if any (has_id id) s.invocations
          then map
              (λ i.
                if has_id id i
                then record i { status = status_of code; error_code = some code }
                else i)
              s.invocations
          else s.invocations ++ failed_invocation a x code id ∷ []) in
      (
        record s {
          fresh = elim x.invocation_id [ none ↦ s.fresh + 1 | some i ↦ s.fresh ];
          invocations = rows;
        },
        failure code (some id),
      )

  -- The handlers, for a call that is authorised.
  unfoldable pub handle : Authorized → Context → Failure → Store → Store × Response
  unfolding audit_failure finish_failed
  handle a x (gateway_error code) s = audit_failure a x code s
  handle a x access_denied s = (s, failure permission_denied none)
  handle a x timeout_exception s = finish_failed x timeout s
  handle a x http_error s = finish_failed x provider_unavailable s
  handle a x unexpected s = audit_failure a x internal_error s

  -- What is left once a reserved call has been made.
  unfoldable pub settle :
      Authorized → Context → ℕ → Store × Outcome Failure (Json × Bool) → Store × Response
  unfolding handle
  settle a x id (s, ok (v, hit)) = (s, success id v hit)
  settle a x id (s, raised f) = handle a x f s

  -- The body from the reservation on.
  unfoldable pub call_provider :
      Authorized → Bound → CapabilityImplementation → Provider → Fields → Store → Store × Response
  unfolding handle reserve perform settle
  call_provider a b m p arguments s =
      let x : Context = record { bound = some b; chosen = some m; invocation_id = some s.fresh } in
      elim (reserve w b m p a.claims.execution_id s) [
        | raised f ↦ handle a x f (record s { fresh = s.fresh + 1 })
        | ok s' ↦
            settle a x s.fresh
              (perform b p arguments (w.cache_key b m a.claims arguments) s.fresh s')
      ]

  -- The body from the implementation on.
  unfoldable pub call_implementation :
      Authorized → Bound → CapabilityImplementation → Store → Store × Response
  unfolding handle provider_row check_call call_provider
  call_implementation a b m s = elim (provider_row w b.binding m) [
    | none ↦ handle a (known (some b) (some m)) (gateway_error provider_unavailable) s
    | some p ↦ elim (check_call w a b p) [
      | raised f ↦ handle a (known (some b) (some m)) f s
      | ok arguments ↦ call_provider a b m p arguments s
    ]
  ]

  abbrev pub is_allowed : Authorized → Bound → Bool
  is_allowed a b = w.show b.binding.id ∈ a.claims.allowed_bindings

  -- The body once the call is authorised.
  unfoldable pub call_binding : Authorized → Store → Store × Response
  unfolding handle binding_row implementation call_implementation
  call_binding a s = elim (binding_row w a) [
    | none ↦ handle a (known none none) (gateway_error permission_denied) s
    | some b ↦
        if is_allowed a b
        then elim (implementation w.registry b.binding b.binding.capability_version_id) [
          | none ↦ handle a (known (some b) none) (gateway_error provider_unavailable) s
          | some m ↦ call_implementation a b m s
        ]
        else handle a (known (some b) none) (gateway_error permission_denied) s
  ]

  unfoldable pub invoke_capability : Request → Store → Store × Response
  unfolding authorize call_binding
  invoke_capability request s = elim (authorize w request) [
    | raised f ↦ (s, failure (code_of f) none)
    | ok a ↦ call_binding a s
  ]
