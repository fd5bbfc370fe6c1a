-- ===== src/Gateway/Logged.antt =====
-- The table of invocations after a whole call of `invoke_capability`:
-- services/mcp-gateway/hermes_mcp_gateway/capability_gateway.py.
use hermes_agent_platform.Base.{
  ℕ, String, ◌+◌, ◌≡◌, ◌≢◌, refl, Bool, true, false, Option, none, some, List, [], ◌∷◌, ◌++◌, arith,
  sym, nat_eq, Bool-cases, Option-cases, inl, inr,
}
use mathlib.Core.List.{append-nil}
use hermes_agent_platform.Base.Json.{Json, Fields}
use hermes_agent_platform.Base.Outcome.{
  Outcome, ok, raised, Outcome-cases, Raises, Raises-bind, raise_if-Raises,
}
use hermes_agent_platform.Capabilities.{CapabilityImplementation}
use hermes_agent_platform.Capabilities.Providers.{implementation}
use hermes_agent_platform.Gateway.{
  permission_denied, provider_unavailable, Failure, ProviderFailure, failure_of, gateway_error,
  access_denied, unexpected, Invocation, succeeded, Store, Provider, Bound, World, Request,
}
use hermes_agent_platform.Gateway.Checks.{
  Authorized, authorize, binding_row, provider_row, check_call,
}
use hermes_agent_platform.Gateway.Quota.{reserve, enforce_quota, new_invocation}
use hermes_agent_platform.Gateway.Invoke.{
  Context, finished, cache_set, cached, from_cache, ask, perform, settle, call_provider,
  call_implementation, is_allowed, known, call_binding, invoke_capability,
}
use hermes_agent_platform.Gateway.{rate_limited}
use hermes_agent_platform.Gateway.Quota.{limit, object_at}
use hermes_agent_platform.Gateway.Log.{
  IsFresh, Logs, InProgress, finish-InProgress, IsOwn, handle_early, handle_unreserved,
  handle_reserved,
}

limit_raised :
    (w : World) (key : String) (n : ℕ) (q : Fields) (f : Failure)
    → limit w key n q ≡ raised f
    → f ≡ unexpected
unfolding limit
limit_raised w key n q f h = ground (arith, h)

limit-Raises : (w : World) (key : String) (n : ℕ) (q : Fields) → Raises IsOwn (limit w key n q)
limit-Raises w key n q = elim (Outcome-cases (limit w key n q)) [
  | inl (m, e) ↦ rw e tt
  | inr (f, e) ↦ rw e (inl (limit_raised w key n q f e))
]

-- What goes wrong with a quota is an error of the gateway.
enforce_quota-Raises :
    (w : World) (b : Bound) (p : Provider) (execution_id : String) (rows : List Invocation)
    → Raises IsOwn (enforce_quota w b p execution_id rows)
unfolding enforce_quota
enforce_quota-Raises w b p execution_id rows =
    let quota = b.binding.quota_policy in
    let instance_quota = object_at "quota_policy" p.revision.connection_config in
    let own : IsOwn (gateway_error rate_limited) = inr (rate_limited, refl) in
    Raises-bind IsOwn (limit w "calls_per_execution" 20 quota) _
      (limit-Raises w "calls_per_execution" 20 quota)
      λ n.
        Raises-bind IsOwn (limit w "calls_per_minute" 60 quota) _
          (limit-Raises w "calls_per_minute" 60 quota)
          λ m.
            Raises-bind IsOwn (limit w "max_concurrency" 2 quota) _
              (limit-Raises w "max_concurrency" 2 quota)
              λ k. Raises-bind IsOwn _ _ (raise_if-Raises IsOwn _ _ own) λ _.
                Raises-bind IsOwn (limit w "calls_per_minute" 600 instance_quota) _
                  (limit-Raises w "calls_per_minute" 600 instance_quota)
                  λ i.
                    Raises-bind IsOwn (limit w "max_concurrency" 20 instance_quota) _
                      (limit-Raises w "max_concurrency" 20 instance_quota)
                      λ j. raise_if-Raises IsOwn _ _ own

-- What a call leaves: its row finished on success, and on failure still to be finished.
abbrev Performed : Store → Invocation → Store × Outcome Failure (Json × Bool) → Type 0
Performed s r (t, ok (v, hit)) = t.invocations ≡ s.invocations ++ finished succeeded none hit r ∷ []
Performed s r (t, raised f) = InProgress s t r × (f ≢ access_denied)

failure_of-ne : (f : ProviderFailure) → failure_of f ≢ access_denied
failure_of-ne (ProviderFailure.provider_error code) e = cc e
failure_of-ne ProviderFailure.provider_timeout e = cc e
failure_of-ne ProviderFailure.provider_http_error e = cc e
failure_of-ne ProviderFailure.provider_unexpected e = cc e

from_cache-ne :
    (w : World) (b : Bound) (v : Option Json) (f : Failure)
    → from_cache w b v ≡ raised f
    → f ≢ access_denied
unfolding from_cache
from_cache-ne w b none f e g = cc e
from_cache-ne w b (some v) f e g = ground (arith, e, g)

module _ (s : Store) (fresh : IsFresh s) (w : World) (b : Bound) where
  -- Neither the cache nor the list of calls is part of the table.
  cache_set-InProgress :
      (key : String) (v : Json) (t : Store) (r : Invocation)
      → InProgress s t r
      → InProgress s (cache_set w b key v t) r
  unfolding cache_set
  cache_set-InProgress key v t r p = record {
    rows = ground (arith, p.rows);
    own = p.own;
    no_error = p.no_error;
    no_hit = p.no_hit;
  }

  sent-InProgress :
      (call : ℕ × Fields) (t : Store) (r : Invocation)
      → InProgress s t r
      → InProgress s (record t { sent = call ∷ t.sent }) r
  sent-InProgress call t r p = record {
    rows = p.rows;
    own = p.own;
    no_error = p.no_error;
    no_hit = p.no_hit;
  }

  ask-Performed :
      (p : Provider) (arguments : Fields) (key : String) (t : Store) (r : Invocation)
      → InProgress s t r
      → Performed s r (ask w b p arguments key s.fresh t)
  unfolding ask
  ask-Performed p arguments key t r h =
      let sent = sent-InProgress (s.fresh, arguments) t r h in
      elim (Outcome-cases (w.answer b p arguments)) [
        | inr (f, e) ↦ rw (e, ask) (sent, failure_of-ne f)
        | inl (result, e) ↦
            let v = w.mapped result p.operation.response_mapping in
            elim (Option-cases (w.conforms v b.version.output_schema)) [
              | inl g ↦ rw (e, g, ask) (sent, λ h. cc h)
              | inr (valid, g) ↦ elim (Bool-cases valid) [
                | inr i ↦ rw (e, g, i, ask) (sent, λ h. cc h)
                | inl i ↦
                    rw (e, g, i, ask)
                      (finish-InProgress s fresh
                        (cache_set w b key v (record t { sent = (s.fresh, arguments) ∷ t.sent })) r
                        succeeded none false
                        (cache_set-InProgress key v
                          (record t { sent = (s.fresh, arguments) ∷ t.sent }) r sent))
              ]
            ]
      ]

  perform-Performed :
      (p : Provider) (arguments : Fields) (key : String) (t : Store) (r : Invocation)
      → InProgress s t r
      → Performed s r (perform w b p arguments key s.fresh t)
  unfolding perform
  perform-Performed p arguments key t r h =
      elim (Outcome-cases (from_cache w b (cached w b key t.cache))) [
        | inr (f, e) ↦ rw (e, perform) (h, from_cache-ne w b (cached w b key t.cache) f e)
        | inl (found, e) ↦ elim (Option-cases found) [
          | inl g ↦ rw (e, g, perform) (ask-Performed p arguments key t r h)
          | inr (v, g) ↦ rw (e, g, perform) (finish-InProgress s fresh t r succeeded none true h)
        ]
      ]

module _ (s : Store) (fresh : IsFresh s) (w : World) (a : Authorized) where
  settle-Logs :
      (x : Context) (r : Invocation) (q : Store × Outcome Failure (Json × Bool))
      → x.invocation_id ≡ some s.fresh
      → r.id ≡ s.fresh
      → Performed s r q
      → Logs s (settle w a x s.fresh q)
  unfolding settle
  settle-Logs x r (t, ok (v, hit)) e o h = (
    finished succeeded none hit r ∷ [],
    h,
    (finished succeeded none hit r, refl, o, refl, refl, refl),
  )
  settle-Logs x r (t, raised f) e o h = handle_reserved s fresh w a x f t r e h.1 h.0

  call_provider-Logs :
      (b : Bound) (m : CapabilityImplementation) (p : Provider) (arguments : Fields)
      → Logs s (call_provider w a b m p arguments s)
  unfolding call_provider reserve
  call_provider-Logs b m p arguments =
      let x : Context = record { bound = some b; chosen = some m; invocation_id = some s.fresh } in
      let id = a.claims.execution_id in
      let r = new_invocation w s.fresh b m id in
      let t : Store = record s { fresh = s.fresh + 1; invocations = s.invocations ++ r ∷ [] } in
      let key = w.cache_key b m a.claims arguments in
      elim (Outcome-cases (enforce_quota w b p id s.invocations)) [
        | inr (f, e) ↦
            rw (e, call_provider)
              (handle_unreserved s fresh w a x f (record s { fresh = s.fresh + 1 }) refl refl
                (rw e at (enforce_quota-Raises w b p id s.invocations)))
        | inl (u, e) ↦
            rw (e, call_provider)
              (settle-Logs x r (perform w b p arguments key s.fresh t) refl refl (
                perform-Performed s fresh w b p arguments key t r
                  (record { rows = refl; own = refl; no_error = refl; no_hit = refl })))
      ]

  call_implementation-Logs :
      (b : Bound) (m : CapabilityImplementation) → Logs s (call_implementation w a b m s)
  unfolding call_implementation
  call_implementation-Logs b m = elim (Option-cases (provider_row w b.binding m)) [
    | inl e ↦
        rw (e, call_implementation)
          (handle_early s fresh w a (known (some b) (some m)) (gateway_error provider_unavailable)
            refl)
    | inr (p, e) ↦ elim (Outcome-cases (check_call w a b p)) [
      | inr (f, g) ↦
          rw (e, g, call_implementation) (handle_early s fresh w a (known (some b) (some m)) f refl)
      | inl (arguments, g) ↦ rw (e, g, call_implementation) (call_provider-Logs b m p arguments)
    ]
  ]

  call_binding-Logs : Logs s (call_binding w a s)
  unfolding call_binding
  call_binding-Logs = elim (Option-cases (binding_row w a)) [
    | inl e ↦
        rw (e, call_binding)
          (handle_early s fresh w a (known none none) (gateway_error permission_denied) refl)
    | inr (b, e) ↦ elim (Bool-cases (is_allowed w a b)) [
      | inr g ↦
          rw (e, g, call_binding)
            (handle_early s fresh w a (known (some b) none) (gateway_error permission_denied) refl)
      | inl g ↦
          elim (Option-cases
            (implementation w.registry b.binding b.binding.capability_version_id)) [
              | inl i ↦
                  rw (e, g, i, call_binding)
                    (handle_early s fresh w a (known (some b) none)
                      (gateway_error provider_unavailable) refl)
              | inr (m, i) ↦ rw (e, g, i, call_binding) (call_implementation-Logs b m)
            ]
    ]
  ]

-- Where the next identifier is new, a call adds to the table what its response says and changes no
-- row. A success adds one row, of that identifier, succeeded, and with the response's word on the
-- cache. A failure with an identifier adds one row, of that identifier, with the response's error,
-- denied for a refused permission and failed otherwise. A failure without one adds no row. No row
-- is left pending.
pub invoke_capability-Logs :
    (w : World) (request : Request) (s : Store) → IsFresh s → Logs s (invoke_capability w request s)
unfolding invoke_capability
invoke_capability-Logs w request s fresh = elim (Outcome-cases (authorize w request)) [
  | inr (f, e) ↦ rw (e, invoke_capability) ([], sym (append-nil s.invocations), refl)
  | inl (a, e) ↦ rw (e, invoke_capability) (call_binding-Logs s fresh w a)
]
