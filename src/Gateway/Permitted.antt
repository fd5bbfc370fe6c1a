-- ===== src/Gateway/Permitted.antt =====
-- What must hold before `invoke_capability` of
-- services/mcp-gateway/hermes_mcp_gateway/capability_gateway.py turns to a provider.
use hermes_agent_platform.Base.{
  ◌≡◌, ◌⊎◌, inl, inr, Bool, true, false, not, ◌&&◌, ◌||◌, Option, none, some, List, [], ◌∷◌, String,
  ◌==◌, ◌∈◌, find, is_empty, arith, nat_eq, string_eq, option_eq, Bool-cases, Option-cases,
}
use hermes_agent_platform.Base.Json.{Fields, Items, nil, arr, obj, get}
use hermes_agent_platform.Base.Outcome.{ok, Outcome-cases}
use hermes_agent_platform.Policy.{Policy, forbidden_names, protected_paths}
use hermes_agent_platform.Capabilities.{AgentCapabilityBinding}
use hermes_agent_platform.Capabilities.Providers.{is_offline}
use hermes_agent_platform.Gateway.{Claims, Execution, Store, Provider, Bound, World, Request}
use hermes_agent_platform.Gateway.Arguments.{check_arguments, apply_policy}
use hermes_agent_platform.Gateway.Checks.{
  Authorized, object_of, text_at, authenticate, authorized_execution, authorize, is_bound,
  join_binding, binding_row, needs_approval, is_approved, enforce_approval, check_call,
}
use hermes_agent_platform.Gateway.Invoke.{is_allowed}

-- The token is verified and not revoked, and its execution runs the version that it was issued for.
pub record IsAuthorized (w : World) (request : Request) (a : Authorized) : Type 0 where
  pub is_verified : authenticate w request.authorization ≡ ok a.claims
  pub not_revoked : (w.has_redis && w.is_revoked a.claims.jti) ≡ false
  pub is_running : a.execution.is_running ≡ true
  pub is_named : a.execution.id ≡ a.claims.execution_id
  pub same_agent : a.execution.agent_id ≡ a.claims.agent_id
  pub same_version : a.execution.agent_version_id ≡ a.claims.agent_version_id
  pub same_digest : a.execution.resolution_digest ≡ some a.claims.resolution_digest

abbrev pub approvals_of : Execution → Items
approvals_of e = elim (get "capability_approvals" e.details) [
  | none ↦ nil
  | some v ↦ elim v [ arr xs ↦ xs | _ ↦ nil ]
]

-- The binding is switched on, belongs to the version, and the token allows it; its connection is up;
-- its approval is given where it needs one; and the arguments meet the contract and touch no
-- protected key.
pub record IsPermitted (w : World) (a : Authorized) (b : Bound) (p : Provider) : Type 0 where
  pub enabled : b.binding.enabled ≡ true
  pub of_version : w.show b.binding.agent_version_id ≡ a.claims.agent_version_id
  pub allowed : w.show b.binding.id ∈ a.claims.allowed_bindings ≡ true
  pub instance_enabled : p.instance_row.enabled ≡ true
  pub online : is_offline p.instance_row.health_status ≡ false
  pub approved :
      needs_approval w b.binding.approval_policy ≡ true
      → is_approved w (w.show b.binding.id) (approvals_of a.execution) ≡ true
  pub conforms : w.conforms (obj a.arguments) b.version.input_schema ≡ some true
  pub unprotected :
      is_empty (
        protected_paths w.python
          (forbidden_names w.python (w.read_policy b.binding.parameter_policy))
          (obj a.arguments)
          "")
      ≡ true

-- Nothing went out, or one call did, and it was permitted.
abbrev pub Sends : World → Request → Store → Store → Type 0
Sends w request s t =
    (t.sent ≡ s.sent)
    ⊎ ((arguments : Fields) × (t.sent ≡ (s.fresh, arguments) ∷ s.sent)
        × (a : Authorized) × IsAuthorized w request a
        × (b : Bound) × (p : Provider) × IsPermitted w a b p)

pub find-true {ℓ} :
    {A : Type ℓ} (q : A → Bool) (xs : List A) (x : A) → find q xs ≡ some x → q x ≡ true
find-true q [] x h = absurd (cc h)
find-true q (y ∷ ys) x h = elim (Bool-cases (q y)) [
  | inl e ↦ let same : y ≡ x = ground (arith, e, h) in rw (← same) e
  | inr e ↦ find-true q ys x (ground (arith, e, h))
]

module _ (w : World) where
  execution_lem :
      (execution_id : String) (c : Claims) (e : Execution)
      → authorized_execution w execution_id c ≡ ok e
      → (e.id == execution_id ≡ true)
        × (e.is_running ≡ true)
        × (e.agent_id ≡ c.agent_id)
        × (e.agent_version_id ≡ c.agent_version_id)
        × (e.resolution_digest ≡ some c.resolution_digest)
  unfolding authorized_execution
  execution_lem execution_id c e h =
      elim (Option-cases (find (λ (e : Execution). e.id == execution_id) w.executions)) [
        | inl g ↦ absurd (ground (arith, g, h))
        | inr (e', g) ↦
            let same : e' ≡ e = ground (arith, g, h) in
            let named = find-true (λ (e : Execution). e.id == execution_id) w.executions e' g in
            (
              rw (← same) named,
              ground (arith, g, h),
              ground (arith, g, h),
              ground (arith, g, h),
              ground (arith, g, h),
            )
      ]

  -- The last checks, once the body has been read.
  authorized_body :
      (request : Request) (a : Authorized) (c : Claims) (payload arguments : Fields)
      → authenticate w request.authorization ≡ ok c
      → (w.has_redis && w.is_revoked c.jti) ≡ false
      → object_of request.body ≡ some payload
      → object_of (get "arguments" payload) ≡ some arguments
      → authorize w request ≡ ok a
      → IsAuthorized w request a
  unfolding authorize
  authorized_body request a c payload arguments e g k i h =
      let id = text_at w "execution_id" payload in
      let bad = not (id == c.execution_id) || text_at w "tool_name" payload == "" in
      elim (Bool-cases bad) [
        | inl j ↦ absurd (ground (arith, e, g, k, i, j, h))
        | inr j ↦ elim (Outcome-cases (authorized_execution w id c)) [
          | inr (f, l) ↦ absurd (ground (arith, e, g, k, i, j, l, h))
          | inl (x, l) ↦
              let same : a.claims ≡ c = ground (arith, e, g, k, i, j, l, h) in
              let run : a.execution ≡ x = ground (arith, e, g, k, i, j, l, h) in
              let (n, r, p, q, d) = execution_lem id c x l in
              let named : x.id ≡ c.execution_id = ground (arith, n, j) in
              record {
                is_verified = rw same e;
                not_revoked = rw same g;
                is_running = rw run r;
                is_named = rw (run, same) named;
                same_agent = rw (run, same) p;
                same_version = rw (run, same) q;
                same_digest = rw (run, same) d;
              }
        ]
      ]

  pub authorize-IsAuthorized :
      (request : Request) (a : Authorized) → authorize w request ≡ ok a → IsAuthorized w request a
  unfolding authorize
  authorize-IsAuthorized request a h = elim (Outcome-cases (authenticate w request.authorization)) [
    | inr (f, e) ↦ absurd (ground (arith, e, h))
    | inl (c, e) ↦ elim (Bool-cases (w.has_redis && w.is_revoked c.jti)) [
      | inl g ↦ absurd (ground (arith, e, g, h))
      | inr g ↦ elim (Option-cases (object_of request.body)) [
        | inl k ↦ absurd (ground (arith, e, g, k, h))
        | inr (payload, k) ↦ elim (Option-cases (object_of (get "arguments" payload))) [
          | inl i ↦ absurd (ground (arith, e, g, k, i, h))
          | inr (arguments, i) ↦ authorized_body request a c payload arguments e g k i h
        ]
      ]
    ]
  ]

  binding_row_lem :
      (a : Authorized) (b : Bound) → binding_row w a ≡ some b → is_bound w a b.binding ≡ true
  unfolding binding_row join_binding
  binding_row_lem a b h = elim (Option-cases (find (is_bound w a) w.registry.bindings)) [
    | inl e ↦ absurd (ground (arith, e, h))
    | inr (x, e) ↦
        let same : x ≡ b.binding = ground (arith, e, h) in
        rw (← same) (find-true (is_bound w a) w.registry.bindings x e)
  ]

  enforce_approval_lem :
      (b : AgentCapabilityBinding) (e : Execution) (u : Unit)
      → enforce_approval w b e ≡ ok u
      → needs_approval w b.approval_policy ≡ true
      → is_approved w (w.show b.id) (approvals_of e) ≡ true
  unfolding enforce_approval
  enforce_approval_lem b e u h n = ground (arith, h, n)

  apply_policy_lem :
      (arguments result : Fields) (policy : Policy) (scope : Option Fields)
      → apply_policy w arguments policy scope ≡ ok result
      → is_empty (protected_paths w.python (forbidden_names w.python policy) (obj arguments) "")
        ≡ true
  unfolding apply_policy check_arguments
  apply_policy_lem arguments result policy scope h =
      elim (Bool-cases (
        is_empty (protected_paths w.python (forbidden_names w.python policy) (obj arguments) ""))) [
          | inl e ↦ e
          | inr e ↦ absurd (ground (arith, e, h))
        ]

  -- What passes `check_call`.
  pub check_call-IsPermitted :
      (a : Authorized) (b : Bound) (p : Provider) (arguments : Fields)
      → binding_row w a ≡ some b
      → is_allowed w a b ≡ true
      → check_call w a b p ≡ ok arguments
      → IsPermitted w a b p
  unfolding check_call
  check_call-IsPermitted a b p arguments e g h =
      let bound = binding_row_lem a b e in
      let down = not p.instance_row.enabled || is_offline p.instance_row.health_status in
      elim (Bool-cases down) [
        | inl k ↦ absurd (ground (arith, k, h))
        | inr k ↦ elim (Outcome-cases (enforce_approval w b.binding a.execution)) [
          | inr (f, i) ↦ absurd (ground (arith, k, i, h))
          | inl (u, i) ↦ elim (Option-cases (w.conforms (obj a.arguments) b.version.input_schema)) [
            | inl j ↦ absurd (ground (arith, k, i, j, h))
            | inr (false, j) ↦ absurd (ground (arith, k, i, j, h))
            | inr (true, j) ↦
                let applied : apply_policy w a.arguments (w.read_policy b.binding.parameter_policy)
                      (elim p.scope [ none ↦ none | some s ↦ some s.scope_definition ])
                    ≡ ok arguments =
                  ground (arith, k, i, j, h) in
                record {
                  enabled = ground (arith, bound);
                  of_version = ground (arith, bound);
                  allowed = g;
                  instance_enabled = ground (arith, k);
                  online = ground (arith, k);
                  approved = enforce_approval_lem b.binding a.execution u i;
                  conforms = j;
                  unprotected =
                      apply_policy_lem a.arguments arguments
                        (w.read_policy b.binding.parameter_policy) _ applied;
                }
          ]
        ]
      ]
