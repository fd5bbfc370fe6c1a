-- ===== src/Gateway/Checks.antt =====
-- What `invoke_capability` checks before it reserves a call:
-- services/mcp-gateway/hermes_mcp_gateway/capability_gateway.py.
use Prim.Native.Char.{code}
use Prim.Native.String.{◌∷◌ as push, [] as nothing}
use hermes_agent_platform.Base.{
  Bool, true, false, not, ◌&&◌, ◌||◌, Option, none, some, [], ◌∷◌, String, ◌==◌, ◌∈◌, if◌then◌else◌,
  find, nat_eq, string_eq, option_eq,
}
use hermes_agent_platform.Base.Json.{
  Json, Items, Fields, str, arr, obj, nil, cons, get, truth, has_truth,
}
use hermes_agent_platform.Base.Outcome.{Outcome, ok, raised, ◌>>=◌, ◌>>◌, raise_if}
use hermes_agent_platform.Capabilities.{
  AgentCapabilityBinding, Capability, CapabilityImplementation, Connector, ConnectorInstance,
  get_row,
}
use hermes_agent_platform.Capabilities.Rows.{version_of}
use hermes_agent_platform.Capabilities.Providers.{operation_of, revision_of, scope_of, is_offline}
use hermes_agent_platform.Gateway.{
  invalid_argument, permission_denied, provider_unavailable, Failure, gateway_error, access_denied,
  unexpected, Claims, Execution, Provider, Bound, World, Request,
}
use hermes_agent_platform.Gateway.Arguments.{apply_policy}

-- `value[len(prefix):]` where `value.startswith(prefix)`
unfoldable pub strip_prefix : String → String → Option String
strip_prefix nothing s = some s
strip_prefix (push p ps) nothing = none
strip_prefix (push p ps) (push c s) =
    let rest = strip_prefix ps s in if code p == code c then rest else none

-- `payload.get(key) or ""`, as text
abbrev pub text_at : World → String → Fields → String
text_at w key payload = elim (get key payload) [
  | none ↦ ""
  | some v ↦ if truth v then w.str_of v else ""
]

abbrev pub object_of : Option Json → Option Fields
object_of none = none
object_of (some v) = elim v [ obj fs ↦ some fs | _ ↦ none ]

-- A call that is authorised: its claims, its execution, and what the body asks for.
pub record Authorized : Type 0 where
  pub claims : Claims
  pub execution : Execution
  pub tool_name : String
  pub arguments : Fields

module _ (w : World) where
  -- `_bearer` and the verification of the token.
  unfoldable pub authenticate : Option String → Outcome Failure Claims
  unfolding strip_prefix
  authenticate none = raised access_denied
  authenticate (some header) = elim (strip_prefix "Bearer " header) [
    | none ↦ raised access_denied
    | some token ↦ elim (w.verify (w.strip token)) [ none ↦ raised access_denied | some c ↦ ok c ]
  ]

  -- `_authorized_execution`
  unfoldable pub authorized_execution : String → Claims → Outcome Failure Execution
  authorized_execution execution_id c =
      elim (find (λ (e : Execution). e.id == execution_id) w.executions) [
        | none ↦ raised (gateway_error permission_denied)
        | some e ↦ do
          raise_if (not e.is_running) (gateway_error permission_denied)
          raise_if
              (not (e.agent_id == c.agent_id)
                || not (e.agent_version_id == c.agent_version_id)
                || not (e.resolution_digest == some c.resolution_digest))
              (gateway_error permission_denied)
          ok e
      ]

  -- The first part of the body, which leaves no row when it fails.
  unfoldable pub authorize : Request → Outcome Failure Authorized
  unfolding authenticate authorized_execution
  authorize request = do
    c ← authenticate request.authorization
    raise_if (w.has_redis && w.is_revoked c.jti) (gateway_error permission_denied)
    elim (object_of request.body) [
      | none ↦ raised (gateway_error invalid_argument)
      | some payload ↦ do
        let execution_id = text_at w "execution_id" payload
        let tool_name = text_at w "tool_name" payload
        elim (object_of (get "arguments" payload)) [
          | none ↦ raised (gateway_error invalid_argument)
          | some arguments ↦ do
            raise_if (not (execution_id == c.execution_id) || tool_name == "")
                (gateway_error invalid_argument)
            e ← authorized_execution execution_id c
            ok (record { claims = c; execution = e; tool_name = tool_name; arguments = arguments })
        ]
    ]

  -- The query for the binding.
  abbrev pub is_bound : Authorized → AgentCapabilityBinding → Bool
  is_bound a b =
      w.show b.agent_version_id == a.claims.agent_version_id
      && (b.tool_alias == a.tool_name && b.enabled)

  unfoldable pub join_binding : AgentCapabilityBinding → Option Bound
  join_binding b = elim (version_of w.registry b) [
    | none ↦ none
    | some v ↦ elim (get_row (λ (x : Capability). x.id) v.capability_id w.registry.capabilities) [
      | none ↦ none
      | some x ↦ some (record { binding = b; version = v; capability = x })
    ]
  ]

  unfoldable pub binding_row : Authorized → Option Bound
  unfolding join_binding
  binding_row a = elim (find (is_bound a) w.registry.bindings) [
    | none ↦ none
    | some b ↦ join_binding b
  ]

  -- The query for the connection.
  unfoldable pub provider_row : AgentCapabilityBinding → CapabilityImplementation → Option Provider
  provider_row b m = elim (operation_of w.registry m) [
    | none ↦ none
    | some o ↦ elim (get_row (λ (k : Connector). k.id) o.connector_id w.registry.connectors) [
      | none ↦ none
      | some k ↦ elim (revision_of w.registry m) [
        | none ↦ none
        | some v ↦
            elim (get_row (λ (i : ConnectorInstance). i.id) v.connector_instance_id
              w.registry.instances) [
                | none ↦ none
                | some i ↦ some (record {
                  operation = o;
                  connector = k;
                  revision = v;
                  instance_row = i;
                  scope = scope_of w.registry b;
                })
              ]
      ]
    ]
  ]

  -- `policy.get("mode") or policy.get("type") or "NONE"`, in upper case
  abbrev pub mode_of : Fields → String
  mode_of policy = w.upper (
      if has_truth "mode" policy
      then text_at w "mode" policy
      else if has_truth "type" policy
      then text_at w "type" policy
      else "NONE")

  unfoldable pub needs_approval : Fields → Bool
  needs_approval policy =
      has_truth "required" policy || not (mode_of policy ∈ ("" ∷ "NONE" ∷ "DISABLED" ∷ []))

  -- What an item of the list of approvals approves.
  unfoldable pub approved_by : Json → Option String
  approved_by (str s) = some s
  approved_by (obj fs) =
      if w.python.lower (text_at w "status" fs) == "approved"
      then some (text_at w "binding_id" fs)
      else none
  approved_by _ = none

  unfoldable pub is_approved : String → Items → Bool
  unfolding approved_by
  is_approved id nil = false
  is_approved id (cons x xs) =
      let rest = is_approved id xs in
      elim (approved_by x) [ none ↦ rest | some i ↦ id == i || rest ]

  unfoldable pub enforce_approval : AgentCapabilityBinding → Execution → Outcome Failure (Unit {0})
  unfolding needs_approval is_approved
  enforce_approval b e =
      let approvals : Items = elim (get "capability_approvals" e.details) [
        | none ↦ nil
        | some v ↦ elim v [ arr xs ↦ xs | _ ↦ nil ]
      ] in
      raise_if (needs_approval b.approval_policy && not (is_approved (w.show b.id) approvals))
        (gateway_error permission_denied)

  -- `validate(value, schema)`, and what is raised for a ValidationError.
  abbrev pub validate : Json → Fields → Failure → Outcome Failure (Unit {0})
  validate v schema e = elim (w.conforms v schema) [
    | none ↦ raised unexpected
    | some true ↦ ok tt
    | some false ↦ raised e
  ]

  -- The checks from the connection to the arguments, which are returned as the policy leaves them.
  unfoldable pub check_call : Authorized → Bound → Provider → Outcome Failure Fields
  unfolding enforce_approval apply_policy
  check_call a b p = do
    raise_if (not p.instance_row.enabled || is_offline p.instance_row.health_status)
        (gateway_error provider_unavailable)
    enforce_approval b.binding a.execution
    validate (obj a.arguments) b.version.input_schema (gateway_error invalid_argument)
    apply_policy w a.arguments (w.read_policy b.binding.parameter_policy)
        (elim p.scope [ none ↦ none | some s ↦ some s.scope_definition ])
