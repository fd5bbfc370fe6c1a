-- ===== src/Gateway/Arguments.antt =====
-- `_apply_policy`: services/mcp-gateway/hermes_mcp_gateway/capability_gateway.py. Its
-- `_protected_paths` is that of the backend.
use hermes_agent_platform.Base.{
  Bool, true, false, not, Option, none, some, List, [], ◌∷◌, String, if◌then◌else◌, any, is_empty,
}
use hermes_agent_platform.Base.Json.{Json, Fields, obj, get, put, update, is_truthy}
use hermes_agent_platform.Base.Outcome.{Outcome, ok, raised, ◌>>◌, raise_if}
use hermes_agent_platform.Policy.{Policy, absent, forbidden_names, protected_paths}
use hermes_agent_platform.Gateway.{
  ErrorCode, invalid_argument, permission_denied, Failure, gateway_error, unexpected, World,
}

abbrev pub refused : ErrorCode → Failure
refused = gateway_error

-- What a test of a field decides; a comparison that Python cannot make raises a TypeError.
abbrev pub judge : Failure → Option Bool → Outcome Failure (Unit {0})
judge e none = raised unexpected
judge e (some true) = raised e
judge e (some false) = ok tt

-- The loops over a rule's items.
unfoldable pub each_rule {ℓ} :
    {A : Type ℓ}
    → (A → Json → Option Bool)
    → List (String × A)
    → Fields
    → Outcome Failure (Unit {0})
each_rule bad [] value = ok tt
each_rule bad ((name, rule) ∷ rules) value = elim (get name value) [
  | none ↦ each_rule bad rules value
  | some v ↦ judge (gateway_error permission_denied) (bad rule v) >> each_rule bad rules value
]

-- The loop over the required fields.
unfoldable pub each_required : List String → Fields → Outcome Failure (Unit {0})
each_required [] value = ok tt
each_required (name ∷ names) value =
    let rest = each_required names value in
    if absent value name then raised (gateway_error invalid_argument) else rest

module _ (w : World) where
  -- The checks before a value is changed.
  unfoldable pub check_arguments : Policy → Fields → Outcome Failure (Unit {0})
  unfolding protected_paths forbidden_names each_rule each_required
  check_arguments policy value = do
    let present = protected_paths w.python (forbidden_names w.python policy) (obj value) ""
    raise_if (not (is_empty present)) (gateway_error permission_denied)
    each_required policy.required_fields value
    each_rule (λ choices v. some (not (any (w.python.equal v) choices))) policy.allowed_values value
    each_rule (λ limit v. w.greater v limit) policy.maximum value
    each_rule (λ limit v. w.greater limit v) policy.minimum value

  unfoldable pub apply_policy : Fields → Policy → Option Fields → Outcome Failure Fields
  unfolding check_arguments
  apply_policy arguments policy scope = do
    check_arguments policy arguments
    let value = update (update arguments policy.fixed) policy.injected_fields
    ok (elim scope [
      | none ↦ value
      | some s ↦ if is_truthy s then put "resource_scope" (obj s) value else value
    ])
