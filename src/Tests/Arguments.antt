-- ===== src/Tests/Arguments.antt =====
-- Arguments of a capability under a policy.
use hermes_agent_platform.Base.{
  ℕ, ◌≡◌, refl, Bool, true, false, ◌&&◌, Option, none, some, List, [], ◌∷◌, ◌++◌, String, ◌==◌, ◌∈◌,
  string_eq, if◌then◌else◌,
}
use hermes_agent_platform.Base.Json.{Json, Fields, str, obj, end, field, get, is_truthy}
use hermes_agent_platform.Base.Outcome.{ok}
use hermes_agent_platform.Policy.{Python, Policy, forbidden_names, apply_parameter_policy}
use hermes_agent_platform.Policy.Protected.{
  OccursIn, in_object, is_key, or_else, policy_protects, apply_parameter_policy_lem,
}

-- Texts in which every letter is a lower-case one, and no number is compared.
abbrev python : Python
python = record {
  lower = λ s. s;
  show = λ n. "0";
  text_length = λ s. 0;
  fullmatch = λ pattern s. true;
  equal = λ v w. true;
  at_least = λ v w. true;
}

abbrev policy : Policy
policy = record {
  forbidden_fields = "admin" ∷ [];
  required_fields = "query" ∷ [];
  allowed_values = [];
  minimum = [];
  maximum = [];
  max_length = ("query", 10) ∷ [];
  regex = ("query", ".*") ∷ [];
  fixed = field "limit" (str "10") end;
  injected_fields = field "tenant" (str "a") end;
}

abbrev arguments : Fields
arguments = field "query" (str "users") (field "limit" (str "1000") end)

abbrev hidden : Fields
hidden = field "query" (obj (field "api_key" (str "k") end)) end

abbrev scope : Fields
scope = field "tenant" (str "a") end

abbrev passed : Fields
passed =
    field "query" (str "users")
      (field "limit" (str "10") (field "tenant" (str "a") (field "resource_scope" (obj scope) end)))

policy_passes : apply_parameter_policy python arguments policy scope ≡ ok passed
unfolding apply_parameter_policy string_eq get hermes_agent_platform.Base.Json.put
    hermes_agent_platform.Base.Json.update
policy_passes = refl

query_occurs : OccursIn "query" (obj arguments)
query_occurs = in_object is_key

policy_protects_example : (◌∈◌ {A = String} "query" (forbidden_names python policy)) ≡ false
policy_protects_example =
    policy_protects python arguments scope passed policy "query" policy_passes query_occurs

apply_parameter_policy_lem_example : get "limit" passed ≡ (
    if is_truthy scope && (◌==◌ {A = String} "limit" "resource_scope")
    then some (obj scope)
    else or_else
        (get "limit" policy.injected_fields)
        (or_else (get "limit" policy.fixed) (get "limit" arguments)))
unfolding get
apply_parameter_policy_lem_example =
    apply_parameter_policy_lem python arguments scope passed policy "limit" (refl, tt) (refl, tt)
      policy_passes
