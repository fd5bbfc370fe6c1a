-- ===== src/Gateway/Tokens.antt =====
-- `verify_capability_token` and `renew_capability_token`:
-- services/mcp-gateway/hermes_mcp_gateway/auth.py. Messages are left out; the checks that raise the
-- same MCPAccessDenied may stand in another order.
pub mod Signed
pub mod RoundTrip
use hermes_agent_platform.Base.{
  ℕ, ◌+◌, ◌≡◌, Bool, true, false, not, ◌&&◌, Option, none, some, List, [], ◌∷◌, String, ◌==◌,
  if◌then◌else◌, all, leb, string_eq,
}
use hermes_agent_platform.Base.Json.{
  Json, Items, Fields, null, bool, int, str, arr, obj, nil, cons, get, put,
}
use hermes_agent_platform.Capabilities.Tokens.{
  Codec, split_token, opened, as_claims, sign, number_of, is_later,
}

-- `isinstance(value, str) and value`
abbrev pub is_full_text : Option Json → Bool
is_full_text none = false
is_full_text (some v) = elim v [ str s ↦ not (s == "") | _ ↦ false ]

abbrev pub is_str : Json → Bool
is_str (str s) = true
is_str _ = false

unfoldable pub all_texts : Items → Bool
all_texts nil = true
all_texts (cons x xs) = is_str x && all_texts xs

abbrev pub are_bindings : Option Json → Bool
are_bindings none = false
are_bindings (some v) = elim v [ arr xs ↦ all_texts xs | _ ↦ false ]

unfoldable pub is_accepted : ℕ → Fields → Bool
unfolding all_texts
is_accepted now claims =
    is_later now (number_of (get "exp" claims))
    && (all (λ k. is_full_text (get k claims))
          ("execution_id" ∷ "agent_id" ∷ "agent_version_id" ∷ "resolution_digest" ∷ "jti" ∷ [])
        && are_bindings (get "allowed_bindings" claims))

unfoldable pub verify_capability_token : Codec → String → ℕ → String → Option Fields
unfolding split_token opened is_accepted
verify_capability_token c key now token = elim (split_token token) [
  | none ↦ none
  | some parts ↦ as_claims (is_accepted now) (opened c key parts)
]

-- The claims of the renewed token; the two readings of the clock are one.
unfoldable pub renewed : ℕ → ℕ → Fields → Fields
renewed now ttl claims = put "exp" (int true (now + ttl)) (put "iat" (int true now) claims)

unfoldable pub renew_capability_token : Codec → String → ℕ → ℕ → Fields → String
unfolding renewed sign
renew_capability_token c key now ttl claims = sign c key (renewed now ttl claims)
