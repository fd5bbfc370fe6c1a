-- ===== src/Gateway/Tokens/RoundTrip.antt =====
-- The tokens that backend/app/capabilities/security.py issues and the gateway verifies
-- (services/mcp-gateway/hermes_mcp_gateway/auth.py), and those that the gateway renews.
use hermes_agent_platform.Base.{
  ℕ, ◌+◌, ◌≤◌, ◌<◌, ◌≡◌, refl, true, false, none, some, List, [], ◌∷◌, String, ◌==◌, if◌then◌else◌,
  nat_eq, string_eq, arith,
}
use hermes_agent_platform.Base.Json.{items_of, Fields, int, get}
use hermes_agent_platform.Capabilities.Tokens.{
  Codec, Grant, claims_of, sign, issue_token, number_of, is_later,
}
use hermes_agent_platform.Gateway.Tokens.{
  is_full_text, all_texts, are_bindings, is_accepted, verify_capability_token,
}
use hermes_agent_platform.Gateway.Tokens.Signed.{IsCodec, opened-sign}

-- Two dicts with the same values.
abbrev pub Agrees : Fields → Fields → Type 0
Agrees e d = (k : String) → get k e ≡ get k d

accepted_same : (now : ℕ) (e d : Fields) → Agrees e d → is_accepted now e ≡ is_accepted now d
unfolding is_accepted
accepted_same now e d h = rw (
  h "exp",
  h "execution_id",
  h "agent_id",
  h "agent_version_id",
  h "resolution_digest",
  h "jti",
  h "allowed_bindings",
)

module _ (c : Codec) (key : String) (now : ℕ) where
  -- The gateway takes a signed dict for its claims where it accepts them, and nothing else.
  verify_capability_token-sign :
      (d : Fields)
      → IsCodec c key d
      → (e : Fields) × Agrees e d
        × (verify_capability_token c key now (sign c key d)
            ≡ (if is_accepted now d then some e else none))
  unfolding verify_capability_token
  verify_capability_token-sign d laws =
      let (parts, p, q) = opened-sign c key d laws in
      let (e, f, same) = laws.loads_dumps in
      (e, same, ground (arith, p, q, f, accepted_same now e d same))

-- The parts of an accepted dict.
record Accepted (now : ℕ) (d : Fields) : Type 0 where
  pub later : is_later now (number_of (get "exp" d)) ≡ true
  pub execution_id : is_full_text (get "execution_id" d) ≡ true
  pub agent_id : is_full_text (get "agent_id" d) ≡ true
  pub agent_version_id : is_full_text (get "agent_version_id" d) ≡ true
  pub resolution_digest : is_full_text (get "resolution_digest" d) ≡ true
  pub jti : is_full_text (get "jti" d) ≡ true
  pub bindings : are_bindings (get "allowed_bindings" d) ≡ true

Accepted-is_accepted : (now : ℕ) (d : Fields) → Accepted now d → is_accepted now d ≡ true
unfolding is_accepted
Accepted-is_accepted now d h = rw (
  h.later, h.execution_id, h.agent_id, h.agent_version_id, h.resolution_digest, h.jti, h.bindings,
)

items_are_texts : (xs : List String) → all_texts (items_of xs) ≡ true
unfolding all_texts
items_are_texts [] = refl
items_are_texts (x ∷ xs) = items_are_texts xs

-- A grant and its identifier without an empty text.
pub record IsFull (jti : String) (g : Grant) : Type 0 where
  pub execution_id : (g.execution_id == "") ≡ false
  pub agent_id : (g.agent_id == "") ≡ false
  pub agent_version_id : (g.agent_version_id == "") ≡ false
  pub resolution_digest : (g.resolution_digest == "") ≡ false
  pub jti_full : (jti == "") ≡ false

module _ (c : Codec) (jti : String) (ttl now : ℕ) (g : Grant) where
  exp_lem : get "exp" (claims_of c jti ttl now g) ≡ some (int true (now + ttl))
  unfolding get claims_of string_eq
  exp_lem = refl

  claims-Accepted : (t : ℕ) → IsFull jti g → t < now + ttl → Accepted t (claims_of c jti ttl now g)
  unfolding get claims_of string_eq
  claims-Accepted t f h = record {
    later = ground (arith, exp_lem);
    execution_id = rw f.execution_id refl;
    agent_id = rw f.agent_id refl;
    agent_version_id = rw f.agent_version_id refl;
    resolution_digest = rw f.resolution_digest refl;
    jti = rw f.jti_full refl;
    bindings = items_are_texts (c.set_of g.allowed_bindings);
  }

  accepted_late : (t : ℕ) → now + ttl ≤ t → is_accepted t (claims_of c jti ttl now g) ≡ false
  unfolding is_accepted
  accepted_late t h = ground (arith, exp_lem, h)

module _ (c : Codec) (key : String) where
  -- A token that the backend issues for a grant without an empty text is verified by the gateway,
  -- under the same key, until it expires, with the claims that it was issued with, and never after.
  pub verify_capability_token-issue_token :
      (jti : String) (ttl now t : ℕ) (g : Grant)
      → IsCodec c key (claims_of c jti ttl now g)
      → IsFull jti g
      → (t < now + ttl
          → (e : Fields) × Agrees e (claims_of c jti ttl now g)
            × (verify_capability_token c key t (issue_token c key jti ttl now g) ≡ some e))
        × (now + ttl ≤ t → verify_capability_token c key t (issue_token c key jti ttl now g) ≡ none)
  unfolding issue_token
  verify_capability_token-issue_token jti ttl now t g laws full =
      let d = claims_of c jti ttl now g in
      let (e, same, v) = verify_capability_token-sign c key t d laws in
      (
        λ h.
            let good = Accepted-is_accepted t d (claims-Accepted c jti ttl now g t full h) in
            (e, same, ground (arith, v, good)),
        λ h. ground (arith, v, accepted_late c jti ttl now g t h),
      )
