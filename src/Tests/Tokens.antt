-- ===== src/Tests/Tokens.antt =====
-- Execution tokens of one grant, under a codec that writes two texts.
use hermes_agent_platform.Base.{
  ◌≡◌, refl, ◌≤◌, ◌<◌, ◌+◌, none, some, [], ◌∷◌, ◌==◌, if◌then◌else◌, nat_eq, string_eq,
}
use hermes_agent_platform.Base.Json.{Fields, obj, end, get}
use hermes_agent_platform.Capabilities.Tokens.{Codec, Grant, claims_of, issue_token, verify_token}
use hermes_agent_platform.Gateway.Tokens.{verify_capability_token, renewed}
use hermes_agent_platform.Gateway.Tokens.Signed.{IsCodec}
use hermes_agent_platform.Gateway.Tokens.RoundTrip.{
  IsFull, Agrees, verify_capability_token-issue_token,
}

-- The codec where the only dict is this one.
abbrev codec_of : Fields → Codec
codec_of d = record {
  hmac = λ key text. 2 ∷ [];
  dumps = λ fs. 1 ∷ [];
  loads = λ bytes. some (obj d);
  encode = λ bytes. elim bytes [ [] ↦ "" | x ∷ xs ↦ if x == 1 then "payload" else "signature" ];
  decode = λ text.
      if text == "payload"
      then some (1 ∷ [])
      else if text == "signature"
      then some (2 ∷ [])
      else none;
  set_of = λ xs. xs;
}

abbrev grant : Grant
grant = record {
  execution_id = "run";
  agent_id = "agent";
  agent_version_id = "v";
  runtime_id = "r";
  allowed_bindings = "ten" ∷ [];
  resolution_digest = "sha256";
}

abbrev claims : Fields
claims = claims_of (codec_of end) "j" 600 1000 grant

abbrev codec : Codec
codec = codec_of claims

token_text : issue_token codec "k" "j" 600 1000 grant ≡ "cap1.payload.signature"
unfolding issue_token nat_eq
token_text = refl

verified : verify_capability_token codec "k" 1599 "cap1.payload.signature" ≡ some claims
unfolding verify_capability_token nat_eq string_eq get claims_of
verified = refl

expired : verify_capability_token codec "k" 1600 "cap1.payload.signature" ≡ none
unfolding verify_capability_token nat_eq string_eq get claims_of
expired = refl

verified_by_backend : verify_token codec "k" 1599 "cap1.payload.signature" ≡ some claims
unfolding verify_token nat_eq string_eq get claims_of
verified_by_backend = refl

other_prefix : verify_capability_token codec "k" 1599 "cap2.payload.signature" ≡ none
unfolding verify_capability_token nat_eq string_eq
other_prefix = refl

codec-IsCodec : IsCodec codec "k" (claims_of codec "j" 600 1000 grant)
unfolding string_eq nat_eq claims_of
codec-IsCodec = record {
  decode_claims = refl;
  decode_signature = refl;
  claims_no_dot = (refl, (refl, (refl, (refl, (refl, (refl, (refl, tt)))))));
  loads_dumps = (claims, refl, λ k. refl);
}

grant-IsFull : IsFull "j" grant
unfolding string_eq
grant-IsFull = record {
  execution_id = refl;
  agent_id = refl;
  agent_version_id = refl;
  resolution_digest = refl;
  jti_full = refl;
}

verify_capability_token-issue_token_example :
    (1599 < 1000 + 600
      → (e : Fields) × Agrees e (claims_of codec "j" 600 1000 grant)
        × (verify_capability_token codec "k" 1599 (issue_token codec "k" "j" 600 1000 grant)
            ≡ some e))
    × (1000 + 600 ≤ 1599
        → verify_capability_token codec "k" 1599 (issue_token codec "k" "j" 600 1000 grant) ≡ none)
verify_capability_token-issue_token_example =
    verify_capability_token-issue_token codec "k" "j" 600 1000 1599 grant codec-IsCodec grant-IsFull

abbrev later_claims : Fields
later_claims = renewed 1500 600 claims

abbrev later_codec : Codec
later_codec = codec_of later_claims
