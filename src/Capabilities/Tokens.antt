-- ===== src/Capabilities/Tokens.antt =====
-- Execution tokens: `issue_execution_capability_token` and `verify_execution_capability_token` of
-- backend/app/capabilities/security.py. Messages are left out.
use Prim.Native.Char.{Char, code}
use Prim.Native.String.{◌∷◌ as push, [] as nothing, ◌++◌ as ◌<>◌}
use hermes_agent_platform.Base.{
  ℕ, ◌+◌, Bool, true, false, not, ◌&&◌, Option, none, some, List, [], ◌∷◌, String, ◌==◌,
  if◌then◌else◌, all, leb, nat_eq, string_eq,
}
use hermes_agent_platform.Base.Json.{
  items_of, Json, Fields, bool, int, str, arr, obj, end, field, get,
}

-- What the services take of Python's libraries: HMAC with SHA-256 of a text under a key, the bytes of
-- a dict as JSON and the way back, and base64url without padding and the way back, `none` where it
-- raises. `set_of` sorts a list of texts and drops repetitions.
pub record Codec : Type 0 where
  pub hmac : String → String → List ℕ
  pub dumps : Fields → List ℕ
  pub loads : List ℕ → Option Json
  pub encode : List ℕ → String
  pub decode : String → Option (List ℕ)
  pub set_of : List String → List String

-- `hmac.compare_digest`
unfoldable pub compare_digest : List ℕ → List ℕ → Bool
compare_digest [] [] = true
compare_digest [] (y ∷ ys) = false
compare_digest (x ∷ xs) [] = false
compare_digest (x ∷ xs) (y ∷ ys) = x == y && compare_digest xs ys

abbrev pub prepend : Char → Option (String × String) → Option (String × String)
prepend c none = none
prepend c (some (a, b)) = some (push c a, b)

-- What stands before the first dot, and what follows it.
unfoldable pub cut : String → Option (String × String)
cut nothing = none
cut (push c s) = let rest = prepend c (cut s) in if code c == b'.' then some (nothing, s) else rest

-- `token.split(".", 2)` where it has three parts.
unfoldable pub split_token : String → Option (String × String × String)
unfolding cut
split_token token = elim (cut token) [
  | none ↦ none
  | some (prefix, rest) ↦ elim (cut rest) [
    | none ↦ none
    | some (encoded, signature) ↦ some (prefix, encoded, signature)
  ]
]

-- `_base64url_decode`, which refuses a text that is not the encoding of its bytes.
unfoldable pub decode_exactly : Codec → String → Option (List ℕ)
decode_exactly c value = elim (c.decode value) [
  | none ↦ none
  | some bytes ↦ if c.encode bytes == value then some bytes else none
]

-- What a token is issued for.
pub record Grant : Type 0 where
  pub execution_id : String
  pub agent_id : String
  pub agent_version_id : String
  pub runtime_id : String
  pub allowed_bindings : List String
  pub resolution_digest : String

-- The dict of the claims; the first text is a new UUID.
unfoldable pub claims_of : Codec → String → ℕ → ℕ → Grant → Fields
claims_of c jti ttl issued_at g = field "sub" (str ("execution:" <> g.execution_id)) (
    field "execution_id" (str g.execution_id) (
      field "agent_id" (str g.agent_id) (
        field "agent_version_id" (str g.agent_version_id) (
          field "runtime_id" (str g.runtime_id) (
            field "allowed_bindings" (arr (items_of (c.set_of g.allowed_bindings))) (
              field "resolution_digest" (str g.resolution_digest) (
                field "iat" (int true issued_at)
                  (field "exp" (int true (issued_at + ttl)) (field "jti" (str jti) end)))))))))

-- A dict as a token, signed under a key.
unfoldable pub sign : Codec → String → Fields → String
sign c key claims =
    let encoded = c.encode (c.dumps claims) in
    "cap1" <> ("." <> (encoded <> ("." <> c.encode (c.hmac key ("cap1" <> ("." <> encoded))))))

unfoldable pub issue_token : Codec → String → String → ℕ → ℕ → Grant → String
unfolding claims_of sign
issue_token c key jti ttl now g = sign c key (claims_of c jti ttl now g)

-- `isinstance(value, str)`, and so on; a bool is an int. A negative number is as good as 0 where it is
-- compared with a time.
abbrev pub is_text : Option Json → Bool
is_text none = false
is_text (some v) = elim v [ str s ↦ true | _ ↦ false ]

abbrev pub is_list : Option Json → Bool
is_list none = false
is_list (some v) = elim v [ arr xs ↦ true | _ ↦ false ]

abbrev pub number_of : Option Json → Option ℕ
number_of none = none
number_of (some v) = elim v [
  | int sign n ↦ some (if sign then n else 0)
  | bool b ↦ some (if b then 1 else 0)
  | _ ↦ none
]

abbrev pub is_number : Option Json → Bool
is_number v = elim (number_of v) [ none ↦ false | some n ↦ true ]

abbrev pub is_later : ℕ → Option ℕ → Bool
is_later now none = false
is_later now (some n) = not (leb n now)

abbrev pub has_texts : List String → Fields → Bool
has_texts keys claims = all (λ k. is_text (get k claims)) keys

-- The claims of a text whose parts are signed under the key.
unfoldable pub opened : Codec → String → String × String × String → Option Json
unfolding decode_exactly compare_digest
opened c key (prefix, encoded, signature) =
    if prefix == "cap1"
    then elim (decode_exactly c signature) [
      | none ↦ none
      | some actual ↦
          if compare_digest actual (c.hmac key (prefix <> ("." <> encoded)))
          then elim (decode_exactly c encoded) [ none ↦ none | some bytes ↦ c.loads bytes ]
          else none
    ]
    else none

abbrev pub as_claims : (Fields → Bool) → Option Json → Option Fields
as_claims good none = none
as_claims good (some v) = elim v [ obj fs ↦ if good fs then some fs else none | _ ↦ none ]

abbrev pub is_complete : ℕ → Fields → Bool
is_complete now claims =
    has_texts
      ("execution_id" ∷ "agent_id" ∷ "agent_version_id" ∷ "runtime_id" ∷ "resolution_digest" ∷ "jti"
        ∷ [])
      claims
    && (is_list (get "allowed_bindings" claims)
        && (is_number (get "iat" claims) && is_later now (number_of (get "exp" claims))))

-- `verify_execution_capability_token`; `none` is a CapabilityTokenError.
unfoldable pub verify_token : Codec → String → ℕ → String → Option Fields
unfolding split_token opened
verify_token c key now token = elim (split_token token) [
  | none ↦ none
  | some parts ↦ as_claims (is_complete now) (opened c key parts)
]
