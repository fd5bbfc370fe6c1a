-- ===== src/Gateway/Tokens/Signed.antt =====
-- What is signed under a key is opened with it: the text of a token in
-- backend/app/capabilities/security.py and services/mcp-gateway/hermes_mcp_gateway/auth.py.
use Prim.Native.Char.{code}
use Prim.Native.String.{◌∷◌ as push, [] as nothing, ◌++◌ as ◌<>◌}
use text.Mathlib.TextLemmas.{nil-append, cons-append}
use hermes_agent_platform.Base.{
  ℕ, ap, ◌∙◌, ◌≡◌, refl, true, false, some, List, [], ◌∷◌, String, ◌==◌, nat_eq, string_eq, arith,
  ==_refl,
}
use hermes_agent_platform.Base.Json.{Fields, obj, get}
use hermes_agent_platform.Capabilities.Tokens.{
  Codec, compare_digest, cut, split_token, decode_exactly, sign, opened,
}

-- A text without a dot.
abbrev pub NoDot : String → Type 0
NoDot nothing = Unit
NoDot (push c s) = ((code c == b'.') ≡ false) × NoDot s

-- The text that is signed for a dict, and its signature.
abbrev pub signed : Codec → Fields → String
signed c d = "cap1" <> ("." <> c.encode (c.dumps d))

abbrev pub signature_of : Codec → String → Fields → List ℕ
signature_of c key d = c.hmac key (signed c d)

-- What the libraries document, for the bytes of a dict and of its signature: base64url decodes what
-- it encodes, and writes no dot; and the JSON of the dict reads as a dict with the same values.
pub record IsCodec (c : Codec) (key : String) (d : Fields) : Type 0 where
  pub decode_claims : c.decode (c.encode (c.dumps d)) ≡ some (c.dumps d)
  pub decode_signature : c.decode (c.encode (signature_of c key d)) ≡ some (signature_of c key d)
  pub claims_no_dot : NoDot (c.encode (c.dumps d))
  pub loads_dumps :
      (e : Fields) × (c.loads (c.dumps d) ≡ some (obj e)) × ((k : String) → get k e ≡ get k d)

compare_digest_refl : (xs : List ℕ) → compare_digest xs xs ≡ true
unfolding compare_digest
compare_digest_refl [] = refl
compare_digest_refl (x ∷ xs) = ground (arith, ==_refl x, compare_digest_refl xs)

dot_lem : (b : String) → "." <> b ≡ push "." b
dot_lem b = cons-append "." "" b ∙ ap (push ".") (nil-append b)

cut_dot : (a b : String) → NoDot a → cut (a <> push "." b) ≡ some (a, b)
unfolding cut nat_eq
cut_dot nothing b h = rw (nil-append (push "." b)) refl
cut_dot (push c a) b h = rw (cons-append c a (push "." b), h.0, cut_dot a b h.1)

cut_lem : (a b : String) → NoDot a → cut (a <> ("." <> b)) ≡ some (a, b)
cut_lem a b h = rw (dot_lem b) (cut_dot a b h)

decode_exactly_lem :
    (c : Codec) (bytes : List ℕ)
    → c.decode (c.encode bytes) ≡ some bytes
    → decode_exactly c (c.encode bytes) ≡ some bytes
unfolding decode_exactly
decode_exactly_lem c bytes h = ground (arith, h, ==_refl (c.encode bytes))

-- What is signed under the key is opened with it.
pub opened-sign :
    (c : Codec) (key : String) (d : Fields)
    → IsCodec c key d
    → (parts : String × String × String) × (split_token (sign c key d) ≡ some parts)
      × (opened c key parts ≡ c.loads (c.dumps d))
unfolding split_token sign opened nat_eq
opened-sign c key d laws =
    let e = c.encode (c.dumps d) in
    let s = c.encode (signature_of c key d) in
    (
      ("cap1", e, s),
      ground (
        arith,
        cut_lem "cap1" (e <> ("." <> s)) (refl, (refl, (refl, (refl, tt)))),
        cut_lem e s laws.claims_no_dot,
      ),
      ground (
        arith,
        decode_exactly_lem c (signature_of c key d) laws.decode_signature,
        decode_exactly_lem c (c.dumps d) laws.decode_claims,
        compare_digest_refl (signature_of c key d),
      ),
    )
