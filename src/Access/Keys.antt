-- ===== src/Access/Keys.antt =====
-- Which keys open what: a key's validity and a client's permission, revocation, and rotation.
use hermes_agent_platform.Base.{
  ◌≡◌, refl, Bool, true, false, none, some, List, [], ◌∷◌, ◌==◌, find, All, arith, nat_eq,
  string_eq, Bool-cases, Option-cases, inl, inr,
}
use mathlib.Core.Path.{subst}
use hermes_agent_platform.Access.{ApiClient, ApiKey, key_status_eq, client_status_eq}
use hermes_agent_platform.Access.Authentication.{first_row}

-- The column `key_hash` is unique.
abbrev pub IsUnique : List ApiKey → Type 0
IsUnique [] = Unit
IsUnique (k ∷ ks) = All (λ (j : ApiKey). (j.key_hash == k.key_hash) ≡ false) ks × IsUnique ks

abbrev pub Refuses : (ApiKey → Bool) → List ApiKey → Type 0
Refuses p = All (λ k. p k ≡ false)

pub first_row-Refuses :
    (p : ApiKey → Bool) (q : ApiKey → ApiClient → Bool) (cs : List ApiClient) (ks : List ApiKey)
    → Refuses p ks
    → first_row p q cs ks ≡ none
unfolding first_row
first_row-Refuses p q cs [] h = refl
first_row-Refuses p q cs (k ∷ ks) h = ground (arith, h.0, first_row-Refuses p q cs ks h.1)

-- What the found row satisfies.
module _ (P : ApiKey → Type 0) (p : ApiKey → Bool) (q : ApiKey → ApiClient → Bool)
    (cs : List ApiClient) where
  find_passes :
      (k : ApiKey) (ds : List ApiClient) (c : ApiClient) → find (q k) ds ≡ some c → q k c ≡ true
  find_passes k [] c h = absurd (cc h)
  find_passes k (b ∷ ds) c h = elim (Bool-cases (q k b)) [
    | inl e ↦ let same : b ≡ c = ground (arith, e, h) in subst (λ x. q k x ≡ true) same e
    | inr e ↦ find_passes k ds c (rw (e, find) at h)
  ]

  pub first_row_passes :
      (ks : List ApiKey) (c : ApiClient) (k : ApiKey)
      → All P ks
      → first_row p q cs ks ≡ some (c, k)
      → P k × (p k ≡ true) × (q k c ≡ true)
  unfolding first_row
  first_row_passes [] c k a h = absurd (cc h)
  first_row_passes (j ∷ ks) c k a h = elim (Bool-cases (p j)) [
    | inr e ↦ first_row_passes ks c k a.1 (rw e at h)
    | inl e ↦ elim (Option-cases (find (q j) cs)) [
      | inl n ↦ first_row_passes ks c k a.1 (rw (e, n) at h)
      | inr (b, f) ↦
          let same : j ≡ k = ground (arith, e, f, h) in
          let there : b ≡ c = ground (arith, e, f, h) in
          (
            subst P same a.0,
            subst (λ i. p i ≡ true) same e,
            subst (λ i. q i c ≡ true) same (subst (λ b. q j b ≡ true) there (find_passes j cs b f)),
          )
    ]
  ]
