-- ===== src/Access/Rotation.antt =====
-- Keys that no longer open anything: `revoke_api_key` and `rotate_legacy_publication_key`.
use hermes_agent_platform.Base.{
  ℕ, ◌≡◌, refl, ◌≢◌, ap, ◌∙◌, sym, Bool, true, false, none, some, List, [], ◌∷◌, ◌++◌, map, String,
  ◌==◌, find, if◌then◌else◌, All, arith, nat_eq, string_eq, Bool-cases, Option-cases, inl, inr,
}
use mathlib.Core.Path.{subst}
use hermes_agent_platform.Base.Outcome.{ok}
use hermes_agent_platform.Access.{
  ApiClient, ApiKey, KeyStatus, ClientStatus, key_status_eq, client_status_eq, Directory, Secret,
  new_key, revoked_key, revoke_api_key, create_api_client,
}
use hermes_agent_platform.Access.Authentication.{
  is_valid_key, is_active_client, first_row, authenticate_client_key,
}
use hermes_agent_platform.Access.Rotate.{
  revoke_active, rotate_keys, rotate_legacy_publication_key, legacy_name,
}
use hermes_agent_platform.Access.Keys.{first_row_passes, Refuses}

abbrev IsShut : ℕ → ApiKey → Type 0
IsShut id k = k.id ≡ id → k.status ≡ KeyStatus.revoked

revoked_rows :
    (now id : ℕ) (ks : List ApiKey)
    → All (IsShut id) (map (λ (k : ApiKey). if k.id == id then revoked_key now k else k) ks)
revoked_rows now id [] = tt
revoked_rows now id (k ∷ ks) = (ground arith, revoked_rows now id ks)

-- After a key is revoked, whatever text is presented at whatever time, the key that it is found to
-- be is another one.
pub revoke_shuts :
    (now later id : ℕ) (hash : String) (d : Directory) (c : ApiClient) (k : ApiKey)
    → authenticate_client_key later hash (revoke_api_key now id d) ≡ some (c, k)
    → k.id ≢ id
unfolding authenticate_client_key revoke_api_key
revoke_shuts now later id hash d c k h =
    let (shut, valid, _) =
      first_row_passes (IsShut id) (is_valid_key later hash) (λ j. is_active_client j.client_id)
        d.clients _ c k (revoked_rows now id d.keys) h in
    λ e. absurd (ground (arith, shut e, valid))

-- A client's keys that are still active are one key.
abbrev IsOnly : ℕ → ApiKey → ApiKey → Type 0
IsOnly client_id k j = j.client_id ≡ client_id → j.status ≡ KeyStatus.active → j ≡ k

IsOnly-new :
    (now client_id : ℕ) (k : ApiKey) (ks : List ApiKey)
    → All (IsOnly client_id k) (revoke_active now client_id ks ++ k ∷ [])
unfolding revoke_active
IsOnly-new now client_id k [] = (λ _ _. refl, tt)
IsOnly-new now client_id k (j ∷ ks) = ((λ e s. ground (arith, e, s)), IsOnly-new now client_id k ks)

find_other :
    (p q : ApiClient → Bool) (cs : List ApiClient) (c : ApiClient)
    → find p cs ≡ some c
    → q c ≡ true
    → (b : ApiClient) × (find q cs ≡ some b) × (q b ≡ true)
find_other p q [] c h t = absurd (cc h)
find_other p q (a ∷ cs) c h t = elim (Bool-cases (q a)) [
  | inl e ↦ (a, rw (e, find) refl, e)
  | inr e ↦ elim (Bool-cases (p a)) [
    | inl f ↦
        let same : a ≡ c = ground (arith, f, h) in
        absurd (cc (subst (λ x. q x ≡ true) (sym same) t, e))
    | inr f ↦ let (b, g, g') = find_other p q cs c (rw (f, find) at h) t in (b, rw (e, find) g, g')
  ]
]

find_last :
    (q : ApiClient → Bool) (cs : List ApiClient) (c : ApiClient)
    → q c ≡ true
    → (b : ApiClient) × (find q (cs ++ c ∷ []) ≡ some b) × (q b ≡ true)
find_last q [] c t = (c, rw (t, find) refl, t)
find_last q (a ∷ cs) c t = elim (Bool-cases (q a)) [
  | inl e ↦ (a, rw (e, find) refl, e)
  | inr e ↦ let (b, g, g') = find_last q cs c t in (b, rw (e, find) g, g')
]

-- There is an active client of the id.
abbrev HasClient : ℕ → List ApiClient → Type 0
HasClient i cs =
    (b : ApiClient) × (find (is_active_client i) cs ≡ some b) × (is_active_client i b ≡ true)

-- The rows after a rotation.
record IsRotated (now : ℕ) (secret : Secret) (d d' : Directory) (k : ApiKey) : Type 0 where
  rows : d'.keys ≡ revoke_active now k.client_id d.keys ++ k ∷ []
  hashed : k.key_hash ≡ secret.key_hash
  usable : k.status ≡ KeyStatus.active
  lasting : k.expires_at ≡ none
  client : HasClient k.client_id d'.clients

rotate-IsRotated :
    (now client_id key_id : ℕ) (agent_id : String) (secret : Secret) (d d' : Directory) (k : ApiKey)
    → rotate_legacy_publication_key now client_id key_id agent_id secret d ≡ ok (d', k)
    → IsRotated now secret d d' k
unfolding rotate_legacy_publication_key rotate_keys create_api_client
rotate-IsRotated now client_id key_id agent_id secret d d' k h =
    elim (Option-cases (find (λ (c : ApiClient). c.name == legacy_name agent_id) d.clients)) [
      | inl n ↦
          let made : ApiClient = record {
            id = client_id;
            name = legacy_name agent_id;
            owner = "legacy-publication";
            status = ClientStatus.active;
            rate_limit_per_minute = 60;
          } in
          let is_key : k ≡ new_key key_id client_id "legacy-publication-key" secret none =
            ground (arith, n, h) in
          let cs : d'.clients ≡ d.clients ++ made ∷ [] = ground (arith, n, h) in
          record {
            rows = ground (arith, n, h);
            hashed = ap (λ (j : ApiKey). j.key_hash) is_key;
            usable = ap (λ (j : ApiKey). j.status) is_key;
            lasting = ap (λ (j : ApiKey). j.expires_at) is_key;
            client =
                subst (λ i. HasClient i d'.clients) (sym (ap (λ (j : ApiKey). j.client_id) is_key))
                  (subst (HasClient client_id) (sym cs)
                    (find_last (is_active_client client_id) d.clients made (ground arith)));
          }
      | inr (c, n) ↦ elim (Bool-cases (c.status == ClientStatus.active)) [
        | inr f ↦ absurd (ground (arith, n, f, h))
        | inl f ↦
            let is_key : k ≡ new_key key_id c.id "legacy-publication-key" secret none =
              ground (arith, n, f, h) in
            let cs : d'.clients ≡ d.clients = ground (arith, n, f, h) in
            record {
              rows = ground (arith, n, f, h);
              hashed = ap (λ (j : ApiKey). j.key_hash) is_key;
              usable = ap (λ (j : ApiKey). j.status) is_key;
              lasting = ap (λ (j : ApiKey). j.expires_at) is_key;
              client =
                  subst (λ i. HasClient i d'.clients)
                    (sym (ap (λ (j : ApiKey). j.client_id) is_key))
                    (subst (HasClient c.id) (sym cs) (
                      find_other (λ (b : ApiClient). b.name == legacy_name agent_id)
                        (is_active_client c.id) d.clients c n (ground (arith, f))));
            }
      ]
    ]

-- A rotation leaves its new key as the only active one of its client: whatever text is presented
-- afterwards, a key of that client that opens is the new key.
pub rotate_shuts :
    (now client_id key_id later : ℕ) (agent_id hash : String) (secret : Secret) (d d' : Directory)
    (k j : ApiKey) (c : ApiClient)
    → rotate_legacy_publication_key now client_id key_id agent_id secret d ≡ ok (d', k)
    → authenticate_client_key later hash d' ≡ some (c, j)
    → j.client_id ≡ k.client_id
    → j ≡ k
unfolding authenticate_client_key
rotate_shuts now client_id key_id later agent_id hash secret d d' k j c h a e =
    let done = rotate-IsRotated now client_id key_id agent_id secret d d' k h in
    let only : All (IsOnly k.client_id k) d'.keys =
      subst (All (IsOnly k.client_id k)) (sym done.rows) (IsOnly-new now k.client_id k d.keys) in
    let (one, valid, _) =
      first_row_passes (IsOnly k.client_id k) (is_valid_key later hash)
        (λ i. is_active_client i.client_id) d'.clients d'.keys c j only a in
    one e (ground (arith, valid))

first_row_last :
    (p : ApiKey → Bool) (q : ApiKey → ApiClient → Bool) (cs : List ApiClient) (ks : List ApiKey)
    (k : ApiKey)
    → Refuses p ks
    → first_row p q cs (ks ++ k ∷ []) ≡ first_row p q cs (k ∷ [])
unfolding first_row
first_row_last p q cs [] k h = refl
first_row_last p q cs (j ∷ ks) k h = ground (arith, h.0, first_row_last p q cs ks k h.1)

revoked-Refuses :
    (now client_id later : ℕ) (hash : String) (ks : List ApiKey)
    → All (λ (j : ApiKey). (j.key_hash == hash) ≡ false) ks
    → Refuses (is_valid_key later hash) (revoke_active now client_id ks)
unfolding revoke_active
revoked-Refuses now client_id later hash [] h = tt
revoked-Refuses now client_id later hash (k ∷ ks) h =
    (ground (arith, h.0), revoked-Refuses now client_id later hash ks h.1)

-- A rotation whose new digest is no other key's gives a text that opens: presented at any later
-- time it is found to be the new key, of an active client.
pub rotate_opens :
    (now client_id key_id later : ℕ) (agent_id : String) (secret : Secret) (d d' : Directory)
    (k : ApiKey)
    → All (λ (j : ApiKey). (j.key_hash == secret.key_hash) ≡ false) d.keys
    → rotate_legacy_publication_key now client_id key_id agent_id secret d ≡ ok (d', k)
    → (c : ApiClient) × (authenticate_client_key later secret.key_hash d' ≡ some (c, k))
      × (c.id ≡ k.client_id)
unfolding authenticate_client_key first_row
rotate_opens now client_id key_id later agent_id secret d d' k fresh h =
    let done = rotate-IsRotated now client_id key_id agent_id secret d d' k h in
    let (b, found, active) = done.client in
    let p = is_valid_key later secret.key_hash in
    let q : ApiKey → ApiClient → Bool = λ i. is_active_client i.client_id in
    let opens : p k ≡ true = ground (arith, done.hashed, done.usable, done.lasting) in
    (
      b,
      ap (first_row p q d'.clients) done.rows
          ∙ first_row_last p q d'.clients (revoke_active now k.client_id d.keys) k
              (revoked-Refuses now k.client_id later secret.key_hash d.keys fresh)
          ∙ ground (arith, opens, found),
      ground (arith, active),
    )
