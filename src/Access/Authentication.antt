-- ===== src/Access/Authentication.antt =====
-- Who gets in: `authenticate_client_key`, `authenticate_api_key` and `has_invoke_permission` of
-- backend/app/repositories/production.py.
use hermes_agent_platform.Base.{
  ℕ, Bool, true, ◌&&◌, Option, none, some, List, [], ◌∷◌, map, String, ◌==◌, if◌then◌else◌, find,
  any, ltb, nat_eq, string_eq,
}
use hermes_agent_platform.Versions.{Agent, AgentStatus, agent_status_eq, is_some}
use hermes_agent_platform.Access.{
  key_status_eq, client_status_eq, ApiClient, ApiKey, ClientStatus, Directory, KeyStatus, binds,
}

-- `APIKey.expires_at.is_(None) | (APIKey.expires_at > now)`
abbrev pub unexpired : ℕ → Option ℕ → Bool
unexpired now none = true
unexpired now (some t) = ltb now t

abbrev pub is_valid_key : ℕ → String → ApiKey → Bool
is_valid_key now hash k =
    k.key_hash == hash && k.status == KeyStatus.active && unexpired now k.expires_at

abbrev pub is_active_client : ℕ → ApiClient → Bool
is_active_client id c = c.id == id && c.status == ClientStatus.active

abbrev pub is_invokable : String → Agent → Bool
is_invokable agent_id a =
    a.id == agent_id
    && a.status == AgentStatus.active
    && is_some a.current_version_id
    && a.api_enabled

-- `has_invoke_permission`
unfoldable pub has_invoke_permission : ℕ → String → Directory → Bool
has_invoke_permission client_id agent_id d =
    any (λ b. binds client_id agent_id b && b.permission == "invoke") d.bindings
    && any (is_invokable agent_id) d.agents

-- The first row of the join, whose filter on a key and a client is the argument.
unfoldable pub first_row :
    (ApiKey → Bool)
    → (ApiKey → ApiClient → Bool)
    → List ApiClient
    → List ApiKey
    → Option (ApiClient × ApiKey)
first_row p q cs [] = none
first_row p q cs (k ∷ ks) =
    let rest = first_row p q cs ks in
    if p k then elim (find (q k) cs) [ some c ↦ some (c, k) | none ↦ rest ] else rest

-- `authenticate_client_key`
unfoldable pub authenticate_client_key : ℕ → String → Directory → Option (ApiClient × ApiKey)
unfolding first_row
authenticate_client_key now hash d =
    first_row (is_valid_key now hash) (λ k. is_active_client k.client_id) d.clients d.keys

-- `authenticate_api_key`: the row, and the directory after the time of use is written.
unfoldable pub authenticate_api_key :
    ℕ → String → String → Directory → Option (ApiClient × ApiKey) × Directory
unfolding first_row has_invoke_permission
authenticate_api_key now agent_id hash d =
    let row =
      first_row (λ k. is_valid_key now hash k && has_invoke_permission k.client_id agent_id d)
        (λ k. is_active_client k.client_id) d.clients d.keys in
    elim row [
      | none ↦ (none, d)
      | some (c, k) ↦ (
        some (c, record k { last_used_at = some now }),
        record d {
          keys =
              map (λ (j : ApiKey). if j.id == k.id then record j { last_used_at = some now } else j)
                d.keys;
        },
      )
    ]
