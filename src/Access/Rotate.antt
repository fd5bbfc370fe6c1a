-- ===== src/Access/Rotate.antt =====
-- The rotation of an Agent's key: `rotate_legacy_publication_key` of
-- backend/app/repositories/production.py.
use hermes_agent_platform.Base.{
  ℕ, ◌&&◌, none, some, List, [], ◌∷◌, ◌++◌, map, String, ◌==◌, if◌then◌else◌, find, nat_eq,
  string_eq,
}
use hermes_agent_platform.Base.Outcome.{Outcome, ok, raised}
use hermes_agent_platform.Versions.{agent_status_eq, ContractStatus}
use Prim.Native.String.{◌++◌ as ◌<>◌}
use hermes_agent_platform.Access.{
  key_status_eq, client_status_eq, ApiClient, ApiKey, ClientStatus, Directory, KeyStatus,
  Publication, Secret, bind_agent, create_api_client, new_key, revoked_key,
}

pub data RotateError : Type 0 where
  client_not_active : RotateError

abbrev pub legacy_name : String → String
legacy_name agent_id = "legacy-" <> agent_id

-- `update(APIKey)…values(status="revoked", revoked_at=now)`
unfoldable pub revoke_active : ℕ → ℕ → List ApiKey → List ApiKey
revoke_active now client_id = map (λ (k : ApiKey).
    if k.client_id == client_id && k.status == KeyStatus.active then revoked_key now k else k)

unfoldable pub put_publication : String → Secret → List Publication → List Publication
put_publication agent_id secret [] =
    record {
      agent_id = agent_id;
      status = ContractStatus.draft;
      api_key_hash = some secret.key_hash;
      api_key_prefix = some secret.prefix;
    }
    ∷ []
put_publication agent_id secret (p ∷ ps) =
    let rest = put_publication agent_id secret ps in
    if p.agent_id == agent_id
    then record p { api_key_hash = some secret.key_hash; api_key_prefix = some secret.prefix } ∷ ps
    else p ∷ rest

-- The part of `rotate_legacy_publication_key` after its client is there.
unfoldable pub rotate_keys : ℕ → ℕ → String → ℕ → Secret → Directory → Directory
unfolding bind_agent revoke_active put_publication
rotate_keys now key_id agent_id client_id secret d = record d {
  bindings = bind_agent client_id agent_id "invoke" d.bindings;
  keys =
      revoke_active now client_id d.keys
      ++ new_key key_id client_id "legacy-publication-key" secret none ∷ [];
  publications = put_publication agent_id secret d.publications;
}

-- `rotate_legacy_publication_key`, with the new key.
unfoldable pub rotate_legacy_publication_key :
    ℕ → ℕ → ℕ → String → Secret → Directory → Outcome RotateError (Directory × ApiKey)
unfolding rotate_keys create_api_client
rotate_legacy_publication_key now client_id key_id agent_id secret d =
    let key = λ (c : ℕ). new_key key_id c "legacy-publication-key" secret none in
    elim (find (λ (c : ApiClient). c.name == legacy_name agent_id) d.clients) [
      | none ↦ ok (
        rotate_keys now key_id agent_id client_id secret
            (create_api_client client_id (legacy_name agent_id) "legacy-publication" 60 d),
        key client_id,
      )
      | some c ↦
          if c.status == ClientStatus.active
          then ok (rotate_keys now key_id agent_id c.id secret d, key c.id)
          else raised client_not_active
    ]
