-- ===== src/Access.antt =====
-- API clients, their keys, and which Agents they are bound to: backend/app/repositories/production.py,
-- from `create_api_client` to `unbind_agent`. The digest of a key and the random text of a
-- new one are arguments.
pub mod Authentication
pub mod Rotate
pub mod Keys
pub mod Rotation
pub mod Usage
pub mod Totals
pub mod RateLimit
pub mod Windows
use hermes_agent_platform.Base.{
  ℕ, ◌+◌, Bool, true, false, not, ◌&&◌, ◌||◌, Option, none, some, List, [], ◌∷◌, ◌++◌, map, String,
  ◌==◌, if◌then◌else◌, find, filter, any, ltb, nat_eq, string_eq, Eq,
}
use hermes_agent_platform.Base.Outcome.{Outcome, ok, raised}
use hermes_agent_platform.Versions.{
  Agent, AgentStatus, agent_status_eq, is_some, ContractStatus, AgentVersion,
}
use Prim.Native.String.{◌++◌ as ◌<>◌}

pub data ClientStatus : Type 0 where
  active suspended revoked : ClientStatus

ClientStatus-discrete : Discrete ClientStatus
ClientStatus-discrete = hlevel

instance unfoldable pub client_status_eq : Eq ClientStatus
unfolding ClientStatus-discrete
client_status_eq = record { dec = ClientStatus-discrete }

pub data KeyStatus : Type 0 where
  active revoked : KeyStatus

KeyStatus-discrete : Discrete KeyStatus
KeyStatus-discrete = hlevel

instance unfoldable pub key_status_eq : Eq KeyStatus
unfolding KeyStatus-discrete
key_status_eq = record { dec = KeyStatus-discrete }

pub record ApiClient : Type 0 where
  pub id : ℕ
  pub name : String
  pub owner : String
  pub status : ClientStatus
  pub rate_limit_per_minute : ℕ

pub record ApiKey : Type 0 where
  pub id : ℕ
  pub client_id : ℕ
  pub name : String
  pub key_hash : String
  pub prefix : String
  pub status : KeyStatus
  pub expires_at : Option ℕ
  pub last_used_at : Option ℕ
  pub revoked_at : Option ℕ

pub record AgentApiClient : Type 0 where
  pub client_id : ℕ
  pub agent_id : String
  pub permission : String

-- `AgentPublication`, as far as the rotation of a key writes it.
pub record Publication : Type 0 where
  pub agent_id : String
  pub status : ContractStatus
  pub api_key_hash : Option String
  pub api_key_prefix : Option String

-- The tables.
pub record Directory : Type 0 where
  pub clients : List ApiClient
  pub keys : List ApiKey
  pub bindings : List AgentApiClient
  pub agents : List Agent
  pub publications : List Publication

-- `create_api_client`
unfoldable pub create_api_client : ℕ → String → String → ℕ → Directory → Directory
create_api_client id name owner limit d = record d {
  clients =
      d.clients
      ++ record {
        id = id;
        name = name;
        owner = owner;
        status = ClientStatus.active;
        rate_limit_per_minute = limit;
      }
        ∷ [];
}

abbrev pub or_kept {ℓ} : {A : Type ℓ} → Option A → A → A
or_kept none a = a
or_kept (some b) a = b

-- `update_api_client`: a value of `None` is left alone.
unfoldable pub update_api_client :
    ℕ → Option String → Option String → Option ClientStatus → Option ℕ → Directory → Directory
update_api_client id name owner status limit d = record d {
  clients =
      map
        (λ (c : ApiClient).
          if c.id == id
          then record c {
            name = or_kept name c.name;
            owner = or_kept owner c.owner;
            status = or_kept status c.status;
            rate_limit_per_minute = or_kept limit c.rate_limit_per_minute;
          }
          else c)
        d.clients;
}

-- `delete_api_client`, whose keys and bindings go with it.
unfoldable pub delete_api_client : ℕ → Directory → Directory
delete_api_client id d = record d {
  clients = filter (λ (c : ApiClient). not (c.id == id)) d.clients;
  keys = filter (λ (k : ApiKey). not (k.client_id == id)) d.keys;
  bindings = filter (λ (b : AgentApiClient). not (b.client_id == id)) d.bindings;
}

-- A new key's text, digest and first twelve characters.
pub record Secret : Type 0 where
  pub key_hash : String
  pub prefix : String

abbrev pub new_key : ℕ → ℕ → String → Secret → Option ℕ → ApiKey
new_key id client_id name secret expires_at = record {
  id = id;
  client_id = client_id;
  name = name;
  key_hash = secret.key_hash;
  prefix = secret.prefix;
  status = KeyStatus.active;
  expires_at = expires_at;
  last_used_at = none;
  revoked_at = none;
}

-- `create_api_key`
unfoldable pub create_api_key : ℕ → ℕ → String → Secret → Option ℕ → Directory → Directory
create_api_key id client_id name secret expires_at d = record d {
  keys = d.keys ++ new_key id client_id name secret expires_at ∷ [];
}

abbrev pub revoked_key : ℕ → ApiKey → ApiKey
revoked_key now k = record k { status = KeyStatus.revoked; revoked_at = some now }

-- `revoke_api_key`
unfoldable pub revoke_api_key : ℕ → ℕ → Directory → Directory
revoke_api_key now id d = record d {
  keys = map (λ (k : ApiKey). if k.id == id then revoked_key now k else k) d.keys;
}

abbrev pub binds : ℕ → String → AgentApiClient → Bool
binds client_id agent_id b = b.client_id == client_id && b.agent_id == agent_id

-- `bind_agent`
unfoldable pub bind_agent : ℕ → String → String → List AgentApiClient → List AgentApiClient
bind_agent client_id agent_id permission [] =
    record { client_id = client_id; agent_id = agent_id; permission = permission } ∷ []
bind_agent client_id agent_id permission (b ∷ bs) =
    let rest = bind_agent client_id agent_id permission bs in
    if binds client_id agent_id b then record b { permission = permission } ∷ bs else b ∷ rest

-- `unbind_agent`, with whether a row was deleted.
unfoldable pub unbind_agent : ℕ → String → Directory → Directory × Bool
unbind_agent client_id agent_id d = (
  record d { bindings = filter (λ b. not (binds client_id agent_id b)) d.bindings },
  any (binds client_id agent_id) d.bindings,
)
