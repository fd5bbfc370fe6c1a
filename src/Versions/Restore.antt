-- ===== src/Versions/Restore.antt =====
-- `restore_agent_version` of backend/app/repositories/production.py.
use hermes_agent_platform.Base.{
  ℕ, Bool, not, ◌&&◌, ◌||◌, Option, none, some, List, [], ◌∷◌, String, ◌==◌, ◌∈◌, if◌then◌else◌,
  find, filter, is_empty, string_eq, nat_eq,
}
use hermes_agent_platform.Base.Outcome.{Outcome, ok, raised, ◌>>=◌, ◌>>◌, raise_if}
use hermes_agent_platform.Versions.{
  ContractStatus, Snapshot, Agent, RuntimeType, AgentVersion, AgentSchemaVersion, AgentApiVersion,
  Registry, LifecycleError, dependencies_missing, invalid_snapshot,
}

-- What the code calls: `str.strip`, `normalize_capability_profile` on the text of a profile (`none`
-- where it raises), and the id that the database hands out for a new schema version.
pub record Calls : Type 0 where
  pub strip : String → String
  pub normalize_profile : RuntimeType → String → Option String
  pub new_id : ℕ

-- `str(x or old)`
abbrev pub or_old : Option String → String → String
or_old none old = old
or_old (some x) old = if x == "" then old else x

abbrev pub or_else {ℓ} : {A : Type ℓ} → Option A → A → A
or_else none a = a
or_else (some x) a = x

abbrev pub restored_runtime : Snapshot → Agent → RuntimeType
restored_runtime x a = or_else x.runtime_type a.runtime_type

-- The capability profile that `restore_agent_version` gives the Agent.
unfoldable pub restored_profile : Calls → Snapshot → Agent → Outcome LifecycleError String
restored_profile c x a = elim x.capability_profile [
  | none ↦ ok a.capability_profile
  | some p ↦ elim (c.normalize_profile (restored_runtime x a) p) [
    | none ↦ raised invalid_snapshot
    | some q ↦ ok q
  ]
]

abbrev pub restored_agent : Snapshot → String → Agent → Agent
restored_agent x profile a = record a {
  role = or_old x.role a.role;
  system_prompt = or_old x.system_prompt a.system_prompt;
  prompt_template = or_old x.prompt_template a.prompt_template;
  model = or_old x.model_name a.model;
  model_adapter = or_old x.model_adapter a.model_adapter;
  model_settings = or_else x.model_settings "{}";
  input_schema = or_else x.input_schema "{}";
  output_schema = or_else x.output_schema "{}";
  response_mode = or_else x.response_mode a.response_mode;
  runtime_type = restored_runtime x a;
  runtime_id = or_else x.runtime_id a.runtime_id;
  runtime_config = or_else x.runtime_config a.runtime_config;
  capability_profile = profile;
}

-- `published_at`, set where it is missing
abbrev pub first_time : Option ℕ → ℕ → Option ℕ
first_time none now = some now
first_time (some t) now = some t

abbrev pub has_version : String → String → AgentSchemaVersion → Bool
has_version agent_id version s = s.agent_id == agent_id && s.version == version

-- The schema version of a snapshot after the restore.
abbrev pub restored_schema :
    Calls → ℕ → Bool → Agent → String → Option AgentSchemaVersion → AgentSchemaVersion
restored_schema c now publish a version none = record {
  id = c.new_id;
  agent_id = a.id;
  version = version;
  status = if publish then ContractStatus.published else ContractStatus.testing;
  input_schema = a.input_schema;
  output_schema = a.output_schema;
  published_at = if publish then some now else none;
}
restored_schema c now publish a version (some s) = record s {
  input_schema = a.input_schema;
  output_schema = a.output_schema;
  status = if publish then ContractStatus.published else ContractStatus.testing;
  published_at = if publish then first_time s.published_at now else s.published_at;
}

unfoldable pub put_schema : AgentSchemaVersion → List AgentSchemaVersion → List AgentSchemaVersion
put_schema s [] = s ∷ []
put_schema s (x ∷ xs) = let rest = put_schema s xs in if x.id == s.id then s ∷ xs else x ∷ rest

-- The API version `name` bound to a schema and published, added where there is none.
unfoldable pub bind_api : ℕ → String → String → ℕ → List AgentApiVersion → List AgentApiVersion
bind_api now agent_id name schema_id [] =
    record {
      agent_id = agent_id;
      api_version = name;
      schema_version_id = schema_id;
      status = ContractStatus.published;
      published_at = some now;
    }
    ∷ []
bind_api now agent_id name schema_id (x ∷ xs) =
    let rest = bind_api now agent_id name schema_id xs in
    if x.agent_id == agent_id && x.api_version == name
    then record x {
      schema_version_id = schema_id;
      status = ContractStatus.published;
      published_at = first_time x.published_at now;
    }
      ∷ xs
    else x ∷ rest

abbrev pub missing_from : List String → List String → List String
missing_from known ids = filter (λ i. not (i ∈ known)) ids

-- The schema and API rows after the restore.
unfoldable pub restore_contract : Calls → ℕ → Bool → Snapshot → Agent → Registry → Registry
unfolding put_schema bind_api
restore_contract c now publish x a r =
    let version = c.strip (or_else x.schema_version "") in
    let schema =
      restored_schema c now publish a version (find (has_version a.id version) r.schemas) in
    if version == "" then r else record r {
      schemas = put_schema schema r.schemas;
      apis =
          if publish
          then bind_api now a.id (or_old x.api_version "v1") schema.id r.apis
          else r.apis;
    }

unfoldable pub restore_agent_version :
    Calls → ℕ → Bool → AgentVersion → Registry → Outcome LifecycleError Registry
unfolding restored_profile restore_contract
restore_agent_version c now publish v r = do
  let x = v.snapshot
  let missing_skills = missing_from r.skills x.skill_ids
  let missing_mcps = missing_from r.mcp_servers x.mcp_ids
  raise_if (not (is_empty missing_skills) || not (is_empty missing_mcps))
      (dependencies_missing missing_skills missing_mcps)
  profile ← restored_profile c x r.agent
  let a = restored_agent x profile r.agent
  ok (
      restore_contract c now publish x a
        (record r { agent = a; agent_skill = x.skill_ids; agent_mcp = x.mcp_ids }))
