-- ===== src/Versions/Snapshots.antt =====
-- `build_agent_snapshot` of backend/app/repositories/production.py. The rows of a table stand in the
-- order of their creation, and those of the Agent's Skills and MCP servers in that of their ids.
use hermes_agent_platform.Base.{
  ℕ, Bool, true, false, not, ◌&&◌, ◌||◌, Option, none, some, List, [], ◌∷◌, String, ◌==◌,
  if◌then◌else◌, find, filter, ltb, nat_eq, string_eq,
}
use hermes_agent_platform.Versions.{ContractStatus, Snapshot, Agent, AgentSchemaVersion, Registry}
use hermes_agent_platform.Versions.Publish.{has_api}

abbrev pub is_published : ContractStatus → Bool
is_published ContractStatus.published = true
is_published _ = false

-- `published_at.desc().nullslast()`: whether the first is strictly before the second.
abbrev pub published_later : Option ℕ → Option ℕ → Bool
published_later none t = false
published_later (some s) none = true
published_later (some s) (some t) = ltb t s

-- Whether `x`, created before `y`, still comes first in the order of the query.
abbrev pub goes_first : AgentSchemaVersion → AgentSchemaVersion → Bool
goes_first x y =
    if is_published x.status
    then not (is_published y.status) || published_later x.published_at y.published_at
    else not (is_published y.status) && published_later x.published_at y.published_at

-- The first row in the order of the query.
unfoldable pub first_schema : List AgentSchemaVersion → Option AgentSchemaVersion
first_schema [] = none
first_schema (x ∷ xs) = elim (first_schema xs) [
  | none ↦ some x
  | some y ↦ if goes_first x y then some x else some y
]

-- The schema of the API version `v1`, or else the first of the query.
unfoldable pub snapshot_schema : Registry → Option AgentSchemaVersion
unfolding first_schema
snapshot_schema r =
    let rows = first_schema (filter (λ s. s.agent_id == r.agent.id) r.schemas) in
    elim (find (has_api r.agent.id "v1") r.apis) [
      | none ↦ rows
      | some b ↦ elim (find (λ (s : AgentSchemaVersion). s.id == b.schema_version_id) r.schemas) [
        | none ↦ rows
        | some s ↦ some s
      ]
    ]

abbrev pub input_of : Option AgentSchemaVersion → Agent → String
input_of none a = a.input_schema
input_of (some s) a = s.input_schema

abbrev pub output_of : Option AgentSchemaVersion → Agent → String
output_of none a = a.output_schema
output_of (some s) a = s.output_schema

abbrev pub version_of : Option AgentSchemaVersion → Option String
version_of none = none
version_of (some s) = some s.version

unfoldable pub build_agent_snapshot : Registry → Snapshot
unfolding snapshot_schema
build_agent_snapshot r =
    let a = r.agent in
    let schema = snapshot_schema r in
    record {
      format_version = 1;
      role = some a.role;
      system_prompt = some a.system_prompt;
      prompt_template = some a.prompt_template;
      model_name = some a.model;
      model_adapter = some a.model_adapter;
      model_settings = some a.model_settings;
      skill_ids = r.agent_skill;
      mcp_ids = r.agent_mcp;
      schema_version = version_of schema;
      input_schema = some (input_of schema a);
      output_schema = some (output_of schema a);
      api_version = some "v1";
      response_mode = some a.response_mode;
      runtime_type = some a.runtime_type;
      runtime_id = some a.runtime_id;
      runtime_config = some a.runtime_config;
      capability_profile = some a.capability_profile;
      resolution_digest = none;
    }
