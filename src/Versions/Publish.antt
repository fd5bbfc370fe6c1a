-- ===== src/Versions/Publish.antt =====
-- `publish_agent_version`, `publish_agent` and `rollback_agent_version` of
-- backend/app/repositories/production.py.
use hermes_agent_platform.Base.{
  ℕ, Bool, true, false, not, ◌&&◌, Option, none, some, List, map, String, ◌==◌, if◌then◌else◌, find,
  string_eq, nat_eq,
}
use hermes_agent_platform.Base.Outcome.{Outcome, ok, raised, ◌>>=◌, ◌>>◌, raise_if}
use hermes_agent_platform.Versions.{
  ContractStatus, VersionStatus, release_candidate, Agent, active, AgentVersion, AgentSchemaVersion,
  AgentApiVersion, Registry, LifecycleError, not_release_candidate, not_deprecated, schema_missing,
  schema_unavailable, api_unavailable, version_status_eq,
}
use hermes_agent_platform.Versions.Restore.{
  Calls, or_old, first_time, put_schema, bind_api, restore_agent_version, has_version,
}

-- The update that deprecates what else is published of an Agent.
unfoldable pub deprecate_others : ℕ → String → ℕ → List AgentVersion → List AgentVersion
deprecate_others now agent_id keep = map (λ v.
    if v.agent_id == agent_id && not (v.id == keep) && v.status == VersionStatus.published
    then record v { status = VersionStatus.deprecated; deprecated_at = some now }
    else v)

-- The change of the version's own row, found by its id.
unfoldable pub change_version :
    (AgentVersion → AgentVersion) → ℕ → List AgentVersion → List AgentVersion
change_version f i = map (λ v. if v.id == i then f v else v)

abbrev pub published_version : ℕ → AgentVersion → AgentVersion
published_version now v = record v {
  status = VersionStatus.published;
  published_at = some now;
  deprecated_at = none;
  updated_at = now;
}

abbrev pub live_agent : ℕ → Agent → Agent
live_agent version_id a = record a {
  current_version_id = some version_id;
  status = active;
  api_enabled = true;
}

unfoldable pub publish_agent_version : ℕ → AgentVersion → Registry → Registry
unfolding deprecate_others change_version
publish_agent_version now v r = record r {
  versions =
      change_version (published_version now) v.id (deprecate_others now r.agent.id v.id r.versions);
  agent = live_agent v.id r.agent;
}

-- The schema of the snapshot after `publish_agent` looked at its status.
unfoldable pub publish_schema : ℕ → AgentSchemaVersion → Outcome LifecycleError AgentSchemaVersion
publish_schema now s = elim s.status [
  | ContractStatus.disabled ↦ raised schema_unavailable
  | ContractStatus.published ↦ ok s
  | ContractStatus.deprecated ↦ ok s
  | _ ↦
      ok (record s {
        status = ContractStatus.published;
        published_at = first_time s.published_at now;
      })
]

abbrev pub is_disabled : ContractStatus → Bool
is_disabled ContractStatus.disabled = true
is_disabled _ = false

abbrev pub has_api : String → String → AgentApiVersion → Bool
has_api agent_id name x = x.agent_id == agent_id && x.api_version == name

abbrev pub api_disabled : Option AgentApiVersion → Bool
api_disabled none = false
api_disabled (some x) = is_disabled x.status

-- The schema version that a snapshot names.
unfoldable pub find_schema : AgentVersion → Registry → Outcome LifecycleError AgentSchemaVersion
find_schema v r =
    elim (find (has_version r.agent.id (or_old v.snapshot.schema_version "v1")) r.schemas) [
      | none ↦ raised schema_missing
      | some s ↦ ok s
    ]

-- The rows before the snapshot is restored: the contract published, other versions deprecated.
unfoldable pub publish_contract : ℕ → AgentVersion → AgentSchemaVersion → Registry → Registry
unfolding put_schema bind_api deprecate_others
publish_contract now v schema r = record r {
  schemas = put_schema schema r.schemas;
  apis = bind_api now r.agent.id (or_old v.snapshot.api_version "v1") schema.id r.apis;
  publication = some ContractStatus.published;
  versions = deprecate_others now r.agent.id v.id r.versions;
}

unfoldable pub publish_agent : Calls → ℕ → AgentVersion → Registry → Outcome LifecycleError Registry
unfolding publish_schema find_schema publish_contract change_version
publish_agent c now v r = do
  raise_if (not (v.status == release_candidate)) not_release_candidate
  found ← find_schema v r
  schema ← publish_schema now found
  raise_if (api_disabled (find (has_api r.agent.id (or_old v.snapshot.api_version "v1")) r.apis))
      api_unavailable
  restored ← restore_agent_version c now true v (publish_contract now v schema r)
  ok (record restored {
    versions = change_version (published_version now) v.id restored.versions;
    agent = live_agent v.id restored.agent;
  })

-- A rolled back version keeps the time when it was first published.
abbrev pub republished_version : ℕ → AgentVersion → AgentVersion
republished_version now v = record v {
  status = VersionStatus.published;
  deprecated_at = none;
  updated_at = now;
  published_at = first_time v.published_at now;
}

unfoldable pub rollback_agent_version :
    Calls → ℕ → AgentVersion → Registry → Outcome LifecycleError Registry
unfolding deprecate_others change_version
rollback_agent_version c now v r = do
  raise_if (not (v.status == VersionStatus.deprecated)) not_deprecated
  restored ← restore_agent_version c now true v r
  ok (record restored {
    versions =
        change_version (republished_version now) v.id
          (deprecate_others now restored.agent.id v.id restored.versions);
    agent = live_agent v.id restored.agent;
    publication = some ContractStatus.published;
  })
