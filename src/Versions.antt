-- ===== src/Versions.antt =====
-- The life of an Agent and its versions: backend/app/repositories/production.py, from
-- `transition_agent` to `restore_agent_version`. Columns that none of these operations reads are
-- left out, and a JSON object that is only stored is its text. An exception ends the transaction,
-- so what was changed before it is not kept.
pub mod Restore
pub mod Publish
pub mod Published
pub mod Naming
pub mod Transitions
pub mod Snapshots
pub mod RoundTrip
use hermes_agent_platform.Base.{
  ℕ, ◌+◌, Bool, true, false, not, ◌&&◌, ◌||◌, Option, none, some, List, [], ◌∷◌, ◌++◌, map, String,
  ◌==◌, ◌∈◌, if◌then◌else◌, find, filter, any, length, nat_eq, string_eq, Eq,
}
use hermes_agent_platform.Base.Outcome.{Outcome, ok, raised, ◌>>=◌, ◌>>◌, raise_if}

pub data AgentStatus : Type 0 where
  active inactive archived : AgentStatus

AgentStatus-discrete : Discrete AgentStatus
AgentStatus-discrete = hlevel

instance unfoldable pub agent_status_eq : Eq AgentStatus
unfolding AgentStatus-discrete
agent_status_eq = record { dec = AgentStatus-discrete }

pub data VersionStatus : Type 0 where
  development testing release_candidate published deprecated : VersionStatus

VersionStatus-discrete : Discrete VersionStatus
VersionStatus-discrete = hlevel

instance unfoldable pub version_status_eq : Eq VersionStatus
unfolding VersionStatus-discrete
version_status_eq = record { dec = VersionStatus-discrete }

-- The statuses of a schema version, of an API version and of a publication.
pub data ContractStatus : Type 0 where
  draft testing published deprecated disabled : ContractStatus

pub data ResponseMode : Type 0 where
  sync stream : ResponseMode

pub data RuntimeType : Type 0 where
  hermes pi deepseek : RuntimeType

-- A snapshot, with `none` for a key that is missing or holds what the code does not take.
pub record Snapshot : Type 0 where
  pub format_version : ℕ
  pub role : Option String
  pub system_prompt : Option String
  pub prompt_template : Option String
  pub model_name : Option String
  pub model_adapter : Option String
  pub model_settings : Option String
  pub skill_ids : List String
  pub mcp_ids : List String
  pub schema_version : Option String
  pub input_schema : Option String
  pub output_schema : Option String
  pub api_version : Option String
  pub response_mode : Option ResponseMode
  pub runtime_type : Option RuntimeType
  pub runtime_id : Option (Option ℕ)
  pub runtime_config : Option String
  pub capability_profile : Option String
  pub resolution_digest : Option String

pub record Agent : Type 0 where
  pub id : String
  pub status : AgentStatus
  pub api_enabled : Bool
  pub current_version_id : Option ℕ
  pub role : String
  pub system_prompt : String
  pub prompt_template : String
  pub model : String
  pub model_adapter : String
  pub model_settings : String
  pub input_schema : String
  pub output_schema : String
  pub response_mode : ResponseMode
  pub runtime_type : RuntimeType
  pub runtime_id : Option ℕ
  pub runtime_config : String
  pub capability_profile : String

pub record AgentVersion : Type 0 where
  pub id : ℕ
  pub agent_id : String
  pub version : String
  pub status : VersionStatus
  pub snapshot : Snapshot
  pub snapshot_format_version : ℕ
  pub resolution_digest : Option String
  pub description : Option String
  pub published_at : Option ℕ
  pub deprecated_at : Option ℕ
  pub updated_at : ℕ

pub record AgentSchemaVersion : Type 0 where
  pub id : ℕ
  pub agent_id : String
  pub version : String
  pub status : ContractStatus
  pub input_schema : String
  pub output_schema : String
  pub published_at : Option ℕ

pub record AgentApiVersion : Type 0 where
  pub agent_id : String
  pub api_version : String
  pub schema_version_id : ℕ
  pub status : ContractStatus
  pub published_at : Option ℕ

-- The rows that concern one Agent, and the ids of the Skills and MCP servers that exist. The
-- versions of other Agents stand in the same table.
pub record Registry : Type 0 where
  pub agent : Agent
  pub versions : List AgentVersion
  pub schemas : List AgentSchemaVersion
  pub apis : List AgentApiVersion
  pub publication : Option ContractStatus
  pub skills : List String
  pub mcp_servers : List String
  pub agent_skill : List String
  pub agent_mcp : List String

pub data LifecycleError : Type 0 where
  invalid_agent_transition : AgentStatus → AgentStatus → LifecycleError
  invalid_version_transition : VersionStatus → VersionStatus → LifecycleError
  immutable_version not_release_candidate not_deprecated : LifecycleError
  schema_missing schema_unavailable api_unavailable : LifecycleError
  dependencies_missing : List String → List String → LifecycleError
  invalid_snapshot : LifecycleError

abbrev pub is_some {ℓ} : {A : Type ℓ} → Option A → Bool
is_some none = false
is_some (some a) = true

-- `transitions` of `transition_agent`
abbrev pub agent_transitions : AgentStatus → List AgentStatus
agent_transitions active = inactive ∷ archived ∷ []
agent_transitions inactive = active ∷ archived ∷ []
agent_transitions archived = []

unfoldable pub transition_agent : AgentStatus → Agent → Outcome LifecycleError Agent
transition_agent target a = do
  raise_if (not (target == a.status) && not (target ∈ agent_transitions a.status))
      (invalid_agent_transition a.status target)
  ok (record a { status = target; api_enabled = target == active && is_some a.current_version_id })

-- `transitions` of `transition_agent_version`
abbrev pub version_transitions : VersionStatus → List VersionStatus
version_transitions development = VersionStatus.testing ∷ []
version_transitions VersionStatus.testing = development ∷ release_candidate ∷ []
version_transitions release_candidate = VersionStatus.testing ∷ []
version_transitions VersionStatus.published = []
version_transitions VersionStatus.deprecated = []

unfoldable pub transition_agent_version :
    ℕ → VersionStatus → AgentVersion → Outcome LifecycleError AgentVersion
transition_agent_version now target v = do
  raise_if (not (target == v.status) && not (target ∈ version_transitions v.status))
      (invalid_version_transition v.status target)
  ok (record v { status = target; updated_at = now })

abbrev pub is_editable : VersionStatus → Bool
is_editable development = true
is_editable VersionStatus.testing = true
is_editable release_candidate = true
is_editable _ = false

-- `update_agent_version`; `valid` is `validate_agent_snapshot`.
unfoldable pub update_agent_version :
    (Snapshot → Bool)
    → ℕ
    → Option Snapshot
    → Option (Option String)
    → AgentVersion
    → Outcome LifecycleError AgentVersion
update_agent_version valid now snapshot description v = do
  raise_if (not (is_editable v.status)) immutable_version
  raise_if (elim snapshot [ none ↦ false | some s ↦ not (valid s) ]) invalid_snapshot
  let v' : AgentVersion = elim snapshot [
    | none ↦ v
    | some s ↦ record v {
      snapshot = s;
      snapshot_format_version = s.format_version;
      resolution_digest = s.resolution_digest;
    }
  ]
  let v'' : AgentVersion = elim description [ none ↦ v' | some d ↦ record v' { description = d } ]
  ok (record v'' { updated_at = now })
