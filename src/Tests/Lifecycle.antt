-- ===== src/Tests/Lifecycle.antt =====
-- An Agent with a published version and a candidate for the next one.
use hermes_agent_platform.Base.{
  ℕ, zero, suc, sym, ap, ◌∙◌, ◌≡◌, refl, ◌≢◌, ◌⊎◌, ◌↔◌, ◌<◌, Bool, true, false, none, some, [], ◌∷◌,
  String, length, ◌∈◌, string_eq, nat_eq,
}
use Prim.Native.String.{◌∷◌ as push, [] as nothing}
use Prim.Native.Char.{nul}
use hermes_agent_platform.Base.Outcome.{ok}
use hermes_agent_platform.Versions.{
  active, archived, release_candidate, hermes, VersionStatus, AgentStatus, ContractStatus,
  ResponseMode, Snapshot, Agent, AgentVersion, Registry, transition_agent, transition_agent_version,
  is_editable, agent_status_eq, version_status_eq,
}
use hermes_agent_platform.Versions.Restore.{Calls, missing_from, restore_agent_version}
use hermes_agent_platform.Versions.Snapshots.{build_agent_snapshot}
use hermes_agent_platform.Versions.RoundTrip.{
  IsComplete, configured_as, restore-build_agent_snapshot,
}
use hermes_agent_platform.Versions.Publish.{publish_agent, rollback_agent_version}
use hermes_agent_platform.Versions.Published.{IsLive, publish_agent-IsLive}
use hermes_agent_platform.Versions.Naming.{
  version_names, next_agent_version, next_agent_version_lem,
}
use hermes_agent_platform.Versions.Transitions.{transition_agent_lem}

abbrev snapshot : Snapshot
snapshot = record {
  format_version = 1;
  role = some "writer";
  system_prompt = some "write";
  prompt_template = some "{input}";
  model_name = some "model";
  model_adapter = some "adapter";
  model_settings = some "{}";
  skill_ids = "search" ∷ [];
  mcp_ids = [];
  schema_version = some "v1";
  input_schema = some "{}";
  output_schema = some "{}";
  api_version = some "v1";
  response_mode = some ResponseMode.sync;
  runtime_type = some hermes;
  runtime_id = none;
  runtime_config = none;
  capability_profile = none;
  resolution_digest = none;
}

abbrev version_at : ℕ → String → VersionStatus → AgentVersion
version_at id name status = record {
  id = id;
  agent_id = "writer";
  version = name;
  status = status;
  snapshot = snapshot;
  snapshot_format_version = 1;
  resolution_digest = none;
  description = none;
  published_at = none;
  deprecated_at = none;
  updated_at = 10;
}

abbrev writer : Agent
writer = record {
  id = "writer";
  status = active;
  api_enabled = true;
  current_version_id = some 2;
  role = "writer";
  system_prompt = "write";
  prompt_template = "{input}";
  model = "model";
  model_adapter = "adapter";
  model_settings = "{}";
  input_schema = "{}";
  output_schema = "{}";
  response_mode = ResponseMode.sync;
  runtime_type = hermes;
  runtime_id = none;
  runtime_config = "{}";
  capability_profile = "{}";
}

abbrev old : AgentVersion
old = version_at 1 "v1" VersionStatus.deprecated

abbrev served : AgentVersion
served = version_at 2 "v2" VersionStatus.published

abbrev candidate : AgentVersion
candidate = version_at 3 "v4" release_candidate

abbrev registry : Registry
registry = record {
  agent = writer;
  versions = old ∷ served ∷ candidate ∷ [];
  schemas =
      record {
        id = 1;
        agent_id = "writer";
        version = "v1";
        status = ContractStatus.published;
        input_schema = "{}";
        output_schema = "{}";
        published_at = some 5;
      }
      ∷ [];
  apis = [];
  publication = none;
  skills = "search" ∷ [];
  mcp_servers = [];
  agent_skill = "search" ∷ [];
  agent_mcp = [];
}

abbrev calls : Calls
calls = record { strip = λ s. s; normalize_profile = λ t p. some p; new_id = 2 }

abbrev deprecated_at_100 : AgentVersion
deprecated_at_100 = record served { status = VersionStatus.deprecated; deprecated_at = some 100 }

abbrev after_rollback : Registry
after_rollback = record registry {
  agent = record writer { current_version_id = some 1 };
  versions =
      record old { status = VersionStatus.published; updated_at = 100; published_at = some 100 }
      ∷ deprecated_at_100
      ∷ candidate
      ∷ [];
  apis =
      record {
        agent_id = "writer";
        api_version = "v1";
        schema_version_id = 1;
        status = ContractStatus.published;
        published_at = some 100;
      }
      ∷ [];
  publication = some ContractStatus.published;
  agent_skill = "search" ∷ [];
}

rolled_back : rollback_agent_version calls 100 old registry ≡ ok after_rollback
unfolding rollback_agent_version version_status_eq
    hermes_agent_platform.Versions.Restore.restore_agent_version string_eq nat_eq
rolled_back = refl

abbrev after_publication : Registry
after_publication = record after_rollback {
  agent = record writer { current_version_id = some 3 };
  versions =
      old
      ∷ deprecated_at_100
      ∷ record candidate {
        status = VersionStatus.published;
        updated_at = 100;
        published_at = some 100;
      }
      ∷ [];
}

candidate_published : publish_agent calls 100 candidate registry ≡ ok after_publication
unfolding publish_agent version_status_eq string_eq
    hermes_agent_platform.Versions.Restore.restore_agent_version nat_eq
candidate_published = refl

publish_agent-IsLive_example :
    (candidate.status ≡ release_candidate)
    × (after_publication.publication ≡ some ContractStatus.published)
    × IsLive candidate registry after_publication
publish_agent-IsLive_example =
    publish_agent-IsLive calls 100 candidate registry after_publication candidate_published

abbrev archived_writer : Agent
archived_writer = record writer { status = archived; api_enabled = false }

writer_archived : transition_agent archived writer ≡ ok archived_writer
unfolding transition_agent agent_status_eq
writer_archived = refl

transition_agent_lem_example :
    ((writer.status ≢ archived) ⊎ (archived_writer.status ≡ archived))
    × ((archived_writer.api_enabled ≡ true)
        ↔ ((archived_writer.status ≡ active) × (archived_writer.current_version_id ≢ none)))
    × (archived_writer ≡ record writer {
      status = archived_writer.status;
      api_enabled = archived_writer.api_enabled;
    })
transition_agent_lem_example = transition_agent_lem archived writer archived_writer writer_archived

abbrev all_valid : Snapshot → Bool
all_valid s = true

abbrev served_again : AgentVersion
served_again = record served { updated_at = 100 }

abbrev back_to_testing : AgentVersion
back_to_testing = record candidate { status = VersionStatus.testing; updated_at = 100 }

candidate_returned :
    transition_agent_version 100 VersionStatus.testing candidate ≡ ok back_to_testing
unfolding transition_agent_version version_status_eq
candidate_returned = refl

-- A number in tallies: distinct numbers have distinct texts.
abbrev tally : ℕ → String
tally zero = nothing
tally (suc n) = push nul (tally n)

abbrev strokes : String → ℕ
strokes nothing = 0
strokes (push c s) = suc (strokes s)

strokes-tally : (n : ℕ) → strokes (tally n) ≡ n
strokes-tally zero = refl
strokes-tally (suc n) = ap suc (strokes-tally n)

tally_distinct : (m n : ℕ) → tally m ≡ tally n → m ≡ n
tally_distinct m n h = sym (strokes-tally m) ∙ ap strokes h ∙ strokes-tally n

next_agent_version_lem_example :
    (k : ℕ) × (next_agent_version tally "writer" registry.versions ≡ some (tally k))
    × (tally k ∈ version_names "writer" registry.versions ≡ false)
    × (length (version_names "writer" registry.versions) < k)
next_agent_version_lem_example =
    next_agent_version_lem tally tally_distinct "writer" registry.versions

-- The writer, and its registry after someone changed its role and its model.
abbrev changed : Registry
changed = record registry {
  agent = record writer { role = "editor"; model = "other" };
  agent_skill = [];
}

abbrev saved : AgentVersion
saved = record old { snapshot = build_agent_snapshot registry }

search_there : missing_from changed.skills registry.agent_skill ≡ []
unfolding string_eq
search_there = refl

named : IsComplete writer
unfolding string_eq
named = (refl, refl, refl, refl, refl)

restore-build_agent_snapshot_example :
    (r' : Registry) × (restore_agent_version calls 100 false saved changed ≡ ok r')
    × (r'.agent ≡ configured_as registry changed.agent)
    × (r'.agent_skill ≡ "search" ∷ [])
    × (r'.agent_mcp ≡ [])
restore-build_agent_snapshot_example =
    restore-build_agent_snapshot calls 100 false saved registry changed refl named refl search_there
      refl
