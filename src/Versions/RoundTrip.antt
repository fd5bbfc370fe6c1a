-- ===== src/Versions/RoundTrip.antt =====
-- A snapshot that was built from an Agent brings its configuration back when it is restored.
use hermes_agent_platform.Base.{ℕ, ◌≡◌, refl, ◌∙◌, Bool, false, some, [], ◌==◌, arith, string_eq}
use hermes_agent_platform.Base.Outcome.{ok}
use hermes_agent_platform.Versions.{Agent, Snapshot, AgentVersion, Registry}
use hermes_agent_platform.Versions.Restore.{
  Calls, missing_from, restored_profile, restored_agent, restore_contract, restore_agent_version,
}
use hermes_agent_platform.Versions.Snapshots.{
  snapshot_schema, input_of, output_of, build_agent_snapshot,
}

-- The texts that a restore would take from the Agent instead are not empty.
abbrev pub IsComplete : Agent → Type 0
IsComplete a =
    ((a.role == "") ≡ false)
    × ((a.system_prompt == "") ≡ false)
    × ((a.prompt_template == "") ≡ false)
    × ((a.model == "") ≡ false)
    × ((a.model_adapter == "") ≡ false)

-- The Agent with the configuration of another state of it, and the schemas of that state's contract.
abbrev pub configured_as : Registry → Agent → Agent
configured_as old b = record b {
  role = old.agent.role;
  system_prompt = old.agent.system_prompt;
  prompt_template = old.agent.prompt_template;
  model = old.agent.model;
  model_adapter = old.agent.model_adapter;
  model_settings = old.agent.model_settings;
  input_schema = input_of (snapshot_schema old) old.agent;
  output_schema = output_of (snapshot_schema old) old.agent;
  response_mode = old.agent.response_mode;
  runtime_type = old.agent.runtime_type;
  runtime_id = old.agent.runtime_id;
  runtime_config = old.agent.runtime_config;
  capability_profile = old.agent.capability_profile;
}

contract_keeps :
    (c : Calls) (now : ℕ) (publish : Bool) (x : Snapshot) (a : Agent) (r : Registry)
    → ((restore_contract c now publish x a r).agent ≡ r.agent)
      × ((restore_contract c now publish x a r).agent_skill ≡ r.agent_skill)
      × ((restore_contract c now publish x a r).agent_mcp ≡ r.agent_mcp)
unfolding restore_contract
contract_keeps c now publish x a r = (ground arith, ground arith, ground arith)

configured :
    (old : Registry) (b : Agent)
    → IsComplete old.agent
    → restored_agent (build_agent_snapshot old) old.agent.capability_profile b ≡ configured_as old b
unfolding build_agent_snapshot
configured old b (role, prompt, template, model, adapter) =
    rw (role, prompt, template, model, adapter) refl

profile_back :
    (c : Calls) (old : Registry) (b : Agent)
    → c.normalize_profile old.agent.runtime_type old.agent.capability_profile
      ≡ some old.agent.capability_profile
    → restored_profile c (build_agent_snapshot old) b ≡ ok old.agent.capability_profile
unfolding restored_profile build_agent_snapshot
profile_back c old b normal = rw normal refl

skills_of :
    (old r : Registry)
    → missing_from r.skills old.agent_skill ≡ []
    → missing_from r.skills (build_agent_snapshot old).skill_ids ≡ []
unfolding build_agent_snapshot
skills_of old r h = h

mcps_of :
    (old r : Registry)
    → missing_from r.mcp_servers old.agent_mcp ≡ []
    → missing_from r.mcp_servers (build_agent_snapshot old).mcp_ids ≡ []
unfolding build_agent_snapshot
mcps_of old r h = h

restored :
    (c : Calls) (now : ℕ) (publish : Bool) (v : AgentVersion) (old r : Registry)
    → v.snapshot ≡ build_agent_snapshot old
    → c.normalize_profile old.agent.runtime_type old.agent.capability_profile
      ≡ some old.agent.capability_profile
    → missing_from r.skills old.agent_skill ≡ []
    → missing_from r.mcp_servers old.agent_mcp ≡ []
    → restore_agent_version c now publish v r
      ≡ ok (
          let x = build_agent_snapshot old in
          let a = restored_agent x old.agent.capability_profile r.agent in
          restore_contract c now publish x a
            (record r { agent = a; agent_skill = x.skill_ids; agent_mcp = x.mcp_ids }))
unfolding restore_agent_version
restored c now publish v old r built normal skills mcps =
    let s : missing_from r.skills (build_agent_snapshot old).skill_ids ≡ [] =
      skills_of old r skills in
    let m : missing_from r.mcp_servers (build_agent_snapshot old).mcp_ids ≡ [] =
      mcps_of old r mcps in
    rw (built, s, m, profile_back c old r.agent normal) refl

-- A version whose snapshot was built from an earlier state of an Agent, which had no empty text and
-- a normal capability profile, is restored without an error if the Skills and MCP servers of that
-- state still exist; the Agent then has the configuration, the Skills and the MCP servers of that
-- state, with the schemas of its contract, and is otherwise as it was.
pub restore-build_agent_snapshot :
    (c : Calls) (now : ℕ) (publish : Bool) (v : AgentVersion) (old r : Registry)
    → v.snapshot ≡ build_agent_snapshot old
    → IsComplete old.agent
    → c.normalize_profile old.agent.runtime_type old.agent.capability_profile
      ≡ some old.agent.capability_profile
    → missing_from r.skills old.agent_skill ≡ []
    → missing_from r.mcp_servers old.agent_mcp ≡ []
    → (r' : Registry) × (restore_agent_version c now publish v r ≡ ok r')
      × (r'.agent ≡ configured_as old r.agent)
      × (r'.agent_skill ≡ old.agent_skill)
      × (r'.agent_mcp ≡ old.agent_mcp)
unfolding build_agent_snapshot
restore-build_agent_snapshot c now publish v old r built complete normal skills mcps =
    let x = build_agent_snapshot old in
    let a = restored_agent x old.agent.capability_profile r.agent in
    let base : Registry = record r {
      agent = a;
      agent_skill = old.agent_skill;
      agent_mcp = old.agent_mcp;
    } in
    let (agents, kept_skills, kept_mcps) = contract_keeps c now publish x a base in
    (
      restore_contract c now publish x a base,
      restored c now publish v old r built normal skills mcps,
      agents ∙ configured old r.agent complete,
      kept_skills,
      kept_mcps,
    )
