-- ===== src/Runs.antt =====
-- Workflow runs: `WorkflowRun` of backend/app/db/models.py and `create_run` of
-- backend/app/repositories/multi_agent.py.
use hermes_agent_platform.Base.{ℕ, Bool, true, false, Option, none, String}

pub data RunStatus : Type 0 where
  pending running human_review succeeded failed cancelled : RunStatus

pub record WorkflowRun : Type 0 where
  pub id : ℕ
  pub team_id : ℕ
  pub workflow_id : Option ℕ
  pub session_id : String
  pub status : RunStatus
  pub input : String
  pub output : Option String
  pub error : Option String
  pub started_at : Option ℕ
  pub finished_at : Option ℕ

-- `create_run`, for the id that the database hands out.
unfoldable pub create_run : ℕ → ℕ → Option ℕ → String → String → WorkflowRun
create_run id team_id workflow_id session_id input_text = record {
  id = id;
  team_id = team_id;
  workflow_id = workflow_id;
  session_id = session_id;
  status = pending;
  input = input_text;
  output = none;
  error = none;
  started_at = none;
  finished_at = none;
}

-- The statuses of `list_runs(active_only=True)`.
abbrev pub is_active : RunStatus → Bool
is_active pending = true
is_active running = true
is_active human_review = true
is_active _ = false
