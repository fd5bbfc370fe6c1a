-- ===== src/Tests/Work.antt =====
-- A task that a worker takes, fails twice and gives up.
use hermes_agent_platform.Base.{ℕ, inl, inr, true, none, some, List, [], ◌∷◌, String}
use hermes_agent_platform.Workflow.{NodeType}
use hermes_agent_platform.Tasks.{human_review, SessionStatus, AgentTask, Store, Env, pending}
use hermes_agent_platform.Worker.{claimed_task, retried_task, failed_task}

abbrev new_task : AgentTask
new_task = record {
  id = 1;
  parent_task_id = none;
  workflow_run_id = none;
  node_key = none;
  node_type = NodeType.agent;
  depends_on = [];
  agent_id = "writer";
  session = record {
    id = 1;
    status = SessionStatus.queued;
    memory_session_id = "memory";
    input = "write";
    output = none;
    started_at = none;
    finished_at = none;
  };
  execution_id = none;
  priority = 5;
  status = pending;
  attempt = 0;
  max_attempts = 2;
  worker_id = none;
  error = none;
  started_at = none;
  finished_at = none;
}

abbrev rows : Store
rows = record { tasks = new_task ∷ []; executions = []; effects = [] }

abbrev env : Env
env = record { now = 100; queue_up = true; bus_up = true }

abbrev as_it_is : String → String
as_it_is s = s

abbrev first_try : AgentTask
first_try = claimed_task 100 "one" new_task

abbrev second_try : AgentTask
second_try = claimed_task 200 "two" (retried_task "no answer" first_try)

abbrev given_up : AgentTask
given_up = failed_task as_it_is 300 "no answer" second_try

abbrev after_claim : Store
after_claim = record { tasks = first_try ∷ []; executions = []; effects = [] }

abbrev in_review : AgentTask
in_review = record new_task { status = human_review }

abbrev review_rows : Store
review_rows = record { tasks = in_review ∷ []; executions = []; effects = [] }
