-- ===== src/Tests/Orchestration.antt =====
-- A run with a manager's task and two children, the second of which depends on the first.
use hermes_agent_platform.Base.{
  ℕ, ◌≡◌, refl, ◌≢◌, ◌⊎◌, true, false, none, some, List, [], ◌∷◌, String, All, All₂, ◌==◌,
  string_eq, if◌then◌else◌, all, is_empty, find, ◌<◌, count,
}
use hermes_agent_platform.Workflow.{NodeType}
use hermes_agent_platform.Runs.{RunStatus, create_run}
use hermes_agent_platform.Tasks.{
  TaskStatus, SessionStatus, AgentTask, Store, Env, waiting_child, human_review, succeeded,
  cancelled,
}
use hermes_agent_platform.Orchestrator.{is_root, release}
use hermes_agent_platform.Orchestrator.Reconcile.{Texts, Reconciled, settle_phase}
use hermes_agent_platform.Orchestrator.Releases.{Advance, release_safe}
use hermes_agent_platform.Orchestrator.Progress.{IsKnown, release_never_stops}
use hermes_agent_platform.Orchestrator.Settle.{run_tasks}

abbrev task_at : ℕ → String → List String → TaskStatus → AgentTask
task_at id key depends_on status = record {
  id = id;
  parent_task_id = some 0;
  workflow_run_id = some 7;
  node_key = some key;
  node_type = NodeType.agent;
  depends_on = depends_on;
  agent_id = "writer";
  session = record {
    id = id;
    status = SessionStatus.queued;
    memory_session_id = "memory";
    input = "write";
    output = none;
    started_at = none;
    finished_at = none;
  };
  execution_id = none;
  priority = 5;
  status = status;
  attempt = 0;
  max_attempts = 3;
  worker_id = none;
  error = none;
  started_at = none;
  finished_at = none;
}

abbrev manager : TaskStatus → AgentTask
manager status = record (task_at 0 "" [] status) { parent_task_id = none; node_key = none }

abbrev draft : AgentTask
draft = task_at 1 "draft" [] succeeded

abbrev review : TaskStatus → AgentTask
review status = task_at 2 "review" ("draft" ∷ []) status

abbrev two_children : List AgentTask
two_children = draft ∷ review waiting_child ∷ []

abbrev rank_of : String → ℕ
rank_of k = if k == "review" then 1 else 0

two_children-IsKnown : IsKnown two_children two_children
unfolding hermes_agent_platform.Orchestrator.task_of_key hermes_agent_platform.Base.option_eq
    string_eq
two_children-IsKnown = (tt, (((draft, refl, tt), tt), tt))

release_safe_example :
    All₂ (Advance 100 two_children) two_children (release 100 [] two_children).children
release_safe_example = release_safe 100 two_children

release_never_stops_example : (release 100 [] two_children).stopped ≡ none
release_never_stops_example = release_never_stops 100 two_children two_children-IsKnown

abbrev pub texts : Texts
texts = record { manager_prompt = λ input ts. input; clip = λ s. s }

abbrev pub env : Env
env = record { now = 100; queue_up = true; bus_up = true }

abbrev run_of : List AgentTask → Reconciled
run_of tasks = record {
  run = create_run 7 1 (some 1) "session" "write a report";
  store = record { tasks = tasks; executions = []; effects = [] };
}

abbrev finished_children : Reconciled
finished_children = run_of (manager waiting_child ∷ draft ∷ review succeeded ∷ [])

abbrev finished_run : Reconciled
finished_run = run_of (manager succeeded ∷ draft ∷ review succeeded ∷ [])

abbrev withdrawn_child : Reconciled
withdrawn_child = run_of (manager waiting_child ∷ draft ∷ review cancelled ∷ [])

found_finished :
    find is_root (run_tasks texts env finished_children (manager waiting_child))
    ≡ some (manager waiting_child)
unfolding hermes_agent_platform.Orchestrator.list_run_tasks hermes_agent_platform.Base.option_eq
    hermes_agent_platform.Base.nat_eq create_run
found_finished = refl

found_succeeded :
    find is_root (run_tasks texts env finished_run (manager succeeded)) ≡ some (manager succeeded)
unfolding hermes_agent_platform.Orchestrator.list_run_tasks hermes_agent_platform.Base.option_eq
    hermes_agent_platform.Base.nat_eq create_run
found_succeeded = refl

run_succeeds : (settle_phase texts env finished_run).0.run.status ≡ RunStatus.succeeded
unfolding settle_phase hermes_agent_platform.Base.option_eq hermes_agent_platform.Base.nat_eq
    create_run hermes_agent_platform.Tasks.task_status_eq
run_succeeds = refl
