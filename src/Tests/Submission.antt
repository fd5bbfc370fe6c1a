-- ===== src/Tests/Submission.antt =====
-- A submission of the diamond, and a reconciliation before it is over.
use hermes_agent_platform.Base.{
  ℕ, ◌+◌, ◌≡◌, refl, ◌≢◌, ◌<◌, inl, inr, ◌⊎◌, Bool, true, false, none, some, List, [], ◌∷◌, String,
  ◌==◌, ◌∈◌, string_eq, nat_eq, if◌then◌else◌, ltb, find, All, arith, not, ◌&&◌,
}
use hermes_agent_platform.Base.Dict.{Dict}
use hermes_agent_platform.Base.Outcome.{ok}
use hermes_agent_platform.Workflow.{agent}
use hermes_agent_platform.Workflow.Acyclic.{IsDag}
use hermes_agent_platform.Runs.{RunStatus, WorkflowRun, create_run, is_active}
use hermes_agent_platform.Tasks.{AgentTask, waiting_child, failed, task_status_eq}
use hermes_agent_platform.Orchestrator.{list_run_tasks, is_root, children_of, has_status}
use hermes_agent_platform.Orchestrator.Reconcile.{Reconciled, reconcile_run}
use hermes_agent_platform.Orchestrator.Progress.{IsKnown}
use hermes_agent_platform.Orchestrator.Liveness.{IsRanked, In}
use hermes_agent_platform.Orchestrator.Early.{Lacks, reconcile_fails}
use hermes_agent_platform.Orchestrator.Submit.{
  resolve_agents, Team, TeamAgent, Calls, MultiAgentRunRequest, Draft, task_row, new_task,
}
use hermes_agent_platform.Orchestrator.Submit.Runs.{Submitted, submit_workflow_run, manager_node}
use hermes_agent_platform.Orchestrator.Submit.Checked.{IsRunOf, submit_workflow_run-IsRunOf}
use hermes_agent_platform.Orchestrator.Submit.Known.{IsNamed, submit_workflow_run-IsKnown}
use hermes_agent_platform.Tests.Graph.{diamond}
use hermes_agent_platform.Tests.Orchestration.{texts, env}

abbrev writer : TeamAgent
writer = record { id = "writer"; is_active = true; current_version_id = none }

abbrev lead : TeamAgent
lead = record { id = "lead"; is_active = true; current_version_id = none }

abbrev team : Team
team = record {
  id = 1;
  owner_agent_id = "lead";
  owner_agent = lead;
  members =
      record { agent_id = "writer"; agent = writer; role = "writer"; priority = 50 }
      ∷ record { agent_id = "lead"; agent = lead; role = "lead"; priority = 50 }
      ∷ [];
}

-- Workspaces can be made for sessions up to the given number.
abbrev calls_up_to : ℕ → Calls
calls_up_to n = record {
  memory_session_id = λ s i k. k;
  node_prompt = λ input role t. input;
  has_workspace = λ a i. ltb i n;
  text_before = λ s t. false;
  task_max_attempts = 3;
}

abbrev request : MultiAgentRunRequest
request = record { session_id = "session"; input = "write a report"; priority = 5 }

abbrev empty : Draft
empty = record { store = record { tasks = []; executions = []; effects = [] }; fresh = 10 }

abbrev submitted : Submitted
submitted = (submit_workflow_run (calls_up_to 100) env team 5 diamond request empty).0

diamond-submitted :
    submit_workflow_run (calls_up_to 100) env team 5 diamond request empty ≡ (submitted, ok tt)
unfolding submit_workflow_run hermes_agent_platform.Base.Dict.lookup
    hermes_agent_platform.Base.Dict.insert string_eq task_status_eq
diamond-submitted = refl

nothing_yet : list_run_tasks 10 empty.store ≡ []
unfolding list_run_tasks
nothing_yet = refl

submit_workflow_run-IsRunOf_example :
    IsRunOf diamond 10 submitted.draft.store
    × ((run : WorkflowRun) × (submitted.run ≡ some run)
        × (run.id ≡ 10)
        × (is_active run.status ≡ true))
submit_workflow_run-IsRunOf_example =
    submit_workflow_run-IsRunOf (calls_up_to 100) env team 5 diamond request empty submitted
      nothing_yet diamond-submitted

abbrev height : String → ℕ
height k = if k == "join" then 2 else if k == "start" then 0 else 1

diamond-IsDag : IsDag diamond
unfolding string_eq
diamond-IsDag = record {
  distinct = (refl, (refl, (refl, (refl, tt))));
  known = ((refl, (refl, tt)), ((refl, tt), ((refl, tt), (tt, tt))));
  rank = height;
  descends = ((omega arith, (omega arith, tt)), ((omega arith, tt), ((omega arith, tt), (tt, tt))));
}

diamond-IsNamed : All IsNamed diamond
unfolding string_eq
diamond-IsNamed = (refl, (refl, (refl, (refl, tt))))

submit_workflow_run-IsKnown_example :
    (root : AgentTask) × (cs : List AgentTask) × (find is_root
        (list_run_tasks 10 submitted.draft.store)
      ≡ some root)
    × (children_of root (list_run_tasks 10 submitted.draft.store) ≡ cs)
    × IsKnown cs cs
    × ((rank : String → ℕ) × All (IsRanked rank) cs)
submit_workflow_run-IsKnown_example =
    submit_workflow_run-IsKnown (calls_up_to 100) env team 5 diamond request empty submitted
      diamond-IsDag diamond-IsNamed nothing_yet diamond-submitted

-- The rows once the manager's task and the first child are committed.
abbrev early : Reconciled
early = record {
  run = create_run 10 1 (some 5) "session" "write a report";
  store = (submit_workflow_run (calls_up_to 13) env team 5 diamond request empty).0.draft.store;
}

abbrev manager : AgentTask
manager = task_row (new_task (calls_up_to 13) 100 early.run request none 11 (manager_node team))

abbrev join : AgentTask
join = task_row (
    new_task (calls_up_to 13) 100 early.run request (some 11) 12 (record {
      agent = writer;
      key = "join";
      node_type = agent;
      role = "join";
      initial_status = waiting_child;
      depends_on = "left" ∷ "right" ∷ [];
    }))

early_tasks : list_run_tasks early.run.id early.store ≡ manager ∷ join ∷ []
unfolding list_run_tasks submit_workflow_run hermes_agent_platform.Base.Dict.lookup
    hermes_agent_platform.Base.Dict.insert string_eq hermes_agent_platform.Base.option_eq nat_eq
    create_run
early_tasks = refl

early_root : find is_root (list_run_tasks early.run.id early.store) ≡ some manager
unfolding list_run_tasks submit_workflow_run hermes_agent_platform.Base.Dict.lookup
    hermes_agent_platform.Base.Dict.insert string_eq hermes_agent_platform.Base.option_eq nat_eq
    create_run
early_root = refl

early_clear :
    find (has_status failed) (children_of manager (list_run_tasks early.run.id early.store)) ≡ none
unfolding list_run_tasks submit_workflow_run hermes_agent_platform.Base.Dict.lookup
    hermes_agent_platform.Base.Dict.insert string_eq hermes_agent_platform.Base.option_eq nat_eq
    create_run task_status_eq
early_clear = refl

early_join : In join (children_of manager (list_run_tasks early.run.id early.store))
unfolding list_run_tasks submit_workflow_run hermes_agent_platform.Base.Dict.lookup
    hermes_agent_platform.Base.Dict.insert string_eq hermes_agent_platform.Base.option_eq nat_eq
    create_run
early_join = inl refl

early-Lacks : Lacks "left" (children_of manager (list_run_tasks early.run.id early.store))
unfolding list_run_tasks submit_workflow_run hermes_agent_platform.Base.Dict.lookup
    hermes_agent_platform.Base.Dict.insert string_eq hermes_agent_platform.Base.option_eq nat_eq
    create_run
early-Lacks = (refl, tt)

left_needed : ("left" ∈ join.depends_on) ≡ true
unfolding string_eq
left_needed = refl

reconcile_fails_example :
    ((reconcile_run texts env early).0.run.status ≡ RunStatus.failed)
    × ((reconcile_run texts env early).1 ≡ ok tt)
reconcile_fails_example =
    reconcile_fails texts env early manager join "left" early_root early_clear early_join refl
      left_needed early-Lacks

abbrev resolved : Dict String TeamAgent
resolved = ("join", writer) ∷ ("left", writer) ∷ ("right", writer) ∷ ("start", writer) ∷ []

diamond-resolved :
    resolve_agents team (("writer", writer) ∷ ("lead", lead) ∷ []) diamond [] ≡ ok resolved
unfolding resolve_agents hermes_agent_platform.Base.Dict.lookup string_eq
    hermes_agent_platform.Base.Dict.insert
diamond-resolved = refl
