-- ===== src/Orchestrator/Submit.antt =====
-- `AgentOrchestrator.submit_workflow_run`, `submit_team_run` and `_create_task`:
-- backend/app/orchestrator.py, with `create_task` of backend/app/repositories/orchestration.py.
-- Every task is committed as it is created, so what an error leaves behind is part of the result.
pub mod Runs
pub mod Resolution
pub mod Children
pub mod Checked
pub mod Known
use hermes_agent_platform.Base.{
  ℕ, ◌+◌, Bool, true, false, not, ◌&&◌, ◌||◌, Option, none, some, List, [], ◌∷◌, ◌++◌, String, ◌==◌,
  if◌then◌else◌, any, is_empty, filter, ltb, string_eq, nat_eq,
}
use hermes_agent_platform.Base.Dict.{Dict, lookup, insert}
use hermes_agent_platform.Base.Outcome.{Outcome, ok, raised, ◌>>=◌}
use hermes_agent_platform.Workflow.{NodeType, agent, human_approval, WorkflowNodeSpec}
use hermes_agent_platform.Runs.{RunStatus, WorkflowRun, create_run}
use hermes_agent_platform.Tasks.{
  TaskStatus, pending, waiting_child, human_review, SessionStatus, AgentTask, ExecutionLog, Store,
  Env, put_task, replace_task, call_enqueue,
}
use hermes_agent_platform.Tasks.Queue.{QueueError}
use hermes_agent_platform.Orchestrator.{is_approval}
use hermes_agent_platform.Orchestrator.Reconcile.{hand_out}
use Prim.Native.String.{◌++◌ as ◌<>◌}

-- What a task needs of its Agent.
pub record TeamAgent : Type 0 where
  pub id : String
  pub is_active : Bool
  pub current_version_id : Option ℕ

pub record TeamMember : Type 0 where
  pub agent_id : String
  pub agent : TeamAgent
  pub role : String
  pub priority : ℕ

pub record Team : Type 0 where
  pub id : ℕ
  pub owner_agent_id : String
  pub owner_agent : TeamAgent
  pub members : List TeamMember

pub record MultiAgentRunRequest : Type 0 where
  pub session_id : String
  pub input : String
  pub priority : ℕ

-- What the code calls: the hash of `_orchestration_memory_session_id`, the text of `_node_prompt`,
-- whether the Agent's profile is valid and its workspace could be made, and the order of texts.
pub record Calls : Type 0 where
  pub memory_session_id : String → ℕ → String → String
  pub node_prompt : String → String → NodeType → String
  pub has_workspace : String → ℕ → Bool
  pub text_before : String → String → Bool
  pub task_max_attempts : ℕ

pub data SubmitError : Type 0 where
  no_nodes workspace_failed key_error : SubmitError
  unavailable_agent : String → SubmitError
  queue : QueueError → SubmitError

-- The arguments of `create_task` that the rows keep; `id` is that of the task, of its session and of
-- its execution log.
pub record NewTask : Type 0 where
  pub id : ℕ
  pub agent_id : String
  pub input_text : String
  pub memory_session_id : String
  pub priority : ℕ
  pub max_attempts : ℕ
  pub agent_version_id : Option ℕ
  pub parent_task_id : Option ℕ
  pub workflow_run_id : ℕ
  pub node_key : String
  pub node_type : NodeType
  pub depends_on : List String
  pub initial_status : TaskStatus

abbrev pub task_row : NewTask → AgentTask
task_row x = record {
  id = x.id;
  parent_task_id = x.parent_task_id;
  workflow_run_id = some x.workflow_run_id;
  node_key = some x.node_key;
  node_type = x.node_type;
  depends_on = x.depends_on;
  agent_id = x.agent_id;
  session = record {
    id = x.id;
    status = SessionStatus.queued;
    memory_session_id = x.memory_session_id;
    input = x.input_text;
    output = none;
    started_at = none;
    finished_at = none;
  };
  execution_id = some x.id;
  priority = x.priority;
  status = x.initial_status;
  attempt = 0;
  max_attempts = x.max_attempts;
  worker_id = none;
  error = none;
  started_at = none;
  finished_at = none;
}

abbrev pub execution_row : ℕ → NewTask → ExecutionLog
execution_row now x = record {
  id = x.id;
  status = SessionStatus.queued;
  input = x.input_text;
  output = none;
  error = none;
  agent_version_id = x.agent_version_id;
  started_at = now;
  finished_at = none;
  duration_ms = none;
}

-- `create_task`
unfoldable pub create_task : ℕ → NewTask → Store → Store
create_task now x s = record s {
  tasks = s.tasks ++ task_row x ∷ [];
  executions = insert x.id (execution_row now x) s.executions;
}

-- The store, and the next identifier that `uuid4` hands out.
pub record Draft : Type 0 where
  pub store : Store
  pub fresh : ℕ

-- The arguments of `_create_task` that differ from task to task.
pub record Node : Type 0 where
  pub agent : TeamAgent
  pub key : String
  pub node_type : NodeType
  pub role : String
  pub initial_status : TaskStatus
  pub depends_on : List String

module _ (c : Calls) (now : ℕ) (run : WorkflowRun) (payload : MultiAgentRunRequest) where
  abbrev pub new_task : Option ℕ → ℕ → Node → NewTask
  new_task parent id n = record {
    id = id;
    agent_id = n.agent.id;
    input_text = c.node_prompt payload.input n.role n.node_type;
    memory_session_id = c.memory_session_id payload.session_id run.team_id n.key;
    priority = payload.priority;
    max_attempts = c.task_max_attempts;
    agent_version_id = n.agent.current_version_id;
    parent_task_id = parent;
    workflow_run_id = run.id;
    node_key = n.key;
    node_type = n.node_type;
    depends_on = n.depends_on;
    initial_status = n.initial_status;
  }

  -- `_create_task`
  unfoldable pub add_task : Option ℕ → Node → Draft → Draft × Outcome SubmitError AgentTask
  unfolding create_task
  add_task parent n d =
      let x = new_task parent d.fresh n in
      let moved = record d { fresh = d.fresh + 1 } in
      if c.has_workspace n.agent.id d.fresh
      then (record moved { store = create_task now x d.store }, ok (task_row x))
      else (moved, raised workspace_failed)

  -- The loop that creates the children, in their order.
  unfoldable pub add_tasks : ℕ → List Node → Draft → Draft × Outcome SubmitError (List AgentTask)
  unfolding add_task
  add_tasks root [] d = (d, ok [])
  add_tasks root (n ∷ ns) d =
      let (d', r) = add_task (some root) n d in
      let (d'', rest) = add_tasks root ns d' in
      elim r [ raised e ↦ (d', raised e) | ok t ↦ (d'', rest >>= λ ts. ok (t ∷ ts)) ]

-- `{member.agent_id: member.agent for member in team.members}`
unfoldable pub members_from : Dict String TeamAgent → List TeamMember → Dict String TeamAgent
members_from d [] = d
members_from d (x ∷ xs) = members_from (insert x.agent_id x.agent d) xs

-- `node.agent_id or team.owner_agent_id`
abbrev pub agent_of : Team → WorkflowNodeSpec → String
agent_of team n = elim n.agent_id [
  | none ↦ team.owner_agent_id
  | some i ↦ if i == "" then team.owner_agent_id else i
]

-- `resolved_agents`
unfoldable pub resolve_agents :
    Team
    → Dict String TeamAgent
    → List WorkflowNodeSpec
    → Dict String TeamAgent
    → Outcome SubmitError (Dict String TeamAgent)
resolve_agents team members [] resolved = ok resolved
resolve_agents team members (n ∷ ns) resolved = elim (lookup (agent_of team n) members) [
  | none ↦ raised (unavailable_agent n.key)
  | some a ↦
      let rest = resolve_agents team members ns (insert n.key a resolved) in
      if a.is_active then rest else raised (unavailable_agent n.key)
]

-- `initial_status`
unfoldable pub initial_status : WorkflowNodeSpec → TaskStatus
initial_status n =
    if is_approval n.node_type && is_empty n.depends_on
    then human_review
    else if not (is_empty n.depends_on)
    then waiting_child
    else pending

-- The arguments for a node; `resolved_agents[node.key]` on a missing key is a `KeyError`.
unfoldable pub node_tasks :
    Dict String TeamAgent → List WorkflowNodeSpec → Outcome SubmitError (List Node)
unfolding initial_status
node_tasks resolved [] = ok []
node_tasks resolved (n ∷ ns) = elim (lookup n.key resolved) [
  | none ↦ raised key_error
  | some a ↦
      let task : Node = record {
        agent = a;
        key = n.key;
        node_type = n.node_type;
        role = n.name;
        initial_status = initial_status n;
        depends_on = n.depends_on;
      } in
      node_tasks resolved ns >>= λ rest. ok (task ∷ rest)
]
