-- ===== src/Orchestrator.antt =====
-- The loop of `AgentOrchestrator.reconcile_run` over the children of a run:
-- backend/app/orchestrator.py. The `input_data` that the tasks carry is left out.
pub mod Reconcile
pub mod Submit
pub mod Turns
pub mod Releases
pub mod Progress
pub mod Liveness
pub mod Settle
pub mod Stall
pub mod Early
use hermes_agent_platform.Base.{
  ℕ, Bool, true, false, not, ◌&&◌, ◌||◌, Option, none, some, List, [], ◌∷◌, ◌++◌, map, String, ◌==◌,
  if◌then◌else◌, filter, find, any, all, is_empty, nat_eq, option_eq, string_eq,
}
use hermes_agent_platform.Base.Outcome.{Outcome, ok, raised}
use hermes_agent_platform.Workflow.{NodeType, human_approval}
use hermes_agent_platform.Runs.{RunStatus, WorkflowRun}
use hermes_agent_platform.Tasks.{
  TaskStatus, pending, waiting_child, human_review, succeeded, failed, cancelled, task_status_eq,
  SessionStatus, AgentTask, AgentMessage, MessageType, Store, Env, replace_task, put_task,
  change_execution, call_enqueue, publish,
}
use hermes_agent_platform.Tasks.Queue.{QueueError}
use Prim.Native.String.{◌++◌ as ◌<>◌}

-- `list_run_tasks`
unfoldable pub list_run_tasks : ℕ → Store → List AgentTask
list_run_tasks run_id s = filter (λ t. t.workflow_run_id == some run_id) s.tasks

abbrev pub is_root : AgentTask → Bool
is_root t = t.parent_task_id == none

abbrev pub children_of : AgentTask → List AgentTask → List AgentTask
children_of root = filter (λ t. t.parent_task_id == some root.id)

abbrev pub has_status : TaskStatus → AgentTask → Bool
has_status x t = t.status == x

-- The dict comprehension `by_key` keeps the last task of a key, and none with an empty key.
unfoldable pub task_of_key : String → List AgentTask → Option AgentTask
task_of_key k [] = none
task_of_key k (t ∷ ts) = elim (task_of_key k ts) [
  | some u ↦ some u
  | none ↦ if t.node_key == some k && not (k == "") then some t else none
]

-- What one turn of the loop over the children does with a task: the task after it, and whether it
-- is put on the list `changed`.
pub data Turn : Type 0 where
  missing_dependency : Turn
  next : Bool → AgentTask → Turn

abbrev pub is_missing : Option AgentTask → Bool
is_missing none = true
is_missing (some t) = false

abbrev pub with_status : (TaskStatus → Bool) → Option AgentTask → Bool
with_status p none = false
with_status p (some t) = p t.status

abbrev pub is_dead : TaskStatus → Bool
is_dead failed = true
is_dead cancelled = true
is_dead _ = false

abbrev pub is_succeeded : TaskStatus → Bool
is_succeeded succeeded = true
is_succeeded _ = false

abbrev pub is_approval : NodeType → Bool
is_approval human_approval = true
is_approval _ = false

unfoldable pub turn : ℕ → List AgentTask → AgentTask → Turn
unfolding task_of_key
turn now children t =
    let dependencies = map (λ k. task_of_key k children) t.depends_on in
    if not (has_status waiting_child t)
    then next false t
    else if any is_missing dependencies
    then missing_dependency
    else if any (with_status is_dead) dependencies
    then next false (record t {
      status = cancelled;
      error = some "dependency failed or was cancelled";
      finished_at = some now;
    })
    else if not (is_empty dependencies) && all (with_status is_succeeded) dependencies
    then (if is_approval t.node_type
        then next false (record t { status = human_review })
        else next true (record t { status = pending }))
    else next false t

-- The loop's end: the children, the list `changed`, and the task that stopped it.
pub record Released : Type 0 where
  pub children : List AgentTask
  pub changed : List AgentTask
  pub stopped : Option AgentTask

-- `for task in children:`, with the children before and from the current one on. A task sees what
-- the loop did to those before it.
unfoldable pub release : ℕ → List AgentTask → List AgentTask → Released
unfolding turn
release now done [] = record { children = done; changed = []; stopped = none }
release now done (t ∷ ts) = elim (turn now (done ++ t ∷ ts) t) [
  | missing_dependency ↦ record { children = done ++ t ∷ ts; changed = []; stopped = some t }
  | next released u ↦
      let rest = release now (done ++ u ∷ []) ts in
      if released then record rest { changed = u ∷ rest.changed } else rest
]
