-- ===== src/Tasks.antt =====
-- Tasks, their sessions and execution logs (backend/app/db/models.py), what
-- backend/app/repositories/orchestration.py reads and creates, and the store that the worker and
-- the orchestrator change. A UUID is a number, a time a number of
-- nanoseconds; columns that none of these operations reads are left out.
pub mod Queue
pub mod Order
use hermes_agent_platform.Base.{
  ℕ, ◌-◌, ◌/◌, ◌+◌, ◌<◌, Bool, true, false, not, ◌&&◌, ◌||◌, Option, none, some, List, [], ◌∷◌,
  ◌++◌, map, String, ◌==◌, ◌∈◌, if◌then◌else◌, Eq, filter, find, ltb, nat_eq, option_eq,
}
use hermes_agent_platform.Base.Dict.{Dict, lookup, insert}
use hermes_agent_platform.Workflow.{NodeType}
use hermes_agent_platform.Base.Outcome.{Outcome, ok, raised}
use hermes_agent_platform.Tasks.Queue.{QueueError, priority_out_of_range, unavailable}

-- `ck_agent_tasks_status`
pub data TaskStatus : Type 0 where
  pending running waiting_child human_review retrying succeeded failed cancelled : TaskStatus

TaskStatus-discrete : Discrete TaskStatus
TaskStatus-discrete = hlevel

instance unfoldable pub task_status_eq : Eq TaskStatus
unfolding TaskStatus-discrete
task_status_eq = record { dec = TaskStatus-discrete }

pub data SessionStatus : Type 0 where
  queued running succeeded failed cancelled : SessionStatus

pub record AgentSession : Type 0 where
  pub id : ℕ
  pub status : SessionStatus
  pub memory_session_id : String
  pub input : String
  pub output : Option String
  pub started_at : Option ℕ
  pub finished_at : Option ℕ

pub record AgentTask : Type 0 where
  pub id : ℕ
  pub parent_task_id : Option ℕ
  pub workflow_run_id : Option ℕ
  pub node_key : Option String
  pub node_type : NodeType
  pub depends_on : List String
  pub agent_id : String
  pub session : AgentSession
  pub execution_id : Option ℕ
  pub priority : ℕ
  pub status : TaskStatus
  pub attempt : ℕ
  pub max_attempts : ℕ
  pub worker_id : Option String
  pub error : Option String
  pub started_at : Option ℕ
  pub finished_at : Option ℕ

pub record ExecutionLog : Type 0 where
  pub id : ℕ
  pub status : SessionStatus
  pub input : String
  pub output : Option String
  pub error : Option String
  pub agent_version_id : Option ℕ
  pub started_at : ℕ
  pub finished_at : Option ℕ
  pub duration_ms : Option ℕ

pub data MessageType : Type 0 where
  task result event error : MessageType

-- The payload of a message is left out.
pub record AgentMessage : Type 0 where
  pub from_agent : String
  pub to_agent : String
  pub message_type : MessageType
  pub task_id : Option ℕ

-- A call of the task queue or the message bus that Redis accepted.
pub data Effect : Type 0 where
  enqueued : ℕ → ℕ → Effect
  removed : ℕ → Effect
  published : AgentMessage → Effect

-- The rows that one operation can reach, and its accepted calls, the newest first.
pub record Store : Type 0 where
  pub tasks : List AgentTask
  pub executions : Dict ℕ ExecutionLog
  pub effects : List Effect

-- What an operation finds around it: the time, and whether Redis answers each of its two clients.
pub record Env : Type 0 where
  pub now : ℕ
  pub queue_up : Bool
  pub bus_up : Bool

-- `get_task`
unfoldable pub get_task : ℕ → Store → Option AgentTask
get_task i s = find (λ t. t.id == i) s.tasks

unfoldable pub replace_task : AgentTask → List AgentTask → List AgentTask
replace_task t [] = []
replace_task t (u ∷ us) = (if u.id == t.id then t else u) ∷ replace_task t us

-- The changes to a task's attributes, flushed by `commit`.
unfoldable pub put_task : AgentTask → Store → Store
put_task t s = record s { tasks = replace_task t s.tasks }

-- `session.get(ExecutionLog, task.execution_id) if task.execution_id else None`
unfoldable pub get_execution : AgentTask → Store → Option ExecutionLog
get_execution t s = elim t.execution_id [ none ↦ none | some i ↦ lookup i s.executions ]

-- `if execution is not None:` with the changes to its attributes.
unfoldable pub change_execution : (ExecutionLog → ExecutionLog) → AgentTask → Store → Store
unfolding get_execution
change_execution f t s = elim (get_execution t s) [
  | none ↦ s
  | some x ↦ record s { executions = insert x.id (f x) s.executions }
]

-- `max(0, int((finished_at - started_at).total_seconds() * 1000))`, for times in nanoseconds
unfoldable pub duration_ms : ℕ → ℕ → ℕ
duration_ms started finished = (finished - started) / 1_000_000

-- `queue.enqueue(task.id, task.priority)` as the caller sees it.
unfoldable pub call_enqueue : Env → AgentTask → Store → Store × Outcome QueueError (Unit {0})
call_enqueue env t s =
    if ltb 9 t.priority
    then (s, raised priority_out_of_range)
    else if not env.queue_up
    then (s, raised unavailable)
    else (record s { effects = enqueued t.id t.priority ∷ s.effects }, ok tt)

-- `queue.remove(task.id)`
unfoldable pub call_remove : Env → AgentTask → Store → Store × Outcome QueueError (Unit {0})
call_remove env t s =
    if not env.queue_up
    then (s, raised unavailable)
    else (record s { effects = removed t.id ∷ s.effects }, ok tt)

-- `message_bus.publish`, whose `AgentMessageBusError` every caller here swallows.
unfoldable pub publish : Env → AgentMessage → Store → Store
publish env m s = if env.bus_up then record s { effects = published m ∷ s.effects } else s

-- Statuses of a task that nothing is to change any more.
abbrev pub is_terminal : TaskStatus → Bool
is_terminal succeeded = true
is_terminal failed = true
is_terminal cancelled = true
is_terminal _ = false
