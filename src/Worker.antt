-- ===== src/Worker.antt =====
-- `AgentWorker`: backend/app/worker.py, `_execute` with what it calls. The run of the Agent itself,
-- between the claim of a task and its end, is an argument, and so is what other processes do
-- meanwhile.
pub mod Recovery
pub mod Api
pub mod Steps
pub mod Attempts
pub mod Interventions
use hermes_agent_platform.Base.{
  ℕ, ◌+◌, ◌-◌, ◌≡◌, Bool, true, false, not, ◌&&◌, ◌||◌, Option, none, some, List, [], ◌∷◌, String,
  ◌==◌, if◌then◌else◌, filter, ltb, nat_eq, option_eq,
}
use hermes_agent_platform.Base.Outcome.{Outcome, ok, raised}
use hermes_agent_platform.Tasks.{
  TaskStatus, pending, running, waiting_child, human_review, retrying, succeeded, failed, cancelled,
  SessionStatus, AgentSession, AgentTask, ExecutionLog, AgentMessage, MessageType, Store, Env,
  get_task, put_task, replace_task, get_execution, change_execution, duration_ms, call_enqueue,
  call_remove, publish, task_status_eq,
}
use hermes_agent_platform.Tasks.Queue.{QueueError}

abbrev pub is_claimable : TaskStatus → Bool
is_claimable pending = true
is_claimable retrying = true
is_claimable _ = false

abbrev pub session_succeeded : SessionStatus → Bool
session_succeeded SessionStatus.succeeded = true
session_succeeded _ = false

abbrev pub or_time : Option ℕ → ℕ → ℕ
or_time none now = now
or_time (some t) now = t

-- `_publish_result`
unfoldable pub publish_result : Env → AgentTask → Store → Store
unfolding get_task publish
publish_result env t s = elim t.parent_task_id [
  | none ↦ s
  | some p ↦ elim (get_task p s) [
    | none ↦ s
    | some parent ↦
        publish env
          (record {
            from_agent = t.agent_id;
            to_agent = parent.agent_id;
            message_type = MessageType.result;
            task_id = some t.id;
          })
          s
  ]
]

-- `_terminal_failure`; `clip` is `message[:2000]`.
abbrev pub failed_task : (String → String) → ℕ → String → AgentTask → AgentTask
failed_task clip now message t = record t {
  status = failed;
  error = some (clip message);
  finished_at = some now;
  session = record t.session { status = SessionStatus.failed; finished_at = some now };
}

abbrev pub failed_execution : (String → String) → ℕ → String → ExecutionLog → ExecutionLog
failed_execution clip now message x = record x {
  status = SessionStatus.failed;
  error = some (clip message);
  finished_at = some now;
  duration_ms = some (duration_ms x.started_at now);
}

unfoldable pub terminal_failure : (String → String) → Env → String → AgentTask → Store → Store
unfolding put_task replace_task change_execution publish_result
terminal_failure clip env message t s =
    let t' = failed_task clip env.now message t in
    publish_result env t'
      (change_execution (failed_execution clip env.now message) t (put_task t' s))

-- What `_execute` did before the Agent runs.
pub data Claim : Type 0 where
  skipped : Claim
  already_done : Claim
  unavailable : Claim
  claimed : AgentTask → Claim

abbrev pub claimed_task : ℕ → String → AgentTask → AgentTask
claimed_task now worker_id t = record t {
  status = running;
  attempt = t.attempt + 1;
  worker_id = some worker_id;
  started_at = some now;
  error = none;
  session = record t.session { status = SessionStatus.running; started_at = some now };
}

abbrev pub done_task : ℕ → String → AgentTask → AgentTask
done_task now worker_id t = record t {
  status = succeeded;
  error = none;
  finished_at = some (or_time t.session.finished_at now);
  worker_id = some worker_id;
}

-- `_execute` up to the run of the Agent, for a locked row; `agent_active` is whether the task's
-- Agent exists and is active.
unfoldable pub claim : (String → String) → Env → String → Bool → AgentTask → Store → Store × Claim
unfolding put_task replace_task change_execution terminal_failure
claim clip env worker_id agent_active t s =
    if not (is_claimable t.status)
    then (s, skipped)
    else if session_succeeded t.session.status
    then (put_task (done_task env.now worker_id t) s, already_done)
    else if not agent_active
    then (terminal_failure clip env "Agent is unavailable" t s, unavailable)
    else (
      change_execution
          (λ x. record x { status = SessionStatus.running; started_at = env.now; error = none }) t
          (put_task (claimed_task env.now worker_id t) s),
      claimed (claimed_task env.now worker_id t),
    )

-- How the run of the Agent ended: it returned with the task's status and session as the worker then
-- has them, the version to run was missing or invalid, or it raised, which
-- `_is_runtime_cancellation` tells from a cancellation.
pub data RunResult : Type 0 where
  returned : TaskStatus → AgentSession → RunResult
  version_unavailable : String → RunResult
  run_failed : String → RunResult
  run_cancelled : RunResult

abbrev pub is_cancelled : TaskStatus → Bool
is_cancelled cancelled = true
is_cancelled _ = false

-- `_cancel_task`
abbrev pub cancelled_task : ℕ → AgentTask → AgentTask
cancelled_task now t =
    let finished = or_time t.finished_at now in
    record t {
      status = cancelled;
      error = none;
      finished_at = some finished;
      session = record t.session {
        status = SessionStatus.cancelled;
        finished_at = some (or_time t.session.finished_at finished);
      };
    }

abbrev pub retried_task : String → AgentTask → AgentTask
retried_task message t = record t {
  status = retrying;
  error = some message;
  worker_id = none;
  session = record t.session { status = SessionStatus.queued; finished_at = none };
}

-- The handler of an exception, for the row as it is read again under its lock.
unfoldable pub handle_failure :
    (String → String) → Env → String → AgentTask → Store → Store × Outcome QueueError (Unit {0})
unfolding put_task replace_task change_execution call_enqueue terminal_failure
handle_failure clip env message t s =
    if is_cancelled t.status
    then (s, ok tt)
    else if ltb t.attempt t.max_attempts
    then call_enqueue env t (
        change_execution
          (λ x. record x {
            status = SessionStatus.queued;
            error = some message;
            finished_at = none;
          })
          t (put_task (retried_task message t) s))
    else (terminal_failure clip env message t s, ok tt)

abbrev pub finished_task : ℕ → String → AgentSession → AgentTask → AgentTask
finished_task now worker_id session t = record t {
  status = succeeded;
  error = none;
  finished_at = some now;
  worker_id = some worker_id;
  session = session;
}

-- `_execute` from the end of the run on, for the row as the database has it: the columns that the
-- worker sets are written to it, whatever happened to it during the run.
unfoldable pub finish :
    (String → String)
    → Env
    → String
    → RunResult
    → AgentTask
    → Store
    → Store × Outcome QueueError (Unit {0})
unfolding put_task replace_task publish_result terminal_failure handle_failure
finish clip env worker_id (returned seen session) t s = if is_cancelled seen then (s, ok tt) else (
  publish_result env (finished_task env.now worker_id session t)
      (put_task (finished_task env.now worker_id session t) s),
  ok tt,
)
finish clip env worker_id (version_unavailable message) t s =
    (terminal_failure clip env message t s, ok tt)
finish clip env worker_id (run_failed message) t s = handle_failure clip env message t s
finish clip env worker_id run_cancelled t s =
    if is_cancelled t.status then (s, ok tt) else (put_task (cancelled_task env.now t) s, ok tt)
