-- ===== src/Worker/Api.antt =====
-- The operations of the HTTP API that change a task's status: `cancel_task`
-- (backend/app/api/orchestration.py), `cancel_workflow_run` and `review_human_task`
-- (backend/app/api/multi_agent.py), from the row that they find to the commit.
use hermes_agent_platform.Base.{
  ℕ, Bool, true, false, not, Option, none, some, List, [], ◌∷◌, String, ◌==◌, if◌then◌else◌, any,
  nat_eq, string_eq,
}
use hermes_agent_platform.Base.Outcome.{Outcome, ok, raised}
use hermes_agent_platform.Runs.{RunStatus, WorkflowRun, is_active}
use hermes_agent_platform.Tasks.{
  TaskStatus, pending, running, waiting_child, human_review, retrying, succeeded, failed, cancelled,
  SessionStatus, AgentTask, Store, Env, put_task, replace_task, change_execution, duration_ms,
  call_remove, task_status_eq,
}
use hermes_agent_platform.Tasks.Queue.{QueueError}

abbrev pub is_queued : TaskStatus → Bool
is_queued pending = true
is_queued retrying = true
is_queued _ = false

abbrev is_idle : TaskStatus → Bool
is_idle pending = true
is_idle retrying = true
is_idle waiting_child = true
is_idle human_review = true
is_idle _ = false

-- A status code with its detail, or the queue's error, which no handler catches.
pub data ApiError : Type 0 where
  http : ℕ → String → ApiError
  queue : QueueError → ApiError

abbrev pub withdrawn_task : ℕ → AgentTask → AgentTask
withdrawn_task now t = record t {
  status = cancelled;
  finished_at = some now;
  session = record t.session { status = SessionStatus.cancelled; finished_at = some now };
}

-- `cancel_task`, for a row that was found and locked.
unfoldable pub cancel_task : Env → AgentTask → Store → Store × Outcome ApiError (Unit {0})
unfolding call_remove put_task replace_task change_execution
cancel_task env t s =
    let (s', r) = call_remove env t s in
    let cancelled_store =
      change_execution
        (λ x. record x {
          status = SessionStatus.cancelled;
          finished_at = some env.now;
          duration_ms = some (duration_ms x.started_at env.now);
        })
        t (put_task (withdrawn_task env.now t) s') in
    if not (is_queued t.status)
    then (s, raised (http 409 "only queued tasks can be cancelled"))
    else elim r [ raised e ↦ (s', raised (queue e)) | ok _ ↦ (cancelled_store, ok tt) ]

-- One task in the loop of `cancel_workflow_run`.
unfoldable pub withdraw : Env → AgentTask → Store → Store × Outcome ApiError (Unit {0})
unfolding call_remove put_task replace_task change_execution
withdraw env t s =
    let (s', r) = if is_queued t.status then call_remove env t s else (s, ok tt) in
    let cancelled_store =
      change_execution
        (λ x. record x { status = SessionStatus.cancelled; finished_at = some env.now }) t
        (put_task (withdrawn_task env.now t) s') in
    elim r [
      | raised e ↦ (s', raised (queue e))
      | ok _ ↦ (if is_idle t.status then cancelled_store else s', ok tt)
    ]

unfoldable pub withdraw_all : Env → List AgentTask → Store → Store × Outcome ApiError (Unit {0})
unfolding withdraw
withdraw_all env [] s = (s, ok tt)
withdraw_all env (t ∷ ts) s =
    let (s', r) = withdraw env t s in
    let rest = withdraw_all env ts s' in elim r [ raised e ↦ (s', raised e) | ok _ ↦ rest ]

-- `cancel_workflow_run`, for a run that was found, with the tasks of the run. Where the queue
-- fails, nothing is committed.
unfoldable pub cancel_workflow_run :
    Env → WorkflowRun → List AgentTask → Store → WorkflowRun × Store × Outcome ApiError (Unit {0})
unfolding withdraw_all
cancel_workflow_run env run tasks s =
    let (s', r) = withdraw_all env tasks s in
    if not (is_active run.status)
    then (run, s, raised (http 409 "Workflow Run is already terminal"))
    else if any (λ t. t.status == running) tasks
    then (
      run,
      s,
      raised (http 409 "running Runtime tasks must finish before this Run can be cancelled safely"),
    )
    else elim r [
      | raised e ↦ (run, record s { effects = s'.effects }, raised e)
      | ok _ ↦ (record run { status = RunStatus.cancelled; finished_at = some env.now }, s', ok tt)
    ]

-- `note or default`
abbrev or_note : Option String → String → String
or_note none d = d
or_note (some n) d = if n == "" then d else n

abbrev pub reviewed_task : ℕ → Bool → Option String → AgentTask → AgentTask
reviewed_task now approved note t = record t {
  status = if approved then succeeded else failed;
  error = if approved then none else some (or_note note "human review rejected");
  finished_at = some now;
  session = record t.session {
    status = if approved then SessionStatus.succeeded else SessionStatus.failed;
    output = some (or_note note (if approved then "approved" else "rejected"));
    finished_at = some now;
  };
}

-- `review_human_task`, for a row that was found and locked, up to its commit.
unfoldable pub review_human_task :
    Env → Bool → Option String → AgentTask → Store → Store × Outcome ApiError (Unit {0})
unfolding put_task replace_task change_execution
review_human_task env approved note t s =
    let t' = reviewed_task env.now approved note t in
    let stored =
      change_execution
        (λ x. record x {
          status = t'.session.status;
          output = if approved then t'.session.output else none;
          error = t'.error;
          finished_at = some env.now;
          duration_ms = some (duration_ms x.started_at env.now);
        })
        t (put_task t' s) in
    if not (t.status == human_review)
    then (s, raised (http 409 "task is not waiting for human review"))
    else (stored, ok tt)
