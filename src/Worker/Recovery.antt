-- ===== src/Worker/Recovery.antt =====
-- `_recover`: backend/app/worker.py.
use hermes_agent_platform.Base.{
  ℕ, ◌-◌, Bool, false, ◌&&◌, Option, none, some, List, [], ◌∷◌, String, ◌==◌, if◌then◌else◌, filter,
  ltb, nat_eq, option_eq,
}
use hermes_agent_platform.Base.Outcome.{Outcome, ok, raised}
use hermes_agent_platform.Tasks.{
  running, retrying, failed, SessionStatus, AgentTask, ExecutionLog, Store, Env, put_task,
  replace_task, change_execution, duration_ms, call_enqueue, task_status_eq,
}
use hermes_agent_platform.Tasks.Queue.{QueueError}
use hermes_agent_platform.Worker.{done_task, is_claimable, session_succeeded}

-- One stale task in the loop of `_recover`.
abbrev pub recovered_task : ℕ → String → AgentTask → AgentTask
recovered_task now worker_id t =
    if session_succeeded t.session.status
    then done_task now worker_id t
    else if ltb t.attempt t.max_attempts
    then record t {
      status = retrying;
      worker_id = none;
      error = some "worker lease expired";
      session = record t.session { status = SessionStatus.queued };
    }
    else record t {
      status = failed;
      worker_id = none;
      error = some "worker lease expired";
      finished_at = some now;
      session = record t.session { status = SessionStatus.failed; finished_at = some now };
    }

abbrev pub recovered_execution : ℕ → AgentTask → ExecutionLog → ExecutionLog
recovered_execution now t x =
    if ltb t.attempt t.max_attempts
    then record x { status = SessionStatus.queued; error = some "worker lease expired" }
    else record x {
      status = SessionStatus.failed;
      error = some "worker lease expired";
      finished_at = some now;
      duration_ms = some (duration_ms x.started_at now);
    }

unfoldable pub recover_task : Env → String → AgentTask → Store → Store
unfolding put_task replace_task change_execution
recover_task env worker_id t s =
    let s' = put_task (recovered_task env.now worker_id t) s in
    if session_succeeded t.session.status
    then s'
    else change_execution (recovered_execution env.now t) t s'

-- `stale_running_tasks`
abbrev pub started_before : ℕ → Option ℕ → Bool
started_before cutoff none = false
started_before cutoff (some t) = ltb t cutoff

unfoldable pub stale_running_tasks : ℕ → ℕ → Store → List AgentTask
stale_running_tasks now stale_ns s =
    filter (λ t. t.status == running && started_before (now - stale_ns) t.started_at) s.tasks

unfoldable pub recover_all : Env → String → List AgentTask → Store → Store
unfolding recover_task
recover_all env worker_id [] s = s
recover_all env worker_id (t ∷ ts) s = recover_all env worker_id ts (recover_task env worker_id t s)

-- `for task in pending:`
unfoldable pub enqueue_all : Env → List AgentTask → Store → Store × Outcome QueueError (Unit {0})
unfolding call_enqueue
enqueue_all env [] s = (s, ok tt)
enqueue_all env (t ∷ ts) s =
    let (s', r) = call_enqueue env t s in
    let rest = enqueue_all env ts s' in elim r [ raised e ↦ (s', raised e) | ok _ ↦ rest ]

-- `_recover`; `select` is `pending_tasks`: the rows that can be claimed, the highest priority and
-- then the oldest first, at most 500.
unfoldable pub recover :
    (List AgentTask → List AgentTask)
    → Env
    → ℕ
    → String
    → Store
    → Store × Outcome QueueError (Unit {0})
unfolding stale_running_tasks recover_all enqueue_all
recover select env stale_ns worker_id s =
    let s' = recover_all env worker_id (stale_running_tasks env.now stale_ns s) s in
    enqueue_all env (select (filter (λ t. is_claimable t.status) s'.tasks)) s'
