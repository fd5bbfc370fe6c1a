-- ===== src/Worker/Steps.antt =====
-- What the worker's operations do to one task: none takes a task twice, and a failed run leads to
-- one more attempt or to the end.
use hermes_agent_platform.Base.{◌≤◌, ◌<◌, ◌≡◌, ◌∙◌, ◌≢◌, ◌⊎◌, none, some, String, nat_eq, arith}
use hermes_agent_platform.Base.Outcome.{ok}
use hermes_agent_platform.Tasks.{
  cancelled, SessionStatus, AgentTask, ExecutionLog, call_enqueue, Store, Env, put_task,
  replace_task, task_status_eq, change_execution,
}
use hermes_agent_platform.Worker.{
  failed_task, retried_task, handle_failure, terminal_failure, failed_execution, publish_result,
}

pub tasks_of_change :
    (f : ExecutionLog → ExecutionLog) (t : AgentTask) (s : Store)
    → (change_execution f t s).tasks ≡ s.tasks
unfolding change_execution
tasks_of_change f t s = ground arith

pub tasks_of_publish :
    (env : Env) (t : AgentTask) (s : Store) → (publish_result env t s).tasks ≡ s.tasks
unfolding publish_result
tasks_of_publish env t s = ground arith

module _ (clip : String → String) (env : Env) (message : String) (t : AgentTask) (s : Store) where
  pub tasks_of_failure :
      (terminal_failure clip env message t s).tasks
      ≡ replace_task (failed_task clip env.now message t) s.tasks
  unfolding terminal_failure
  tasks_of_failure =
      tasks_of_publish env (failed_task clip env.now message t) (
        change_execution (failed_execution clip env.now message) t
          (put_task (failed_task clip env.now message t) s))
      ∙ tasks_of_change (failed_execution clip env.now message) t
          (put_task (failed_task clip env.now message t) s)

  pub handle_failure_lem :
      ((t.status ≡ cancelled) × (handle_failure clip env message t s ≡ (s, ok tt)))
      ⊎ ((t.status ≢ cancelled)
          × (t.attempt < t.max_attempts)
          × ((handle_failure clip env message t s).0.tasks
              ≡ replace_task (retried_task message t) s.tasks)
          × ((handle_failure clip env message t s).1 ≡ (call_enqueue env t s).1))
      ⊎ ((t.status ≢ cancelled)
          × (t.max_attempts ≤ t.attempt)
          × ((handle_failure clip env message t s).0.tasks
              ≡ replace_task (failed_task clip env.now message t) s.tasks)
          × ((handle_failure clip env message t s).1 ≡ ok tt))
  unfolding handle_failure
  handle_failure_lem = ground (
    arith,
    tasks_of_failure,
    tasks_of_change
        (λ x. record x { status = SessionStatus.queued; error = some message; finished_at = none })
        t (put_task (retried_task message t) s),
  )
