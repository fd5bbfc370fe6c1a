-- ===== src/Worker/Interventions.antt =====
-- What the API does to a task's row: cancelling it, withdrawing it with its run, and reviewing it.
use hermes_agent_platform.Base.{
  refl, inl, inr, Bool, Bool-cases, Option, some, String, arith, ◌==◌, nat_eq,
}
use hermes_agent_platform.Tasks.{
  human_review, SessionStatus, duration_ms, AgentTask, Store, Env, put_task, call_remove,
  task_status_eq,
}
use hermes_agent_platform.Worker.Api.{
  cancel_task, is_queued, review_human_task, withdrawn_task, reviewed_task,
}
use hermes_agent_platform.Worker.Steps.{tasks_of_change}
use hermes_agent_platform.Worker.Attempts.{withdraws, reviews, ActsOn}

-- Cancelling a task leaves the rows as they are, or makes one move of the task's row and changes no
-- other.
pub cancel_task-ActsOn :
    (env : Env) (t : AgentTask) (s : Store) → ActsOn t s (cancel_task env t s).0
unfolding cancel_task
cancel_task-ActsOn env t s = elim (Bool-cases (is_queued t.status)) [
  | inr e ↦ rw (e, cancel_task) (inl refl)
  | inl e ↦ elim (Bool-cases env.queue_up) [
    | inr q ↦ inl (ground (arith, e, q))
    | inl q ↦
        let removed_store : Store = (call_remove env t s).0 in
        inr (
          0,
          withdrawn_task env.now t,
          withdraws env.now,
          ground (
            arith,
            e,
            q,
            tasks_of_change
                (λ x. record x {
                  status = SessionStatus.cancelled;
                  finished_at = some env.now;
                  duration_ms = some (duration_ms x.started_at env.now);
                })
                t (put_task (withdrawn_task env.now t) removed_store),
          ),
        )
  ]
]

-- Reviewing a task leaves the rows as they are, or makes one move of the task's row and changes no
-- other.
pub review_human_task-ActsOn :
    (env : Env) (approved : Bool) (note : Option String) (t : AgentTask) (s : Store)
    → ActsOn t s (review_human_task env approved note t s).0
unfolding review_human_task
review_human_task-ActsOn env approved note t s = elim (Bool-cases (t.status == human_review)) [
  | inr e ↦ rw e (inl refl)
  | inl e ↦ rw e (
      inr (
        0,
        reviewed_task env.now approved note t,
        reviews env.now approved note,
        tasks_of_change _ t (put_task (reviewed_task env.now approved note t) s),
      ))
]
