-- ===== src/Worker/Attempts.antt =====
-- A task is attempted at most `max_attempts` times, whatever the worker, the recovery, the
-- orchestrator and the API do to it, in whatever order.
use hermes_agent_platform.Base.{
  ℕ, ◌+◌, ◌≤◌, ◌<◌, ◌≡◌, refl, ap, ◌⊎◌, inl, inr, Bool, Bool-cases, true, false, Option, none,
  String, arith,
}
use hermes_agent_platform.Base.Outcome.{Outcome}
use hermes_agent_platform.Tasks.{
  TaskStatus, pending, waiting_child, human_review, retrying, SessionStatus, AgentSession,
  AgentTask, Store, Env, put_task, replace_task, task_status_eq,
}
use hermes_agent_platform.Tasks.Queue.{QueueError}
use hermes_agent_platform.Orchestrator.Turns.{cancelled_at}
use hermes_agent_platform.Worker.{
  is_claimable, claim, claimed_task, done_task, failed_task, retried_task, cancelled_task,
  finished_task, handle_failure, RunResult, returned, version_unavailable, run_failed,
  run_cancelled, finish, session_succeeded, is_cancelled,
}
use hermes_agent_platform.Worker.Recovery.{recovered_task, recovered_execution, recover_task}
use hermes_agent_platform.Worker.Api.{withdrawn_task, reviewed_task}
use hermes_agent_platform.Worker.Steps.{
  tasks_of_change, tasks_of_publish, tasks_of_failure, handle_failure_lem,
}

-- One change of a task's row, with the number of attempts that it begins.
pub data Move (t : AgentTask) : ℕ → AgentTask → Type 0 where
  claims : (now : ℕ) (w : String) → is_claimable t.status ≡ true → Move t 1 (claimed_task now w t)
  finds_done : (now : ℕ) (w : String) → Move t 0 (done_task now w t)
  finishes :
      (now : ℕ) (w : String) (session : AgentSession) → Move t 0 (finished_task now w session t)
  fails :
      (clip : String → String) (now : ℕ) (message : String)
      → Move t 0 (failed_task clip now message t)
  retries : (message : String) → t.attempt < t.max_attempts → Move t 0 (retried_task message t)
  cancels : (now : ℕ) → Move t 0 (cancelled_task now t)
  withdraws : (now : ℕ) → Move t 0 (withdrawn_task now t)
  recovers : (now : ℕ) (w : String) → Move t 0 (recovered_task now w t)
  reviews :
      (now : ℕ) (approved : Bool) (note : Option String)
      → Move t 0 (reviewed_task now approved note t)
  releases : t.status ≡ waiting_child → Move t 0 (record t { status = pending })
  submits : t.status ≡ waiting_child → Move t 0 (record t { status = human_review })
  blocks : (now : ℕ) → Move t 0 (cancelled_at now t)

-- A store after an operation on one row: the rows are the same, or that row made a move.
abbrev pub ActsOn : AgentTask → Store → Store → Type 0
ActsOn t s s' =
    (s'.tasks ≡ s.tasks)
    ⊎ ((n : ℕ) × (u : AgentTask) × Move t n u × (s'.tasks ≡ replace_task u s.tasks))

-- A claim leaves the rows as they are, or makes one move of the task's row and changes no other.
pub claim-ActsOn :
    (clip : String → String) (env : Env) (w : String) (active : Bool) (t : AgentTask) (s : Store)
    → ActsOn t s (claim clip env w active t s).0
unfolding claim
claim-ActsOn clip env w active t s = elim (Bool-cases (is_claimable t.status)) [
  | inr e ↦ rw e (inl refl)
  | inl e ↦ elim (Bool-cases (session_succeeded t.session.status)) [
    | inl d ↦ rw (e, d) (inr (0, done_task env.now w t, finds_done env.now w, refl))
    | inr d ↦ elim (Bool-cases active) [
      | inr a ↦
          rw (e, d, a)
            (inr (
              0,
              failed_task clip env.now "Agent is unavailable" t,
              fails clip env.now "Agent is unavailable",
              tasks_of_failure clip env "Agent is unavailable" t s,
            ))
      | inl a ↦
          rw (e, d, a)
            (inr (
              1,
              claimed_task env.now w t,
              claims env.now w e,
              tasks_of_change
                  (λ x. record x {
                    status = SessionStatus.running;
                    started_at = env.now;
                    error = none;
                  })
                  t (put_task (claimed_task env.now w t) s),
            ))
    ]
  ]
]

failure-ActsOn :
    (clip : String → String) (env : Env) (message : String) (t : AgentTask) (s : Store)
    → ActsOn t s (handle_failure clip env message t s).0
failure-ActsOn clip env message t s = elim (handle_failure_lem clip env message t s) [
  | inl (e, h) ↦ inl (ap (λ (p : Store × Outcome QueueError (Unit {0})). p.0.tasks) h)
  | inr (inl (e, l, h, r)) ↦ inr (0, retried_task message t, retries message l, h)
  | inr (inr (e, l, h, r)) ↦
      inr (0, failed_task clip env.now message t, fails clip env.now message, h)
]

-- Whatever the run of the Agent ended in, the rows are afterwards as they were, or the task's row
-- made one move and no other changed.
pub finish-ActsOn :
    (clip : String → String) (env : Env) (w : String) (r : RunResult) (t : AgentTask) (s : Store)
    → ActsOn t s (finish clip env w r t s).0
unfolding finish
finish-ActsOn clip env w (returned seen session) t s = elim (Bool-cases (is_cancelled seen)) [
  | inl e ↦ rw e (inl refl)
  | inr e ↦ rw e (
      inr (
        0,
        finished_task env.now w session t,
        finishes env.now w session,
        tasks_of_publish env (finished_task env.now w session t)
            (put_task (finished_task env.now w session t) s),
      ))
]
finish-ActsOn clip env w (version_unavailable message) t s = inr (
  0,
  failed_task clip env.now message t,
  fails clip env.now message,
  tasks_of_failure clip env message t s,
)
finish-ActsOn clip env w (run_failed message) t s = failure-ActsOn clip env message t s
finish-ActsOn clip env w run_cancelled t s = elim (Bool-cases (is_cancelled t.status)) [
  | inl e ↦ rw e (inl refl)
  | inr e ↦ rw e (inr (0, cancelled_task env.now t, cancels env.now, refl))
]

-- The recovery of a stale task leaves the rows as they are, or makes one move of its row and
-- changes no other.
pub recover_task-ActsOn :
    (env : Env) (w : String) (t : AgentTask) (s : Store) → ActsOn t s (recover_task env w t s)
unfolding recover_task
recover_task-ActsOn env w t s = inr (
  0,
  recovered_task env.now w t,
  recovers env.now w,
  ground (
    arith,
    tasks_of_change (recovered_execution env.now t) t (put_task (recovered_task env.now w t) s),
  ),
)

-- A task that can still be attempted has attempts left.
abbrev pub can_run : TaskStatus → Bool
can_run pending = true
can_run retrying = true
can_run waiting_child = true
can_run human_review = true
can_run _ = false

pub record IsBounded (t : AgentTask) : Type 0 where
  pub within : t.attempt ≤ t.max_attempts
  pub left : can_run t.status ≡ true → t.attempt < t.max_attempts

-- Moves one after the other, and how many attempts they begin.
pub data Moves (t : AgentTask) : ℕ → AgentTask → Type 0 where
  here : Moves t 0 t
  after : {m n k : ℕ} {u v : AgentTask} → Moves t m u → Move u n v → k ≡ m + n → Moves t k v
