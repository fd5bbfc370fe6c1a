-- ===== src/Orchestrator/Settle.antt =====
-- The second half of `reconcile_run`: what becomes of the run and of the manager's task.
use hermes_agent_platform.Base.{
  is_empty, ◌≡◌, ◌⊎◌, true, false, none, some, List, find, any, all, arith, nat_eq, option_eq,
}
use hermes_agent_platform.Runs.{RunStatus}
use hermes_agent_platform.Tasks.{
  waiting_child, human_review, succeeded, task_status_eq, AgentTask, Env,
}
use hermes_agent_platform.Orchestrator.{list_run_tasks, is_root, children_of, has_status}
use hermes_agent_platform.Orchestrator.Reconcile.{Texts, Reconciled, settle_phase}

module _ (x : Texts) (env : Env) (r : Reconciled) (root : AgentTask) where
  abbrev pub run_tasks : List AgentTask
  run_tasks = list_run_tasks r.run.id r.store

  abbrev pub run_children : List AgentTask
  run_children = children_of root run_tasks

  -- The second half of a reconciliation, with `root` as the run's root task, changes no task and
  -- calls no queue unless the root waits, no child is in review, there are children, and every one
  -- of them has succeeded.
  pub settle_waits :
      find is_root run_tasks ≡ some root
      → ((settle_phase x env r).0.store ≡ r.store)
        ⊎ ((root.status ≡ waiting_child)
            × (any (has_status human_review) run_children ≡ false)
            × (is_empty run_children ≡ false)
            × (all (has_status succeeded) run_children ≡ true))
  unfolding settle_phase
  settle_waits h = ground (arith, h)

  -- After the second half of a reconciliation, with `root` as the run's root task, the run has
  -- succeeded only if the root has, and then it has the root's output and no error.
  pub settle_succeeds :
      find is_root run_tasks ≡ some root
      → (settle_phase x env r).0.run.status ≡ RunStatus.succeeded
      → (root.status ≡ succeeded)
        × ((settle_phase x env r).0.run.output ≡ root.session.output)
        × ((settle_phase x env r).0.run.error ≡ none)
  unfolding settle_phase
  settle_succeeds h e = ground (arith, h)
