-- ===== src/Orchestrator/Stall.antt =====
-- A run with a cancelled child: the orchestrator leaves it as it is, however often it looks.
use hermes_agent_platform.Base.{◌≡◌, ◌⊎◌, false, List, [], ◌∷◌, ◌==◌, All, nat_eq, option_eq}
use hermes_agent_platform.Base.Outcome.{Outcome}
use hermes_agent_platform.Tasks.{succeeded, cancelled, task_status_eq, AgentTask, Env}
use hermes_agent_platform.Orchestrator.Reconcile.{Texts, Reconciled}
use hermes_agent_platform.Orchestrator.Settle.{run_tasks, run_children}

-- A child that is over, but did not fail.
abbrev pub IsOver : AgentTask → Type 0
IsOver t = (t.status ≡ succeeded) ⊎ (t.status ≡ cancelled)

-- Ids are a primary key.
abbrev pub IsKeyed : List AgentTask → Type 0
IsKeyed [] = Unit
IsKeyed (t ∷ ts) = All (λ u. (u.id == t.id ≡ false) × (t.id == u.id ≡ false)) ts × IsKeyed ts

module _ (x : Texts) (env : Env) (r : Reconciled) (root : AgentTask) where
  abbrev tasks : List AgentTask
  tasks = run_tasks x env r root

  abbrev children : List AgentTask
  children = run_children x env r root
