-- ===== src/Orchestrator/Liveness.antt =====
-- No deadlock: on a run of a checked workflow with no failed or cancelled child, where every child
-- is done or waits, a reconciliation hands out a task or puts one to review.
use hermes_agent_platform.Base.{
  ℕ, ◌<◌, ◌≡◌, ◌≢◌, ◌⊎◌, true, false, some, List, [], ◌∷◌, String, any, All, nat_eq, string_eq,
  option_eq,
}
use hermes_agent_platform.Tasks.{waiting_child, human_review, succeeded, task_status_eq, AgentTask}
use hermes_agent_platform.Orchestrator.{task_of_key, with_status, is_dead, has_status, Released}
use hermes_agent_platform.Orchestrator.Turns.{IsReady, lookups}
use hermes_agent_platform.Orchestrator.Progress.{Present, IsKnown}

abbrev pub In : AgentTask → List AgentTask → Type 0
In u [] = ⊥
In u (t ∷ ts) = (u ≡ t) ⊎ In u ts

-- Some child was handed out, or waits for a review.
abbrev pub Moved : Released → Type 0
Moved r = (r.changed ≢ []) ⊎ (any (has_status human_review) r.children ≡ true)

-- No dependency among `ks` failed or was cancelled.
abbrev Undead : List AgentTask → AgentTask → Type 0
Undead cs t = any (with_status is_dead) (lookups cs t.depends_on) ≡ false

-- Every child is done or waits for at least one dependency.
abbrev IsSettled : AgentTask → Type 0
IsSettled t = (t.status ≡ succeeded) ⊎ ((t.status ≡ waiting_child) × (t.depends_on ≢ []))

abbrev pub IsRanked : (String → ℕ) → AgentTask → Type 0
IsRanked r t = (k : String) × (t.node_key ≡ some k) × All (λ d. r d < r k) t.depends_on

-- The children of a run of a checked workflow, when nothing is left to work on.
pub record IsQuiet (cs : List AgentTask) : Type 0 where
  pub settled : All IsSettled cs
  pub known : IsKnown cs cs
  pub rank : String → ℕ
  pub descends : All (IsRanked rank) cs

abbrev Blocker : List AgentTask → (String → ℕ) → ℕ → Type 0
Blocker cs r m =
    (k : String) × (d : AgentTask) × (task_of_key k cs ≡ some d)
    × (d.status ≡ waiting_child)
    × (r k < m)

abbrev Candidate : List AgentTask → Type 0
Candidate cs = (u : AgentTask) × In u cs × (u.status ≡ waiting_child) × IsReady cs u

abbrev Facts : List AgentTask → (String → ℕ) → AgentTask → Type 0
Facts cs r t = IsSettled t × All (Present cs) t.depends_on × IsRanked r t
