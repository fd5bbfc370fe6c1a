-- ===== src/Orchestrator/Submit/Known.antt =====
-- A checked workflow graph carries over to the children of a submitted run: every dependency is a
-- child, and the dependencies are ranked below the child that waits for them.
use hermes_agent_platform.Base.{
  ℕ, ◌<◌, ◌≡◌, sym, ap, ◌∙◌, false, some, List, [], ◌∷◌, String, ◌==◌, find, All, All₂, All-map,
  arith, string_eq, nat_eq, option_eq, inl, inr, Bool-cases, Option-cases, eq_of_==,
}
use mathlib.Core.Path.{subst}
use hermes_agent_platform.Base.Outcome.{ok}
use hermes_agent_platform.Workflow.{WorkflowNodeSpec}
use hermes_agent_platform.Workflow.Visit.{Marked}
use hermes_agent_platform.Workflow.Keys.{node_keys}
use hermes_agent_platform.Workflow.Acyclic.{IsDag}
use hermes_agent_platform.Tasks.{AgentTask, Env}
use hermes_agent_platform.Orchestrator.{list_run_tasks, is_root, children_of, task_of_key}
use hermes_agent_platform.Orchestrator.Progress.{Present, IsKnown}
use hermes_agent_platform.Orchestrator.Liveness.{IsRanked}
use hermes_agent_platform.Orchestrator.Submit.{Team, MultiAgentRunRequest, Calls, Draft}
use hermes_agent_platform.Orchestrator.Submit.Runs.{Submitted, submit_workflow_run}
use hermes_agent_platform.Orchestrator.Submit.Children.{IsChildOf, filter_children}
use hermes_agent_platform.Orchestrator.Submit.Checked.{submit_workflow_run-IsRunOf}

-- No key is empty, as the pattern of `WorkflowNodeSpec.key` has it.
abbrev pub IsNamed : WorkflowNodeSpec → Type 0
IsNamed n = (n.key == "") ≡ false

named_key :
    (k : String) (ns : List WorkflowNodeSpec)
    → All IsNamed ns
    → Marked (node_keys ns) k
    → (k == "") ≡ false
named_key k [] h m = absurd (cc m)
named_key k (n ∷ ns) h m = elim (Bool-cases (k == n.key)) [
  | inl e ↦ subst (λ j. (j == "") ≡ false) (sym (eq_of_== k n.key e)) h.0
  | inr e ↦ named_key k ns h.1 (rw e at m)
]

Present-cons :
    (k : String) (t : AgentTask) (ts : List AgentTask) → Present ts k → Present (t ∷ ts) k
unfolding task_of_key
Present-cons k t ts p = (p.0, ground (arith, p.1), tt)

Present-head :
    (k : String) (t : AgentTask) (ts : List AgentTask)
    → t.node_key ≡ some k
    → (k == "") ≡ false
    → Present (t ∷ ts) k
unfolding task_of_key
Present-head k t ts e n = elim (Option-cases (task_of_key k ts)) [
  | inl a ↦ (t, ground (arith, a, e, n), tt)
  | inr (u, a) ↦ (u, ground (arith, a), tt)
]

Present-node :
    (run_id root : ℕ) (k : String) (ns : List WorkflowNodeSpec) (ts : List AgentTask)
    → All₂ (IsChildOf run_id root) ns ts
    → (k == "") ≡ false
    → Marked (node_keys ns) k
    → Present ts k
Present-node run_id root k [] ts h n m = absurd (cc m)
Present-node run_id root k (x ∷ ns) [] h n m = absurd h.0
Present-node run_id root k (x ∷ ns) (t ∷ ts) h n m = elim (Bool-cases (k == x.key)) [
  | inl e ↦ Present-head k t ts (h.0.0 ∙ ap some (sym (eq_of_== k x.key e))) n
  | inr e ↦ Present-cons k t ts (Present-node run_id root k ns ts h.1 n (rw e at m))
]

-- A fact of every node's dependencies holds of every child's.
over_children :
    (P : WorkflowNodeSpec → Type 0) (Q : AgentTask → Type 0) (run_id root : ℕ)
    (ns : List WorkflowNodeSpec) (ts : List AgentTask)
    → ((n : WorkflowNodeSpec) (t : AgentTask) → IsChildOf run_id root n t → P n → Q t)
    → All₂ (IsChildOf run_id root) ns ts
    → All P ns
    → All Q ts
over_children P Q run_id root [] [] f h p = tt
over_children P Q run_id root [] (t ∷ ts) f h p = absurd h.0
over_children P Q run_id root (n ∷ ns) [] f h p = absurd h.0
over_children P Q run_id root (n ∷ ns) (t ∷ ts) f h p =
    (f n t h.0 p.0, over_children P Q run_id root ns ts f h.1 p.1)

module _ (run_id root : ℕ) (ns : List WorkflowNodeSpec) (ts : List AgentTask) (dag : IsDag ns)
    (named : All IsNamed ns) (each : All₂ (IsChildOf run_id root) ns ts) where
  children-IsKnown : IsKnown ts ts
  children-IsKnown =
      over_children (λ n. All (Marked (node_keys ns)) n.depends_on)
        (λ t. All (Present ts) t.depends_on) run_id root ns ts
        (λ n t h m. subst (All (Present ts)) (sym h.1) (
          All-map (Marked (node_keys ns)) (Present ts)
            (λ k marked. Present-node run_id root k ns ts each (named_key k ns named marked) marked)
            n.depends_on m))
        each dag.known

  children-IsRanked : All (IsRanked dag.rank) ts
  children-IsRanked =
      over_children (λ n. All (λ d. dag.rank d < dag.rank n.key) n.depends_on) (IsRanked dag.rank)
        run_id root ns ts
        (λ n t h below.
          (n.key, h.0, subst (All (λ d. dag.rank d < dag.rank n.key)) (sym h.1) below))
        each dag.descends

-- A submission of a workflow whose graph is directed and acyclic, with keys that are not empty, for
-- a run whose identifier no task has yet: when it ends without an error, the orchestrator finds the
-- root of the run and its children, and every dependency of a child is the key of a child and
-- ranked below it.
pub submit_workflow_run-IsKnown :
    (c : Calls) (env : Env) (team : Team) (workflow_id : ℕ) (nodes : List WorkflowNodeSpec)
    (payload : MultiAgentRunRequest) (d : Draft) (r : Submitted)
    → IsDag nodes
    → All IsNamed nodes
    → list_run_tasks d.fresh d.store ≡ []
    → submit_workflow_run c env team workflow_id nodes payload d ≡ (r, ok tt)
    → (root : AgentTask) × (cs : List AgentTask) × (find is_root
          (list_run_tasks d.fresh r.draft.store)
        ≡ some root)
      × (children_of root (list_run_tasks d.fresh r.draft.store) ≡ cs)
      × IsKnown cs cs
      × ((rank : String → ℕ) × All (IsRanked rank) cs)
submit_workflow_run-IsKnown c env team workflow_id nodes payload d r dag named h e =
    let (q, _) = submit_workflow_run-IsRunOf c env team workflow_id nodes payload d r h e in
    let cs = q.children in
    (
      q.root,
      cs,
      ground (arith, q.listed, q.top),
      ap (children_of q.root) q.listed
          ∙ ground (
            arith,
            q.top,
            filter_children (λ t. t.parent_task_id == some q.root.id) d.fresh q.root.id nodes cs
                (λ t p _. ground (arith, p)) q.each,
          ),
      children-IsKnown d.fresh q.root.id nodes cs dag named q.each,
      (dag.rank, children-IsRanked d.fresh q.root.id nodes cs dag named q.each),
    )
