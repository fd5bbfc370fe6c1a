-- ===== src/Orchestrator/Submit/Children.antt =====
-- The tasks of a submitted run are those of its nodes, and what the check of the workflow's graph
-- found of the nodes holds of the tasks.
use hermes_agent_platform.Base.{
  ℕ, ◌+◌, ◌≡◌, refl, sym, ap, ◌∙◌, ◌≢◌, ◌⊎◌, Bool, true, Option, none, some, List, [], ◌∷◌, ◌++◌,
  String, filter, All₂, arith, string_eq, nat_eq, option_eq,
}
use mathlib.Core.Path.{subst}
use mathlib.Core.List.{append_assoc, append-nil}
use hermes_agent_platform.Base.Dict.{Dict, lookup}
use hermes_agent_platform.Base.Outcome.{Outcome, ok, raised, ◌>>=◌}
use hermes_agent_platform.Workflow.{human_approval, WorkflowNodeSpec}
use hermes_agent_platform.Runs.{WorkflowRun}
use hermes_agent_platform.Tasks.{
  TaskStatus, waiting_child, human_review, pending, AgentTask, Store, Env, call_enqueue, publish,
}
use hermes_agent_platform.Orchestrator.Reconcile.{hand_out}
use hermes_agent_platform.Orchestrator.Submit.{
  TeamAgent, key_error, MultiAgentRunRequest, Calls, SubmitError, Draft, Node, task_row, new_task,
  create_task, add_task, add_tasks, initial_status, node_tasks,
}

tasks_of_enqueue :
    (env : Env) (t : AgentTask) (s : Store) → (call_enqueue env t s).0.tasks ≡ s.tasks
unfolding call_enqueue
tasks_of_enqueue env t s = ground arith

pub tasks_of_hand_out :
    (env : Env) (root : AgentTask) (ts : List AgentTask) (s : Store)
    → (hand_out env root ts s).0.tasks ≡ s.tasks
unfolding hand_out publish
tasks_of_hand_out env root [] s = refl
tasks_of_hand_out env root (t ∷ ts) s = ground (
  arith,
  tasks_of_enqueue env t s,
  tasks_of_hand_out env root ts (
      publish env
        (record {
          from_agent = root.agent_id;
          to_agent = t.agent_id;
          message_type = hermes_agent_platform.Tasks.MessageType.task;
          task_id = some t.id;
        })
        (call_enqueue env t s).0),
)

module _ (c : Calls) (now : ℕ) (run : WorkflowRun) (payload : MultiAgentRunRequest) where
  -- The row of a node's task, whatever its identifier.
  abbrev pub IsRowOf : ℕ → Node → AgentTask → Type 0
  IsRowOf root n t = t ≡ task_row (new_task c now run payload (some root) t.id n)

  -- What the loop that creates the children has done, if it ended.
  abbrev pub Added : ℕ → List Node → Draft → Draft × Outcome SubmitError (List AgentTask) → Type 0
  Added root ns d (d', raised e) = Unit
  Added root ns d (d', ok ts) = (d'.store.tasks ≡ d.store.tasks ++ ts) × All₂ (IsRowOf root) ns ts

  Added-cons :
      (root : ℕ) (n : Node) (ns : List Node) (d d' : Draft) (t : AgentTask)
      (p : Draft × Outcome SubmitError (List AgentTask))
      → d'.store.tasks ≡ d.store.tasks ++ t ∷ []
      → IsRowOf root n t
      → Added root ns d' p
      → Added root (n ∷ ns) d (p.0, p.1 >>= λ ts. ok (t ∷ ts))
  Added-cons root n ns d d' t (d'', raised e) h r a = tt
  Added-cons root n ns d d' t (d'', ok ts) h r a =
      (a.0 ∙ ap (λ us. us ++ ts) h ∙ append_assoc d.store.tasks (t ∷ []) ts, (r, a.1))

  pub add_task_lem :
      (parent : Option ℕ) (n : Node) (d d' : Draft) (t : AgentTask)
      → add_task c now run payload parent n d ≡ (d', ok t)
      → (d'.store.tasks ≡ d.store.tasks ++ t ∷ [])
        × (t ≡ task_row (new_task c now run payload parent t.id n))
        × (t.id ≡ d.fresh)
        × (d'.fresh ≡ d.fresh + 1)
  unfolding add_task create_task
  add_task_lem parent n d d' t h = ground (arith, h)

  Added-step :
      (root : ℕ) (n : Node) (ns : List Node) (d : Draft) (q : Draft × Outcome SubmitError AgentTask)
      → add_task c now run payload (some root) n d ≡ q
      → Added root ns q.0 (add_tasks c now run payload root ns q.0)
      → Added root (n ∷ ns) d (
          let (d'', rest) = add_tasks c now run payload root ns q.0 in
          elim q.1 [ raised e ↦ (q.0, raised e) | ok t ↦ (d'', rest >>= λ ts. ok (t ∷ ts)) ])
  Added-step root n ns d (d', raised e) h a = tt
  Added-step root n ns d (d', ok t) h a =
      let (rows, row, _, _) = add_task_lem (some root) n d d' t h in
      Added-cons root n ns d d' t (add_tasks c now run payload root ns d') rows row a

  pub add_tasks-Added :
      (root : ℕ) (ns : List Node) (d : Draft)
      → Added root ns d (add_tasks c now run payload root ns d)
  unfolding add_tasks
  add_tasks-Added root [] d = (sym (append-nil d.store.tasks), tt)
  add_tasks-Added root (n ∷ ns) d =
      let q = add_task c now run payload (some root) n d in
      Added-step root n ns d q refl (add_tasks-Added root ns q.0)

-- The argument for a node, and the row that comes of it.
abbrev pub IsFor : WorkflowNodeSpec → Node → Type 0
IsFor n x =
    (x.key ≡ n.key)
    × (x.depends_on ≡ n.depends_on)
    × (x.node_type ≡ n.node_type)
    × (x.initial_status ≡ initial_status n)

-- How the task of a node starts: an approval on which nothing waits is in review, a node with
-- dependencies waits, and any other is pending.
abbrev pub IsStart : WorkflowNodeSpec → TaskStatus → Type 0
IsStart n s =
    ((n.depends_on ≢ []) × (s ≡ waiting_child))
    ⊎ ((n.depends_on ≡ []) × (n.node_type ≡ human_approval) × (s ≡ human_review))
    ⊎ ((n.depends_on ≡ []) × (n.node_type ≢ human_approval) × (s ≡ pending))

initial_status-IsStart : (n : WorkflowNodeSpec) → IsStart n (initial_status n)
unfolding initial_status
initial_status-IsStart n = ground arith

abbrev pub IsChildOf : ℕ → ℕ → WorkflowNodeSpec → AgentTask → Type 0
IsChildOf run_id root n t =
    (t.node_key ≡ some n.key)
    × (t.depends_on ≡ n.depends_on)
    × (t.node_type ≡ n.node_type)
    × IsStart n t.status
    × (t.attempt ≡ 0)
    × (t.parent_task_id ≡ some root)
    × (t.workflow_run_id ≡ some run_id)

abbrev pub Resolved : List WorkflowNodeSpec → Outcome SubmitError (List Node) → Type 0
Resolved ns (raised e) = Unit
Resolved ns (ok xs) = All₂ IsFor ns xs

Resolved-cons :
    (n : WorkflowNodeSpec) (ns : List WorkflowNodeSpec) (x : Node)
    (r : Outcome SubmitError (List Node))
    → IsFor n x
    → Resolved ns r
    → Resolved (n ∷ ns) (r >>= λ rest. ok (x ∷ rest))
Resolved-cons n ns x (raised e) h k = tt
Resolved-cons n ns x (ok xs) h k = (h, k)

pub node_tasks-Resolved :
    (d : Dict String TeamAgent) (ns : List WorkflowNodeSpec) → Resolved ns (node_tasks d ns)
unfolding node_tasks
node_tasks-Resolved d [] = tt
node_tasks-Resolved d (n ∷ ns) =
    elim (lookup n.key d)
      as (λ o. Resolved (n ∷ ns) (elim o [
        | none ↦ raised key_error
        | some a ↦
            let task : Node = record {
              agent = a;
              key = n.key;
              node_type = n.node_type;
              role = n.name;
              initial_status = initial_status n;
              depends_on = n.depends_on;
            } in
            node_tasks d ns >>= λ rest. ok (task ∷ rest)
      ])) [
        | none ↦ tt
        | some a ↦
            Resolved-cons n ns _ (node_tasks d ns) (refl, refl, refl, refl)
              (node_tasks-Resolved d ns)
      ]

pub children_of_nodes :
    (c : Calls) (now : ℕ) (run : WorkflowRun) (payload : MultiAgentRunRequest) (root : ℕ)
    (ns : List WorkflowNodeSpec) (xs : List Node) (ts : List AgentTask)
    → All₂ IsFor ns xs
    → All₂ (IsRowOf c now run payload root) xs ts
    → All₂ (IsChildOf run.id root) ns ts
children_of_nodes c now run payload root [] [] [] h k = tt
children_of_nodes c now run payload root [] [] (t ∷ ts) h k = k
children_of_nodes c now run payload root [] (x ∷ xs) ts h k = absurd h.0
children_of_nodes c now run payload root (n ∷ ns) [] ts h k = absurd h.0
children_of_nodes c now run payload root (n ∷ ns) (x ∷ xs) [] h k = absurd k.0
children_of_nodes c now run payload root (n ∷ ns) (x ∷ xs) (t ∷ ts) h k =
    let starts : t.status ≡ initial_status n = ground (arith, h.0, k.0) in
    (
      (
        ground (arith, h.0, k.0),
        ground (arith, h.0, k.0),
        ground (arith, h.0, k.0),
        subst (IsStart n) (sym starts) (initial_status-IsStart n),
        ap (λ (u : AgentTask). u.attempt) k.0,
        ap (λ (u : AgentTask). u.parent_task_id) k.0,
        ap (λ (u : AgentTask). u.workflow_run_id) k.0,
      ),
      children_of_nodes c now run payload root ns xs ts h.1 k.1,
    )

pub filter-append :
    (p : AgentTask → Bool) (ts us : List AgentTask)
    → filter p (ts ++ us) ≡ filter p ts ++ filter p us
filter-append p [] us = refl
filter-append p (t ∷ ts) us = ground (arith, filter-append p ts us)

-- A test that the rows of a run's children pass.
pub filter_children :
    (p : AgentTask → Bool) (run_id root : ℕ) (ns : List WorkflowNodeSpec) (ts : List AgentTask)
    → ((t : AgentTask)
        → t.parent_task_id ≡ some root
        → t.workflow_run_id ≡ some run_id
        → p t ≡ true)
    → All₂ (IsChildOf run_id root) ns ts
    → filter p ts ≡ ts
filter_children p run_id root [] [] f h = refl
filter_children p run_id root [] (t ∷ ts) f h = absurd h.0
filter_children p run_id root (n ∷ ns) [] f h = absurd h.0
filter_children p run_id root (n ∷ ns) (t ∷ ts) f h =
    ground (arith, f t h.0.5 h.0.6, filter_children p run_id root ns ts f h.1)
