-- ===== src/Orchestrator/Submit/Checked.antt =====
-- What `submit_workflow_run` leaves in the database for a workflow whose graph was checked.
use hermes_agent_platform.Base.{
  ℕ, ◌+◌, ◌≡◌, refl, ap, ◌∙◌, Bool, true, none, some, List, [], ◌∷◌, ◌++◌, String, ◌==◌, filter,
  All₂, arith, string_eq, nat_eq, option_eq, if◌then◌else◌, is_empty,
}
use mathlib.Core.Path.{subst}
use hermes_agent_platform.Base.Dict.{Dict}
use hermes_agent_platform.Base.Outcome.{Outcome, ok, raised, ◌>>=◌}
use hermes_agent_platform.Workflow.{WorkflowNodeSpec}
use hermes_agent_platform.Runs.{WorkflowRun, create_run, is_active}
use hermes_agent_platform.Tasks.{AgentTask, Store, Env, waiting_child, pending, task_status_eq}
use hermes_agent_platform.Orchestrator.{list_run_tasks, has_status}
use hermes_agent_platform.Orchestrator.Reconcile.{hand_out}
use hermes_agent_platform.Orchestrator.Submit.{
  TeamAgent, no_nodes, Team, MultiAgentRunRequest, Calls, SubmitError, Draft, Node, add_task,
  add_tasks, node_tasks, resolve_agents, members_from,
}
use hermes_agent_platform.Orchestrator.Submit.Runs.{
  Submitted, manager_node, start_run, submit_nodes, submit_workflow_run, run_status,
}
use hermes_agent_platform.Orchestrator.Submit.Children.{
  Added, add_task_lem, add_tasks-Added, IsFor, IsChildOf, Resolved, node_tasks-Resolved,
  children_of_nodes, filter-append, filter_children, tasks_of_hand_out,
}

-- The rows of a run: the manager's task, which waits, and a child for each node, in their order.
pub record IsRunOf (nodes : List WorkflowNodeSpec) (run_id : ℕ) (s : Store) : Type 0 where
  pub root : AgentTask
  pub children : List AgentTask
  pub listed : list_run_tasks run_id s ≡ root ∷ children
  pub top : root.parent_task_id ≡ none
  pub waits : root.status ≡ waiting_child
  pub each : All₂ (IsChildOf run_id root.id) nodes children

listed_rows :
    (nodes : List WorkflowNodeSpec) (run_id : ℕ) (s s' : Store) (root : AgentTask)
    (ts : List AgentTask)
    → list_run_tasks run_id s ≡ []
    → s'.tasks ≡ (s.tasks ++ root ∷ []) ++ ts
    → root.workflow_run_id ≡ some run_id
    → All₂ (IsChildOf run_id root.id) nodes ts
    → list_run_tasks run_id s' ≡ root ∷ ts
unfolding list_run_tasks
listed_rows nodes run_id s s' root ts none_yet rows own each =
    let p : AgentTask → Bool = λ t. t.workflow_run_id == some run_id in
    ap (filter p) rows
    ∙ filter-append p (s.tasks ++ root ∷ []) ts
    ∙ ap (λ us. us ++ filter p ts) (filter-append p s.tasks (root ∷ []))
    ∙ ground (
      arith,
      none_yet,
      own,
      filter_children p run_id root.id nodes ts (λ t _ e. ground (arith, e)) each,
    )

-- What a submission has done, if it ended.
abbrev pub Started : List WorkflowNodeSpec → ℕ → Submitted × Outcome SubmitError (Unit {0}) → Type 0
Started nodes run_id (r, raised e) = Unit
Started nodes run_id (r, ok u) =
    IsRunOf nodes run_id r.draft.store
    × ((run : WorkflowRun) × (r.run ≡ some run) × (run.id ≡ run_id) × (is_active run.status ≡ true))

IsRunOf-moved :
    (nodes : List WorkflowNodeSpec) (run_id : ℕ) (s s' : Store)
    → s'.tasks ≡ s.tasks
    → IsRunOf nodes run_id s
    → IsRunOf nodes run_id s'
unfolding list_run_tasks
IsRunOf-moved nodes run_id s s' same h = record {
  root = h.root;
  children = h.children;
  listed = ap (filter (λ (t : AgentTask). t.workflow_run_id == some run_id)) same ∙ h.listed;
  top = h.top;
  waits = h.waits;
  each = h.each;
}

active_run_status : (nodes : List WorkflowNodeSpec) → is_active (run_status nodes) ≡ true
active_run_status nodes = ground arith

Started-ok :
    (nodes : List WorkflowNodeSpec) (run_id : ℕ) (p : Submitted × Outcome SubmitError (Unit {0}))
    (run : WorkflowRun)
    → p.0.run ≡ some run
    → run.id ≡ run_id
    → is_active run.status ≡ true
    → IsRunOf nodes run_id p.0.draft.store
    → Started nodes run_id p
Started-ok nodes run_id (r, raised e) run h i a w = tt
Started-ok nodes run_id (r, ok u) run h i a w = (w, (run, h, i, a))

start_run-Started :
    (env : Env) (root : AgentTask) (ts : List AgentTask) (nodes : List WorkflowNodeSpec)
    (run : WorkflowRun) (d : Draft)
    → IsRunOf nodes run.id d.store
    → Started nodes run.id (start_run env root ts (run_status nodes) run d)
unfolding start_run
start_run-Started env root ts nodes run d h =
    let r : WorkflowRun = record run { status = run_status nodes; started_at = some env.now } in
    Started-ok nodes run.id (start_run env root ts (run_status nodes) run d) r refl refl
      (active_run_status nodes)
      (IsRunOf-moved nodes run.id d.store (hand_out env root ts d.store).0
        (tasks_of_hand_out env root ts d.store) h)

module _ (c : Calls) (env : Env) (team : Team) (workflow_id : ℕ) (nodes : List WorkflowNodeSpec)
    (xs : List Node) (payload : MultiAgentRunRequest) (d : Draft)
    (none_yet : list_run_tasks d.fresh d.store ≡ []) (args : All₂ IsFor nodes xs) where
  abbrev new_run : WorkflowRun
  new_run = create_run d.fresh team.id (some workflow_id) payload.session_id payload.input

  rows-IsRunOf :
      (d' d'' : Draft) (root : AgentTask) (ts : List AgentTask)
      → add_task c env.now new_run payload none
          (manager_node team)
          (record d { fresh = d.fresh + 1 })
        ≡ (d', ok root)
      → Added c env.now new_run payload root.id xs d' (d'', ok ts)
      → IsRunOf nodes d.fresh d''.store
  unfolding create_run
  rows-IsRunOf d' d'' root ts h a =
      let (rows, row, _, _) =
        add_task_lem c env.now new_run payload none (manager_node team)
          (record d { fresh = d.fresh + 1 }) d' root h in
      let each : All₂ (IsChildOf d.fresh root.id) nodes ts =
        children_of_nodes c env.now new_run payload root.id nodes xs ts args a.1 in
      record {
        root = root;
        children = ts;
        listed =
            listed_rows nodes d.fresh d.store d''.store root ts none_yet
              (a.0 ∙ ap (λ us. us ++ ts) rows) (ap (λ (t : AgentTask). t.workflow_run_id) row) each;
        top = ap (λ (t : AgentTask). t.parent_task_id) row;
        waits = ap (λ (t : AgentTask). t.status) row;
        each = each;
      }

  with_children :
      (d' : Draft) (root : AgentTask) (q : Draft × Outcome SubmitError (List AgentTask))
      → add_task c env.now new_run payload none
          (manager_node team)
          (record d { fresh = d.fresh + 1 })
        ≡ (d', ok root)
      → Added c env.now new_run payload root.id xs d' q
      → Started nodes d.fresh (elim q.1 [
        | raised e ↦ (record { run = some new_run; draft = q.0 }, raised e)
        | ok children ↦
            start_run env root (filter (has_status pending) children) (run_status nodes) new_run q.0
      ])
  unfolding create_run
  with_children d' root (d'', raised e) h a = tt
  with_children d' root (d'', ok ts) h a =
      start_run-Started env root (filter (has_status pending) ts) nodes new_run d''
        (rows-IsRunOf d' d'' root ts h a)

  with_root :
      (q : Draft × Outcome SubmitError AgentTask)
      → add_task c env.now new_run payload none
          (manager_node team)
          (record d { fresh = d.fresh + 1 })
        ≡ q
      → Started nodes d.fresh (elim q.1 [
        | raised e ↦ (record { run = some new_run; draft = q.0 }, raised e)
        | ok root ↦
            let (d'', r) = add_tasks c env.now new_run payload root.id xs q.0 in
            elim r [
              | raised e ↦ (record { run = some new_run; draft = d'' }, raised e)
              | ok children ↦
                  start_run env root
                    (filter (has_status pending) children)
                    (run_status nodes)
                    new_run
                    d''
            ]
      ])
  with_root (d', raised e) h = tt
  with_root (d', ok root) h =
      with_children d' root (add_tasks c env.now new_run payload root.id xs d') h
        (add_tasks-Added c env.now new_run payload root.id xs d')

  submit_nodes-Started :
      Started nodes d.fresh (submit_nodes c env team workflow_id nodes xs payload d)
  unfolding submit_nodes
  submit_nodes-Started =
      with_root
        (add_task c env.now new_run payload none (manager_node team)
          (record d { fresh = d.fresh + 1 }))
        refl

with_nodes :
    (nodes : List WorkflowNodeSpec) (r : Outcome SubmitError (Dict String TeamAgent))
    → Resolved nodes
        (if is_empty nodes then raised no_nodes else r >>= λ agents. node_tasks agents nodes)
with_nodes [] r = tt
with_nodes (n ∷ ns) (raised e) = tt
with_nodes (n ∷ ns) (ok agents) = node_tasks-Resolved agents (n ∷ ns)

with_tasks :
    (c : Calls) (env : Env) (team : Team) (workflow_id : ℕ) (nodes : List WorkflowNodeSpec)
    (payload : MultiAgentRunRequest) (d : Draft) (o : Outcome SubmitError (List Node))
    → list_run_tasks d.fresh d.store ≡ []
    → Resolved nodes o
    → Started nodes d.fresh (elim o [
      | raised e ↦ (record { run = none; draft = d }, raised e)
      | ok tasks ↦ submit_nodes c env team workflow_id nodes tasks payload d
    ])
with_tasks c env team workflow_id nodes payload d (raised e) h a = tt
with_tasks c env team workflow_id nodes payload d (ok tasks) h a =
    submit_nodes-Started c env team workflow_id nodes tasks payload d h a

submit_workflow_run-Started :
    (c : Calls) (env : Env) (team : Team) (workflow_id : ℕ) (nodes : List WorkflowNodeSpec)
    (payload : MultiAgentRunRequest) (d : Draft)
    → list_run_tasks d.fresh d.store ≡ []
    → Started nodes d.fresh (submit_workflow_run c env team workflow_id nodes payload d)
unfolding submit_workflow_run
submit_workflow_run-Started c env team workflow_id nodes payload d h =
    with_tasks c env team workflow_id nodes payload d _ h
      (with_nodes nodes (resolve_agents team (members_from [] team.members) nodes []))

-- A submission of a workflow that ends without an error, for a run whose identifier no task has
-- yet, leaves an active run whose tasks are the manager's, which waits, and for each node, in
-- order, a child that has its key, type and dependencies and no attempt, and that waits if it has
-- dependencies, is in review if it is an approval without any, and is pending otherwise.
pub submit_workflow_run-IsRunOf :
    (c : Calls) (env : Env) (team : Team) (workflow_id : ℕ) (nodes : List WorkflowNodeSpec)
    (payload : MultiAgentRunRequest) (d : Draft) (r : Submitted)
    → list_run_tasks d.fresh d.store ≡ []
    → submit_workflow_run c env team workflow_id nodes payload d ≡ (r, ok tt)
    → IsRunOf nodes d.fresh r.draft.store
      × ((run : WorkflowRun) × (r.run ≡ some run)
          × (run.id ≡ d.fresh)
          × (is_active run.status ≡ true))
submit_workflow_run-IsRunOf c env team workflow_id nodes payload d r h e =
    subst (Started nodes d.fresh) e
      (submit_workflow_run-Started c env team workflow_id nodes payload d h)
