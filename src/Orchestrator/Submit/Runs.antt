-- ===== src/Orchestrator/Submit/Runs.antt =====
-- `submit_workflow_run` and `submit_team_run` of backend/app/orchestrator.py, over the creation of
-- their tasks.
use hermes_agent_platform.Base.{
  ℕ, ◌+◌, Bool, not, ◌&&◌, ◌||◌, Option, none, some, List, [], ◌∷◌, ◌==◌, if◌then◌else◌, any,
  filter, is_empty, ltb, string_eq, nat_eq,
}
use hermes_agent_platform.Base.Outcome.{Outcome, ok, raised, ◌>>=◌}
use hermes_agent_platform.Workflow.{agent, WorkflowNodeSpec}
use hermes_agent_platform.Runs.{RunStatus, WorkflowRun, create_run}
use hermes_agent_platform.Tasks.{
  pending, waiting_child, AgentTask, Env, put_task, replace_task, call_enqueue, task_status_eq,
}
use hermes_agent_platform.Tasks.Queue.{QueueError}
use hermes_agent_platform.Orchestrator.{is_approval, has_status}
use hermes_agent_platform.Orchestrator.Reconcile.{hand_out}
use hermes_agent_platform.Orchestrator.Submit.{
  Team, TeamMember, MultiAgentRunRequest, Calls, SubmitError, no_nodes, queue, Draft, Node,
  add_task, add_tasks, members_from, resolve_agents, node_tasks,
}
use Prim.Native.String.{◌++◌ as ◌<>◌}

-- The run, once it is created, with the rows.
pub record Submitted : Type 0 where
  pub run : Option WorkflowRun
  pub draft : Draft

abbrev pub manager_node : Team → Node
manager_node team = record {
  agent = team.owner_agent;
  key = "__manager__";
  node_type = agent;
  role = "manager";
  initial_status = waiting_child;
  depends_on = [];
}

abbrev pub queued : Outcome QueueError (Unit {0}) → Outcome SubmitError (Unit {0})
queued (ok u) = ok u
queued (raised e) = raised (queue e)

-- The run's new status, committed, and the tasks that are ready, handed out.
unfoldable pub start_run :
    Env
    → AgentTask
    → List AgentTask
    → RunStatus
    → WorkflowRun
    → Draft
    → Submitted × Outcome SubmitError (Unit {0})
unfolding hand_out
start_run env root ready status run d =
    let (s, q) = hand_out env root ready d.store in
    (
      record {
        run = some (record run { status = status; started_at = some env.now });
        draft = record d { store = s };
      },
      queued q,
    )

abbrev pub run_status : List WorkflowNodeSpec → RunStatus
run_status nodes =
    if any (λ n. is_approval n.node_type && is_empty n.depends_on) nodes
    then RunStatus.human_review
    else RunStatus.running

-- From `create_run` on, for the nodes with their Agents.
unfoldable pub submit_nodes :
    Calls
    → Env
    → Team
    → ℕ
    → List WorkflowNodeSpec
    → List Node
    → MultiAgentRunRequest
    → Draft
    → Submitted × Outcome SubmitError (Unit {0})
unfolding add_task add_tasks start_run
submit_nodes c env team workflow_id nodes tasks payload d =
    let run = create_run d.fresh team.id (some workflow_id) payload.session_id payload.input in
    let (d', r) =
      add_task c env.now run payload none (manager_node team) (record d { fresh = d.fresh + 1 }) in
    elim r [
      | raised e ↦ (record { run = some run; draft = d' }, raised e)
      | ok root ↦
          let (d'', q) = add_tasks c env.now run payload root.id tasks d' in
          elim q [
            | raised e ↦ (record { run = some run; draft = d'' }, raised e)
            | ok children ↦
                start_run env root (filter (has_status pending) children) (run_status nodes) run d''
          ]
    ]

unfoldable pub submit_workflow_run :
    Calls
    → Env
    → Team
    → ℕ
    → List WorkflowNodeSpec
    → MultiAgentRunRequest
    → Draft
    → Submitted × Outcome SubmitError (Unit {0})
unfolding members_from resolve_agents node_tasks submit_nodes
submit_workflow_run c env team workflow_id nodes payload d =
    let resolved = resolve_agents team (members_from [] team.members) nodes [] in
    elim (if is_empty nodes
      then raised no_nodes
      else resolved >>= λ agents. node_tasks agents nodes) [
        | raised e ↦ (record { run = none; draft = d }, raised e)
        | ok tasks ↦ submit_nodes c env team workflow_id nodes tasks payload d
      ]

-- `sorted(team.members, key=lambda item: (-item.priority, item.agent_id))`
abbrev pub member_before : Calls → TeamMember → TeamMember → Bool
member_before c a b =
    ltb b.priority a.priority || (a.priority == b.priority && c.text_before a.agent_id b.agent_id)

unfoldable pub place_member : Calls → TeamMember → List TeamMember → List TeamMember
place_member c x [] = x ∷ []
place_member c x (y ∷ ys) =
    let rest = place_member c x ys in if member_before c y x then y ∷ rest else x ∷ y ∷ ys

unfoldable pub sort_members : Calls → List TeamMember → List TeamMember
unfolding place_member
sort_members c [] = []
sort_members c (x ∷ xs) = place_member c x (sort_members c xs)

-- The members for which the loop does not `continue`.
abbrev pub takes_part : Team → TeamMember → Bool
takes_part team x = not (x.agent_id == team.owner_agent_id) && x.agent.is_active

abbrev pub member_node : TeamMember → Node
member_node x = record {
  agent = x.agent;
  key = "member-" <> x.agent_id;
  node_type = agent;
  role = x.role;
  initial_status = pending;
  depends_on = [];
}

abbrev pub member_nodes : List TeamMember → List Node
member_nodes [] = []
member_nodes (x ∷ xs) = member_node x ∷ member_nodes xs

-- The end of `submit_team_run`: with no children the manager is handed out.
unfoldable pub start_team :
    Env
    → AgentTask
    → List AgentTask
    → WorkflowRun
    → Draft
    → Submitted × Outcome SubmitError (Unit {0})
unfolding start_run put_task replace_task call_enqueue
start_team env root [] run d =
    let root' = record root { status = pending } in
    let (s, q) = call_enqueue env root' (put_task root' d.store) in
    (
      record {
        run = some (record run { status = RunStatus.running; started_at = some env.now });
        draft = record d { store = s };
      },
      queued q,
    )
start_team env root (t ∷ ts) run d = start_run env root (t ∷ ts) RunStatus.running run d

unfoldable pub submit_team_run :
    Calls → Env → Team → MultiAgentRunRequest → Draft → Submitted × Outcome SubmitError (Unit {0})
unfolding sort_members add_task add_tasks start_team
submit_team_run c env team payload d =
    let run = create_run d.fresh team.id none payload.session_id payload.input in
    let (d', r) =
      add_task c env.now run payload none (manager_node team) (record d { fresh = d.fresh + 1 }) in
    elim r [
      | raised e ↦ (record { run = some run; draft = d' }, raised e)
      | ok root ↦
          let nodes = member_nodes (filter (takes_part team) (sort_members c team.members)) in
          let (d'', q) = add_tasks c env.now run payload root.id nodes d' in
          elim q [
            | raised e ↦ (record { run = some run; draft = d'' }, raised e)
            | ok children ↦ start_team env root children run d''
          ]
    ]
