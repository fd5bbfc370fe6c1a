-- ===== src/Orchestrator/Reconcile.antt =====
-- `reconcile_run` and `_fail_run` over the loop that releases the children:
-- backend/app/orchestrator.py.
use hermes_agent_platform.Base.{
  ℕ, Bool, true, false, not, ◌&&◌, ◌||◌, Option, none, some, List, [], ◌∷◌, String, ◌==◌,
  if◌then◌else◌, find, any, all, is_empty, nat_eq, option_eq, string_eq,
}
use hermes_agent_platform.Base.Outcome.{Outcome, ok, raised}
use hermes_agent_platform.Runs.{RunStatus, WorkflowRun}
use hermes_agent_platform.Tasks.{
  pending, waiting_child, human_review, succeeded, failed, task_status_eq, SessionStatus, AgentTask,
  AgentMessage, MessageType, Store, Env, replace_task, put_task, change_execution, call_enqueue,
  publish,
}
use hermes_agent_platform.Tasks.Queue.{QueueError}
use Prim.Native.String.{◌++◌ as ◌<>◌}
use hermes_agent_platform.Orchestrator.{children_of, has_status, is_root, list_run_tasks, release}

pub record Reconciled : Type 0 where
  pub run : WorkflowRun
  pub store : Store

abbrev pub replace_all : List AgentTask → List AgentTask → List AgentTask
replace_all [] ts = ts
replace_all (u ∷ us) ts = replace_all us (replace_task u ts)

-- `_fail_run`; `clip` is `error[:2000]`.
unfoldable pub fail_run : (String → String) → ℕ → AgentTask → String → Reconciled → Reconciled
unfolding put_task replace_task
fail_run clip now root error r =
    let run' = record r.run {
      status = RunStatus.failed;
      error = some (clip error);
      finished_at = some now;
    } in
    let root' = record root {
      status = failed;
      error = some (clip error);
      finished_at = some now;
      session = record root.session { status = SessionStatus.failed; finished_at = some now };
    } in
    record {
      run = run';
      store =
          if has_status waiting_child root || has_status pending root
          then put_task root' r.store
          else r.store;
    }

-- What the texts of the tasks' inputs come from: `_manager_prompt`, and the slice to 2000.
pub record Texts : Type 0 where
  pub manager_prompt : String → List AgentTask → String
  pub clip : String → String

abbrev pub key_text : Option String → String
key_text none = "None"
key_text (some k) = k

abbrev pub or_text : Option String → String → String
or_text none d = d
or_text (some e) d = if e == "" then d else e

-- What ends an operation: a refused `enqueue`, or `next` with no root task.
pub data Interrupt : Type 0 where
  queue_error : QueueError → Interrupt
  no_root : Interrupt

abbrev pub interrupted : Outcome QueueError (Unit {0}) → Outcome Interrupt (Unit {0})
interrupted (ok u) = ok u
interrupted (raised e) = raised (queue_error e)

-- `for task in changed:`; a queue that does not answer ends the operation.
unfoldable pub hand_out :
    Env → AgentTask → List AgentTask → Store → Store × Outcome QueueError (Unit {0})
unfolding call_enqueue publish
hand_out env root [] s = (s, ok tt)
hand_out env root (t ∷ ts) s =
    let (s', r) = call_enqueue env t s in
    let message : AgentMessage = record {
      from_agent = root.agent_id;
      to_agent = t.agent_id;
      message_type = MessageType.task;
      task_id = some t.id;
    } in
    let rest = hand_out env root ts (publish env message s') in
    elim r [ raised e ↦ (s', raised e) | ok _ ↦ rest ]

-- `reconcile_run` up to the second reading of the tasks: `true` goes on to the rest.
unfoldable pub release_phase : Texts → Env → Reconciled → Reconciled × Outcome Interrupt Bool
unfolding list_run_tasks release hand_out fail_run
release_phase x env r =
    let tasks = list_run_tasks r.run.id r.store in
    elim (find is_root tasks) [
      | none ↦ (
        record r {
          run = record r.run {
            status = RunStatus.failed;
            error = some "orchestration root task is missing";
            finished_at = some env.now;
          };
        },
        ok false,
      )
      | some root ↦
          let children = children_of root tasks in
          elim (find (has_status failed) children) [
            | some t ↦ (
              fail_run x.clip env.now root
                  (or_text t.error ("task " <> (key_text t.node_key <> " failed"))) r,
              ok false,
            )
            | none ↦
                let out = release env.now [] children in
                let stored = record r.store { tasks = replace_all out.children r.store.tasks } in
                elim out.stopped [
                  | some t ↦ (
                    fail_run x.clip env.now root
                        ("task " <> (key_text t.node_key <> " dependency is missing"))
                        (record r { store = stored }),
                    ok false,
                  )
                  | none ↦
                      let (s, q) = hand_out env root out.changed stored in
                      (
                        record r { store = s },
                        elim q [ ok _ ↦ ok true | raised e ↦ raised (queue_error e) ],
                      )
                ]
          ]
    ]

-- `root.session.input`, the input of the root's execution log and `root.status`, committed.
unfoldable pub ready_manager : Texts → WorkflowRun → List AgentTask → AgentTask → Store → Store
unfolding put_task replace_task change_execution
ready_manager x run children root s =
    let prompt = x.manager_prompt run.input children in
    let root' = record root {
      status = pending;
      session = record root.session { input = prompt };
    } in
    change_execution (λ e. record e { input = prompt }) root (put_task root' s)

-- The rest of `reconcile_run`, from the second reading of the tasks.
unfoldable pub settle_phase : Texts → Env → Reconciled → Reconciled × Outcome Interrupt (Unit {0})
unfolding list_run_tasks ready_manager call_enqueue fail_run
settle_phase x env r =
    let tasks = list_run_tasks r.run.id r.store in
    elim (find is_root tasks) [
      | none ↦ (r, raised no_root)
      | some root ↦
          let children = children_of root tasks in
          let going = record r.run { status = RunStatus.running } in
          if any (has_status human_review) children
          then (record r { run = record r.run { status = RunStatus.human_review } }, ok tt)
          else if not (is_empty children)
              && all (has_status succeeded) children
              && has_status waiting_child root
          then (let (s, q) = call_enqueue env root (ready_manager x r.run children root r.store) in
              (record { run = going; store = s }, interrupted q))
          else if has_status succeeded root
          then (
            record r {
              run = record going {
                status = RunStatus.succeeded;
                output = root.session.output;
                error = none;
                finished_at = some (elim root.finished_at [ some t ↦ t | none ↦ env.now ]);
              };
            },
            ok tt,
          )
          else if has_status failed root
          then (
            fail_run x.clip env.now root (or_text root.error "manager Agent failed")
                (record r { run = going }),
            ok tt,
          )
          else (record r { run = going }, ok tt)
    ]

unfoldable pub reconcile_run : Texts → Env → Reconciled → Reconciled × Outcome Interrupt (Unit {0})
unfolding release_phase settle_phase
reconcile_run x env r =
    let (r', q) = release_phase x env r in
    let settled = settle_phase x env r' in
    elim q [ raised e ↦ (r', raised e) | ok false ↦ (r', ok tt) | ok true ↦ settled ]
