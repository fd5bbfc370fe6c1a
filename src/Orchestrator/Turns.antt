-- ===== src/Orchestrator/Turns.antt =====
-- One turn of the loop of `reconcile_run` over the children, case by case.
use hermes_agent_platform.Base.{
  is_empty, ℕ, ◌≡◌, refl, ◌≢◌, inl, inr, true, false, Option, some, List, [], ◌∷◌, map, String, any,
  all, arith, All, Bool-cases, Option-cases, eq_of_==, ne_of_==, nat_eq, string_eq, option_eq,
}
use hermes_agent_platform.Tasks.{
  TaskStatus, pending, waiting_child, human_review, succeeded, cancelled, task_status_eq, AgentTask,
}
use hermes_agent_platform.Orchestrator.{
  task_of_key, is_missing, with_status, is_dead, is_succeeded, is_approval, has_status, Turn,
  missing_dependency, next, turn,
}

abbrev pub Found : List AgentTask → (TaskStatus → Type 0) → String → Type 0
Found cs P k = (d : AgentTask) × (task_of_key k cs ≡ some d) × P d.status

-- Every dependency is a task that succeeded, and there is one.
abbrev pub IsReady : List AgentTask → AgentTask → Type 0
IsReady cs t = (t.depends_on ≢ []) × All (Found cs (λ x. x ≡ succeeded)) t.depends_on

abbrev pub cancelled_at : ℕ → AgentTask → AgentTask
cancelled_at now t = record t {
  status = cancelled;
  error = some "dependency failed or was cancelled";
  finished_at = some now;
}

abbrev pub lookups : List AgentTask → List String → List (Option AgentTask)
lookups cs = map (λ k. task_of_key k cs)

pub data TurnView (now : ℕ) (cs : List AgentTask) (t : AgentTask) : Turn → Type 0 where
  other_status : t.status ≢ waiting_child → TurnView now cs t (next false t)
  missing :
      t.status ≡ waiting_child
      → any is_missing (lookups cs t.depends_on) ≡ true
      → TurnView now cs t missing_dependency
  cancels :
      t.status ≡ waiting_child
      → any (with_status is_dead) (lookups cs t.depends_on) ≡ true
      → TurnView now cs t (next false (cancelled_at now t))
  reviews :
      t.status ≡ waiting_child
      → is_approval t.node_type ≡ true
      → IsReady cs t
      → TurnView now cs t (next false (record t { status = human_review }))
  releases :
      t.status ≡ waiting_child
      → is_approval t.node_type ≡ false
      → IsReady cs t
      → TurnView now cs t (next true (record t { status = pending }))
  waits :
      t.status ≡ waiting_child
      → any is_missing (lookups cs t.depends_on) ≡ false
      → ¬ (IsReady cs t)
      → TurnView now cs t (next false t)

is_succeeded→eq : (x : TaskStatus) → is_succeeded x ≡ true → x ≡ succeeded
is_succeeded→eq x h = ground arith

Found-of_all :
    (cs : List AgentTask) (ks : List String)
    → all (with_status is_succeeded) (lookups cs ks) ≡ true
    → All (Found cs (λ x. x ≡ succeeded)) ks
Found-of_all cs [] h = tt
Found-of_all cs (k ∷ ks) h = elim (Option-cases (task_of_key k cs)) [
  | inl e ↦ absurd (ground (arith, e))
  | inr (d, e) ↦ ((d, e, ground (arith, e)), Found-of_all cs ks (ground (arith, e)))
]

pub all_of_Found :
    (cs : List AgentTask) (ks : List String)
    → All (Found cs (λ x. x ≡ succeeded)) ks
    → all (with_status is_succeeded) (lookups cs ks) ≡ true
all_of_Found cs [] h = refl
all_of_Found cs (k ∷ ks) h = ground (arith, h.0.1, h.0.2, all_of_Found cs ks h.1)

nonempty : (cs : List AgentTask) (ks : List String) → is_empty (lookups cs ks) ≡ false → ks ≢ []
nonempty cs [] h = λ e. cc
nonempty cs (k ∷ ks) h = λ e. cc

empty : (cs : List AgentTask) (ks : List String) → is_empty (lookups cs ks) ≡ true → ks ≡ []
empty cs [] h = refl
empty cs (k ∷ ks) h = cc

pub turn_view : (now : ℕ) (cs : List AgentTask) (t : AgentTask) → TurnView now cs t (turn now cs t)
unfolding turn
turn_view now cs t = elim (Bool-cases (has_status waiting_child t)) [
  | inr e ↦ rw e (other_status (ne_of_== t.status waiting_child e))
  | inl e ↦
      let w = eq_of_== t.status waiting_child e in
      elim (Bool-cases (any is_missing (lookups cs t.depends_on))) [
        | inl m ↦ rw (e, m) (missing w m)
        | inr m ↦ elim (Bool-cases (any (with_status is_dead) (lookups cs t.depends_on))) [
          | inl d ↦ rw (e, m, d) (cancels w d)
          | inr d ↦ elim (Bool-cases (is_empty (lookups cs t.depends_on))) [
            | inl n ↦ rw (e, m, d, n) (waits w m (λ r. r.0 (empty cs t.depends_on n)))
            | inr n ↦ elim (Bool-cases (all (with_status is_succeeded) (lookups cs t.depends_on))) [
              | inr a ↦
                  rw (e, m, d, n, a)
                    (waits w m (λ r. absurd (cc (all_of_Found cs t.depends_on r.1))))
              | inl a ↦ elim (Bool-cases (is_approval t.node_type)) [
                | inl p ↦
                    rw (e, m, d, n, a, p)
                      (reviews w p (nonempty cs t.depends_on n, Found-of_all cs t.depends_on a))
                | inr p ↦
                    rw (e, m, d, n, a, p)
                      (releases w p (nonempty cs t.depends_on n, Found-of_all cs t.depends_on a))
              ]
            ]
          ]
        ]
      ]
]
