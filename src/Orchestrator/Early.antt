-- ===== src/Orchestrator/Early.antt =====
-- A reconciliation that finds a child before all its dependencies are there, as when the run is
-- still being submitted, task by task.
use hermes_agent_platform.Base.{
  ℕ, ◌≡◌, refl, ◌≢◌, inl, inr, sym, ap, ◌∙◌, true, false, Bool, none, some, List, [], ◌∷◌, ◌++◌,
  String, ◌==◌, ◌∈◌, any, find, All, arith, string_eq, nat_eq, option_eq, Bool-cases, Option-cases,
  eq_of_==, if◌then◌else◌,
}
use mathlib.Core.Path.{subst}
use hermes_agent_platform.Base.Outcome.{ok}
use hermes_agent_platform.Runs.{RunStatus}
use hermes_agent_platform.Tasks.{waiting_child, failed, task_status_eq, AgentTask, Env}
use hermes_agent_platform.Orchestrator.{
  is_root, children_of, has_status, list_run_tasks, task_of_key, is_missing, Turn,
  missing_dependency, next, turn, Released, release,
}
use hermes_agent_platform.Orchestrator.Reconcile.{
  Texts, Reconciled, fail_run, release_phase, reconcile_run,
}
use hermes_agent_platform.Orchestrator.Turns.{lookups}
use hermes_agent_platform.Orchestrator.Liveness.{In}

-- No task has the key.
abbrev pub Lacks : String → List AgentTask → Type 0
Lacks k = All (λ t. (t.node_key == some k) ≡ false)

Lacks-append : (k : String) (ts us : List AgentTask) → Lacks k ts → Lacks k us → Lacks k (ts ++ us)
Lacks-append k [] us h l = l
Lacks-append k (t ∷ ts) us h l = (h.0, Lacks-append k ts us h.1 l)

none_of_Lacks : (k : String) (ts : List AgentTask) → Lacks k ts → task_of_key k ts ≡ none
unfolding task_of_key
none_of_Lacks k [] h = refl
none_of_Lacks k (t ∷ ts) h = ground (arith, none_of_Lacks k ts h.1, h.0)

missing_key :
    (k : String) (cs : List AgentTask) (ks : List String)
    → Lacks k cs
    → k ∈ ks ≡ true
    → any is_missing (lookups cs ks) ≡ true
missing_key k cs [] l h = absurd (cc h)
missing_key k cs (j ∷ ks) l h = elim (Bool-cases (k == j)) [
  | inl e ↦ rw (ap (λ i. task_of_key i cs) (sym (eq_of_== k j e)) ∙ none_of_Lacks k cs l) refl
  | inr e ↦ ground (arith, missing_key k cs ks l (rw e at h))
]

turn_missing :
    (now : ℕ) (cs : List AgentTask) (t : AgentTask)
    → t.status ≡ waiting_child
    → any is_missing (lookups cs t.depends_on) ≡ true
    → turn now cs t ≡ missing_dependency
unfolding turn
turn_missing now cs t w m = ground (arith, w, m)

turn_keeps_key :
    (now : ℕ) (cs : List AgentTask) (t u : AgentTask) (b : Bool)
    → turn now cs t ≡ next b u
    → u.node_key ≡ t.node_key
unfolding turn
turn_keeps_key now cs t u b h = ground (arith, h)

abbrev Stopped : Released → Type 0
Stopped r = r.stopped ≢ none

Stopped-turn :
    (now : ℕ) (done : List AgentTask) (t : AgentTask) (ts : List AgentTask) (w : Turn)
    → ((u : AgentTask) (b : Bool) → w ≡ next b u → Stopped (release now (done ++ u ∷ []) ts))
    → Stopped (elim w [
      | missing_dependency ↦ record { children = done ++ t ∷ ts; changed = []; stopped = some t }
      | next b u ↦
          let rest = release now (done ++ u ∷ []) ts in
          if b then record rest { changed = u ∷ rest.changed } else rest
    ])
Stopped-turn now done t ts missing_dependency rest = λ e. absurd (cc e)
Stopped-turn now done t ts (next true u) rest = rest u true refl
Stopped-turn now done t ts (next false u) rest = rest u false refl

release-Stopped :
    (now : ℕ) (k : String) (u : AgentTask) (done todo : List AgentTask)
    → In u todo
    → u.status ≡ waiting_child
    → k ∈ u.depends_on ≡ true
    → Lacks k done
    → Lacks k todo
    → Stopped (release now done todo)
unfolding release
release-Stopped now k u done [] i w d h l = absurd i
release-Stopped now k u done (t ∷ ts) i w d h l =
    Stopped-turn now done t ts (turn now (done ++ t ∷ ts) t) (λ v b e. elim i [
      | inl same ↦ absurd (cc (e, stops same))
      | inr later ↦
          release-Stopped now k u (done ++ v ∷ []) ts later w d
            (Lacks-append k done (v ∷ []) h
              (ap (λ o. o == some k) (turn_keeps_key now (done ++ t ∷ ts) t v b e) ∙ l.0, tt))
            l.1
    ])
  where
    stops : u ≡ t → turn now (done ++ t ∷ ts) t ≡ missing_dependency
    stops same =
        turn_missing now (done ++ t ∷ ts) t
          (subst (λ (x : AgentTask). x.status ≡ waiting_child) same w)
          (missing_key k (done ++ t ∷ ts) t.depends_on (Lacks-append k done (t ∷ ts) h l)
            (subst (λ (x : AgentTask). k ∈ x.depends_on ≡ true) same d))

-- A reconciliation of a run whose root task is there, without a failed child, but with a waiting
-- child one of whose dependencies is the key of no child, fails the run and ends without an error.
pub reconcile_fails :
    (x : Texts) (env : Env) (r : Reconciled) (root t : AgentTask) (k : String)
    → find is_root (list_run_tasks r.run.id r.store) ≡ some root
    → find (has_status failed) (children_of root (list_run_tasks r.run.id r.store)) ≡ none
    → In t (children_of root (list_run_tasks r.run.id r.store))
    → t.status ≡ waiting_child
    → k ∈ t.depends_on ≡ true
    → Lacks k (children_of root (list_run_tasks r.run.id r.store))
    → ((reconcile_run x env r).0.run.status ≡ RunStatus.failed)
      × ((reconcile_run x env r).1 ≡ ok tt)
unfolding reconcile_run release_phase fail_run
reconcile_fails x env r root t k found clear i w d l =
    let cs = children_of root (list_run_tasks r.run.id r.store) in
    elim (Option-cases (release env.now [] cs).stopped) [
      | inl e ↦ absurd (release-Stopped env.now k t [] cs i w d tt l e)
      | inr (u, e) ↦ ground (arith, found, clear, e)
    ]
