-- ===== src/Orchestrator/Releases.antt =====
-- What the loop of `reconcile_run` does to the children of a run, as a whole.
use mathlib.Core.List.{append_assoc, append-nil}
use mathlib.Core.Path.{subst}
use hermes_agent_platform.Base.{
  ℕ, ◌≡◌, refl, sym, ap, ◌∙◌, inl, inr, Bool, true, false, none, some, List, [], ◌∷◌, ◌++◌, String,
  if◌then◌else◌, arith, All-map, All₂, Option-cases, nat_eq, string_eq, option_eq,
}
use hermes_agent_platform.Tasks.{
  pending, waiting_child, human_review, succeeded, task_status_eq, AgentTask,
}
use hermes_agent_platform.Orchestrator.{
  task_of_key, is_approval, Turn, missing_dependency, next, turn, Released, release,
}
use hermes_agent_platform.Orchestrator.Turns.{
  Found, IsReady, cancelled_at, TurnView, other_status, missing, cancels, reviews, releases, waits,
  turn_view,
}

-- What may become of one child, in terms of all children as they were before the loop.
pub data Advance (now : ℕ) (cs : List AgentTask) (t : AgentTask) : AgentTask → Type 0 where
  kept : Advance now cs t t
  cancelled_by_dependency : t.status ≡ waiting_child → Advance now cs t (cancelled_at now t)
  put_to_review :
      t.status ≡ waiting_child
      → is_approval t.node_type ≡ true
      → IsReady cs t
      → Advance now cs t (record t { status = human_review })
  released :
      t.status ≡ waiting_child
      → is_approval t.node_type ≡ false
      → IsReady cs t
      → Advance now cs t (record t { status = pending })

-- A child keeps its key, and what succeeded after the loop did before it.
abbrev pub Keeps : AgentTask → AgentTask → Type 0
Keeps t u = (u.node_key ≡ t.node_key) × (u.status ≡ succeeded → t.status ≡ succeeded)

pub Advance-Keeps :
    (now : ℕ) (cs : List AgentTask) (t u : AgentTask) → Advance now cs t u → Keeps t u
Advance-Keeps now cs t _ kept = (refl, λ e. e)
Advance-Keeps now cs t _ (cancelled_by_dependency w) = (refl, λ e. absurd (cc e))
Advance-Keeps now cs t _ (put_to_review w a r) = (refl, λ e. absurd (cc e))
Advance-Keeps now cs t _ (released w a r) = (refl, λ e. absurd (cc e))

pub Keeps-all : (ts : List AgentTask) → All₂ Keeps ts ts
Keeps-all [] = tt
Keeps-all (t ∷ ts) = ((refl, λ e. e), Keeps-all ts)

pub Keeps-append :
    (ts us vs ws : List AgentTask)
    → All₂ Keeps ts us
    → All₂ Keeps vs ws
    → All₂ Keeps (ts ++ vs) (us ++ ws)
Keeps-append [] [] vs ws h k = k
Keeps-append [] (u ∷ us) vs ws h k = absurd h.0
Keeps-append (t ∷ ts) [] vs ws h k = absurd h.0
Keeps-append (t ∷ ts) (u ∷ us) vs ws h k = (h.0, Keeps-append ts us vs ws h.1 k)

pub none_before :
    (k : String) (ts us : List AgentTask)
    → All₂ Keeps ts us
    → task_of_key k us ≡ none
    → task_of_key k ts ≡ none
unfolding task_of_key
none_before k [] [] h e = refl
none_before k [] (u ∷ us) h e = absurd h.0
none_before k (t ∷ ts) [] h e = absurd h.0
none_before k (t ∷ ts) (u ∷ us) h e = ground (arith, none_before k ts us h.1, h.0.0)

succeeded_before :
    (k : String) (ts us : List AgentTask) (d : AgentTask)
    → All₂ Keeps ts us
    → task_of_key k us ≡ some d
    → d.status ≡ succeeded
    → Found ts (λ x. x ≡ succeeded) k
unfolding task_of_key
succeeded_before k [] [] d h e s = absurd (cc e)
succeeded_before k [] (u ∷ us) d h e s = absurd h.0
succeeded_before k (t ∷ ts) [] d h e s = absurd h.0
succeeded_before k (t ∷ ts) (u ∷ us) d h e s = elim (Option-cases (task_of_key k us)) [
  | inl n ↦
      let same : u ≡ d = ground (arith, n, e) in
      let gone = none_before k ts us h.1 n in
      (
        t,
        ground (arith, n, e, gone, h.0.0),
        h.0.1 (subst (λ (x : AgentTask). x.status ≡ succeeded) (sym same) s),
      )
  | inr (v, f) ↦
      let same : v ≡ d = ground (arith, f, e) in
      let (d', e', s') = succeeded_before k ts us d h.1 (f ∙ ap some same) s in
      (d', ground (arith, e'), s')
]

IsReady-before :
    (ts us : List AgentTask) (t : AgentTask) → All₂ Keeps ts us → IsReady us t → IsReady ts t
IsReady-before ts us t h r = (
  r.0,
  All-map (Found us (λ x. x ≡ succeeded)) (Found ts (λ x. x ≡ succeeded))
      (λ k f. succeeded_before k ts us f.0 h f.1 f.2) t.depends_on r.1,
)

-- The loop from one child on: what it leaves stands behind the children before it.
abbrev pub Onward : ℕ → List AgentTask → List AgentTask → List AgentTask → Released → Type 0
Onward now cs done todo r =
    (after : List AgentTask) × (r.children ≡ done ++ after) × All₂ (Advance now cs) todo after

Advance-all : (now : ℕ) (cs ts : List AgentTask) → All₂ (Advance now cs) ts ts
Advance-all now cs [] = tt
Advance-all now cs (t ∷ ts) = (kept, Advance-all now cs ts)

pub turned :
    (now : ℕ) (cs us : List AgentTask) (t u : AgentTask) (b : Bool) (w : Turn)
    → All₂ Keeps cs us
    → TurnView now us t w
    → w ≡ next b u
    → Advance now cs t u
turned now cs us t u b _ h (other_status x) e =
    let same : t ≡ u = ground (arith, e) in subst (Advance now cs t) same kept
turned now cs us t u b _ h (missing x y) e = absurd (cc e)
turned now cs us t u b _ h (cancels x y) e =
    let same : cancelled_at now t ≡ u = ground (arith, e) in
    subst (Advance now cs t) same (cancelled_by_dependency x)
turned now cs us t u b _ h (reviews x y r) e =
    let same : record t { status = human_review } ≡ u = ground (arith, e) in
    subst (Advance now cs t) same (put_to_review x y (IsReady-before cs us t h r))
turned now cs us t u b _ h (releases x y r) e =
    let same : record t { status = pending } ≡ u = ground (arith, e) in
    subst (Advance now cs t) same (released x y (IsReady-before cs us t h r))
turned now cs us t u b _ h (waits x y r) e =
    let same : t ≡ u = ground (arith, e) in subst (Advance now cs t) same kept

Onward-turn :
    (now : ℕ) (cs done : List AgentTask) (t : AgentTask) (ts : List AgentTask) (w : Turn)
    → ((u : AgentTask) (b : Bool) → w ≡ next b u → Advance now cs t u)
    → ((u : AgentTask)
        → Advance now cs t u
        → Onward now cs (done ++ u ∷ []) ts (release now (done ++ u ∷ []) ts))
    → Onward now cs done (t ∷ ts) (elim w [
      | missing_dependency ↦ record { children = done ++ t ∷ ts; changed = []; stopped = some t }
      | next b u ↦
          let rest = release now (done ++ u ∷ []) ts in
          if b then record rest { changed = u ∷ rest.changed } else rest
    ])
Onward-turn now cs done t ts missing_dependency step rest =
    (t ∷ ts, refl, Advance-all now cs (t ∷ ts))
Onward-turn now cs done t ts (next b u) step rest =
    let a = step u b refl in
    let (after, e, h) = rest u a in
    let e' = e ∙ append_assoc done (u ∷ []) after in
    elim b
      as (λ c. Onward now cs done (t ∷ ts) (
        if c
        then record (release now (done ++ u ∷ []) ts) {
          changed = u ∷ (release now (done ++ u ∷ []) ts).changed;
        }
        else release now (done ++ u ∷ []) ts)) [
          | true ↦ (u ∷ after, e', (a, h))
          | false ↦ (u ∷ after, e', (a, h))
        ]

pub release-Onward :
    (now : ℕ) (before done todo : List AgentTask)
    → All₂ Keeps before done
    → Onward now (before ++ todo) done todo (release now done todo)
unfolding release
release-Onward now before done [] h = ([], sym (append-nil done), tt)
release-Onward now before done (t ∷ ts) h =
    Onward-turn now (before ++ t ∷ ts) done t ts (turn now (done ++ t ∷ ts) t)
      (λ u b e.
        turned now (before ++ t ∷ ts) (done ++ t ∷ ts) t u b (turn now (done ++ t ∷ ts) t)
          (Keeps-append before done (t ∷ ts) (t ∷ ts) h (Keeps-all (t ∷ ts)))
          (turn_view now (done ++ t ∷ ts) t) e)
      (λ u a.
        subst (λ cs. Onward now cs (done ++ u ∷ []) ts (release now (done ++ u ∷ []) ts))
          (append_assoc before (t ∷ []) ts)
          (release-Onward now (before ++ t ∷ []) (done ++ u ∷ []) ts (
            Keeps-append before done (t ∷ []) (u ∷ []) h
              (Advance-Keeps now (before ++ t ∷ ts) t u a, tt))))

-- One reconciliation takes each child, in place, to itself, or from `waiting_child` to `cancelled`,
-- or from `waiting_child` to `human_review` (an approval node) or `pending` (any other) where it
-- names dependencies and each of them is a child that had succeeded before the reconciliation.
pub release_safe :
    (now : ℕ) (cs : List AgentTask) → All₂ (Advance now cs) cs (release now [] cs).children
release_safe now cs =
    let (after, e, h) = release-Onward now [] [] cs tt in subst (All₂ (Advance now cs) cs) (sym e) h
