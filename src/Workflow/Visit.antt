-- ===== src/Workflow/Visit.antt =====
-- What the depth-first search of `validate_workflow_dag` does: with enough fuel it ends, it raises
-- nothing but `cycle`, and the keys that it marks stand behind all their dependencies.
use hermes_agent_platform.Base.{
  ℕ, zero, suc, ◌≤◌, ◌<◌, ◌≡◌, refl, sym, ap, ◌∙◌, true, false, not, some, List, [], ◌∷◌, String,
  ◌==◌, ◌∈◌, length, count, string_eq, arith, All, Bool-cases, inl, inr, ==_refl, eq_of_==,
}
use mathlib.Core.Path.{subst}
use hermes_agent_platform.Base.Dict.{keys, lookup, lookup-mem_keys}
use hermes_agent_platform.Base.Outcome.{Outcome, ok, raised, ◌>>=◌}
use hermes_agent_platform.Workflow.{
  WorkflowNodeSpec, DagError, cycle, Marks, Graph, remove, visit_all, visit,
}

pub remove_fresh : (k : String) (ks : List String) → k ∈ ks ≡ false → remove k ks ≡ ks
remove_fresh k [] h = refl
remove_fresh k (j ∷ ks) h = ground (arith, remove_fresh k ks)

pub remove_head : (k : String) (ks : List String) → k ∈ ks ≡ false → remove k (k ∷ ks) ≡ ks
remove_head k ks h = ground (arith, remove_fresh k ks, ==_refl k)

-- The keys that the search has not entered: they bound how deep it still goes.
abbrev pub unentered : List String → List String → ℕ
unentered vs = count (λ j. not (j ∈ vs))

unentered-cons_le : (k : String) (vs ks : List String) → unentered (k ∷ vs) ks ≤ unentered vs ks
unentered-cons_le k vs [] = omega arith
unentered-cons_le k vs (j ∷ ks) = ground (arith, unentered-cons_le k vs ks)

pub unentered-cons :
    (k : String) (vs ks : List String)
    → k ∈ ks ≡ true
    → k ∈ vs ≡ false
    → unentered (k ∷ vs) ks < unentered vs ks
unentered-cons k vs [] h fresh = cc
unentered-cons k vs (j ∷ ks) h fresh =
    ground (arith, unentered-cons k vs ks, unentered-cons_le k vs ks)

pub unentered-le : (vs ks : List String) → unentered vs ks ≤ length ks
unentered-le vs [] = omega arith
unentered-le vs (j ∷ ks) = ground (arith, unentered-le vs ks)

abbrev pub Known : Graph → String → Type 0
Known g k = (n : WorkflowNodeSpec) × (lookup k g ≡ some n)

-- Every dependency of a node of the graph is a node of the graph.
abbrev pub IsClosed : Graph → Type 0
IsClosed g = (k : String) (n : WorkflowNodeSpec) → lookup k g ≡ some n → All (Known g) n.depends_on

abbrev pub Marked : List String → String → Type 0
Marked ks k = k ∈ ks ≡ true

-- Newest first: every key is a node whose dependencies all stand further back.
abbrev pub IsTopological : Graph → List String → Type 0
IsTopological g [] = Unit
IsTopological g (k ∷ ks) =
    ((n : WorkflowNodeSpec) × (lookup k g ≡ some n) × All (Marked ks) n.depends_on)
    × IsTopological g ks

abbrev pub Grows : List String → List String → Type 0
Grows ks ks' = (j : String) → Marked ks j → Marked ks' j

All-Grows : (js ks ks' : List String) → Grows ks ks' → All (Marked ks) js → All (Marked ks') js
All-Grows [] ks ks' g h = tt
All-Grows (j ∷ js) ks ks' g h = (g j h.0, All-Grows js ks ks' g h.1)

-- The marks after a visit: nothing more is being visited, and what is new is in order.
pub record Progress (g : Graph) (m m' : Marks) : Type 0 where
  pub restored : m'.visiting ≡ m.visiting
  pub grown : Grows m.visited m'.visited
  pub ordered : IsTopological g m.visited → IsTopological g m'.visited

-- Dependencies have a lower rank than the node that names them.
abbrev pub IsRanked : Graph → (String → ℕ) → Type 0
IsRanked g r =
    (k : String) (n : WorkflowNodeSpec) → lookup k g ≡ some n → All (λ d. r d < r k) n.depends_on

abbrev pub IsAbove : (String → ℕ) → List String → List String → Type 0
IsAbove r ks vs = All (λ k. All (λ v. r k < r v) vs) ks

-- No ranking of the graph puts what is being visited above the keys to visit.
abbrev pub IsCyclic : Graph → List String → List String → Type 0
IsCyclic g ks vs = (r : String → ℕ) → IsRanked g r → IsAbove r ks vs → ⊥

not-above_self :
    (r : String → ℕ) (k : String) (vs : List String) → k ∈ vs ≡ true → All (λ v. r k < r v) vs → ⊥
not-above_self r k [] h a = cc
not-above_self r k (v ∷ vs) h a = elim (Bool-cases (k == v)) [
  | inl p ↦ let e : k ≡ v = eq_of_== k v p in omega (arith, ap r e)
  | inr p ↦ not-above_self r k vs (rw p at h) a.1
]

above_trans :
    (r : String → ℕ) (d k : String) (vs : List String)
    → r d < r k
    → All (λ v. r k < r v) vs
    → All (λ v. r d < r v) vs
above_trans r d k [] h a = tt
above_trans r d k (v ∷ vs) h a = (omega arith, above_trans r d k vs h a.1)

IsAbove-entered :
    (r : String → ℕ) (k : String) (ds vs : List String)
    → All (λ d. r d < r k) ds
    → All (λ v. r k < r v) vs
    → IsAbove r ds (k ∷ vs)
IsAbove-entered r k [] vs h a = tt
IsAbove-entered r k (d ∷ ds) vs h a =
    ((h.0, above_trans r d k vs h.0 a), IsAbove-entered r k ds vs h.1 a)

abbrev pub Visited : Graph → List String → Marks → Outcome DagError Marks → Type 0
Visited g ks m (ok m') = Progress g m m' × All (Marked m'.visited) ks
Visited g ks m (raised e) = (e ≡ cycle) × IsCyclic g ks m.visiting

module _ (g : Graph) (go : String → Marks → Outcome DagError Marks) (vs : List String) where
  abbrev pub Step : Type 0
  Step = (k : String) (m : Marks) → Known g k → m.visiting ≡ vs → Visited g (k ∷ []) m (go k m)

  then_all :
      (k : String) (ks : List String) (m m' : Marks)
      → Progress g m m'
      → Marked m'.visited k
      → (r : Outcome DagError Marks) → Visited g ks m' r
      → Visited g (k ∷ ks) m r
  then_all k ks m m' p h (ok m'') (q, hs) = (
    record {
      restored = q.restored ∙ p.restored;
      grown = λ j x. q.grown j (p.grown j x);
      ordered = λ t. q.ordered (p.ordered t);
    },
    (q.grown k h, hs),
  )
  then_all k ks m m' p h (raised e) (q, stuck) =
      (q, λ r ranked a. stuck r ranked (subst (IsAbove r ks) (sym p.restored) a.1))

  after :
      (k : String) (ks : List String) (m : Marks) (r : Outcome DagError Marks)
      → Visited g (k ∷ []) m r
      → ((m' : Marks) → m'.visiting ≡ m.visiting → Visited g ks m' (visit_all go ks m'))
      → Visited g (k ∷ ks) m (r >>= visit_all go ks)
  after k ks m (ok m') p rest =
      then_all k ks m m' p.0 p.1.0 (visit_all go ks m') (rest m' p.0.restored)
  after k ks m (raised e) (p, stuck) rest = (p, λ r ranked a. stuck r ranked (a.0, tt))

  pub visit_all_lem :
      Step
      → (ks : List String) (m : Marks) → All (Known g) ks
      → m.visiting ≡ vs
      → Visited g ks m (visit_all go ks m)
  unfolding visit_all
  visit_all_lem step [] m known e =
      (record { restored = refl; grown = λ j x. x; ordered = λ t. t }, tt)
  visit_all_lem step (k ∷ ks) m known e =
      after k ks m (go k m) (step k m known.0 e) (λ m' q. visit_all_lem step ks m' known.1 (q ∙ e))

module _ (g : Graph) (closed : IsClosed g) where
  -- Entering a node: the visit of its dependencies, and then the marks.
  entered :
      (k : String) (n : WorkflowNodeSpec) (m : Marks)
      → lookup k g ≡ some n
      → k ∈ m.visiting ≡ false
      → (r : Outcome DagError Marks)
      → Visited g n.depends_on (record m { visiting = k ∷ m.visiting }) r
      → Visited g
          (k ∷ [])
          m
          (r >>= λ m'. ok (record { visiting = remove k m'.visiting; visited = k ∷ m'.visited }))
  entered k n m here fresh (raised e) (p, stuck) = (
    p,
    λ r ranked a.
        stuck r ranked (IsAbove-entered r k n.depends_on m.visiting (ranked k n here) a.0),
  )
  entered k n m here fresh (ok m') (p, marked) = (
    record {
      restored = ap (remove k) p.restored ∙ remove_head k m.visiting fresh;
      grown = λ j x. ground (arith, p.grown j x);
      ordered = λ t. ((n, here, marked), p.ordered t);
    },
    (ground (arith, ==_refl k), tt),
  )

  pub visit_lem :
      (f : ℕ) (k : String) (m : Marks)
      → Known g k
      → unentered m.visiting (keys g) < f
      → Visited g (k ∷ []) m (visit f g k m)
  unfolding visit
  visit_lem zero k m known fuel = elim fuel [ ]
  visit_lem (suc f) k m known fuel = elim (Bool-cases (k ∈ m.visited)) [
    | inl old ↦ rw old (record { restored = refl; grown = λ j x. x; ordered = λ t. t }, (old, tt))
    | inr new ↦ elim (Bool-cases (k ∈ m.visiting)) [
      | inl back ↦ rw (new, back) (refl, λ r ranked a. not-above_self r k m.visiting back a.0)
      | inr fresh ↦
          rw (new, fresh, known.1)
            (entered k known.0 m known.1 fresh
              (visit_all (visit f g) known.0.depends_on (record m { visiting = k ∷ m.visiting }))
              (visit_all_lem g (visit f g) (k ∷ m.visiting)
                (λ j m' known' e. visit_lem f j m' known' (
                  rw e (
                    omega (
                      arith,
                      unentered-cons k m.visiting (keys g) (lookup-mem_keys k g known.0 known.1)
                          fresh,
                    ))))
                known.0.depends_on (record m { visiting = k ∷ m.visiting })
                (closed k known.0 known.1) refl))
    ]
  ]
