-- ===== src/Workflow/Decision.antt =====
-- `validate_workflow_dag` as a decision: it returns exactly on the acyclic graphs, and what it
-- raises says what is wrong.
use mathlib.Core.Path.{subst}
use hermes_agent_platform.Base.{
  ℕ, ◌<◌, ◌≡◌, refl, sym, ap, ◌∙◌, ◌↔◌, ◌⊎◌, ne_of_==, not, some, List, [], ◌∷◌, String, ◌∈◌, ◌==◌,
  length, filter, string_eq, nat_eq, All, All-map, All-zip, Bool-cases, inl, inr, eq_of_==,
}
use hermes_agent_platform.Base.Dict.{keys, lookup}
use hermes_agent_platform.Base.Outcome.{Outcome, ok, raised}
use hermes_agent_platform.Workflow.{
  WorkflowNodeSpec, DagError, duplicate_keys, cycle, key_error, out_of_fuel, unknown_dependencies,
  Graph, Marks, by_key, check_dependencies, validate_workflow_dag,
}
use hermes_agent_platform.Workflow.Visit.{Marked, IsRanked, IsAbove, Visited}
use hermes_agent_platform.Workflow.Keys.{
  pairs, keys-pairs, IsDistinct, IsKnown, by_key-IsDistinct, by_key-pairs, length-pairs,
  lookup-pairs, check_dependencies_ok, known_of_check,
}
use hermes_agent_platform.Workflow.Acyclic.{
  IsDag, depth, Below, topological-Below, start, search_lem, lookup_self, marked_nodes,
}

-- How a run of the check ends, case by case.
pub data Verdict (ns : List WorkflowNodeSpec) : Outcome DagError Marks → Type 0 where
  duplicate : ¬ (IsDistinct ns) → Verdict ns (raised duplicate_keys)
  unknown :
      {k : String} {ks : List String}
      → IsDistinct ns
      → ¬ (IsKnown ns ns)
      → Verdict ns (raised (unknown_dependencies k ks))
  searched :
      {r : Outcome DagError Marks}
      → IsDistinct ns
      → IsKnown ns ns
      → Visited (pairs ns) (keys (pairs ns)) (start ns) r
      → Verdict ns r

abbrev Checked : Outcome DagError (Unit {0}) → Type 0
Checked r =
    (r ≡ ok tt) ⊎ ((k : String) × (ks : List String) × (r ≡ raised (unknown_dependencies k ks)))

missing_cases :
    (k : String) (missing : List String) (rest : Outcome DagError (Unit {0}))
    → Checked rest
    → Checked (elim missing [ [] ↦ rest | j ∷ js ↦ raised (unknown_dependencies k (j ∷ js)) ])
missing_cases k [] rest h = h
missing_cases k (j ∷ js) rest h = inr (k, j ∷ js, refl)

check_dependencies_cases :
    (g : Graph) (ns : List WorkflowNodeSpec) → Checked (check_dependencies g ns)
unfolding check_dependencies
check_dependencies_cases g [] = inl refl
check_dependencies_cases g (n ∷ ns) =
    missing_cases n.key (filter (λ k. not (k ∈ keys g)) n.depends_on) (check_dependencies g ns)
      (check_dependencies_cases g ns)

abbrev KnownIn : List WorkflowNodeSpec → List String → Type 0
KnownIn ns ks = All (λ n. All (Marked ks) n.depends_on) ns

IsAbove-nothing : (r : String → ℕ) (ks : List String) → IsAbove r ks []
IsAbove-nothing r [] = tt
IsAbove-nothing r (k ∷ ks) = (tt, IsAbove-nothing r ks)

validate-Verdict : (ns : List WorkflowNodeSpec) → Verdict ns (validate_workflow_dag ns)
unfolding validate_workflow_dag
validate-Verdict ns = elim (Bool-cases (length (by_key ns) == length ns)) [
  | inr e ↦ rw e (duplicate (λ d. ne_of_== _ _ e (ap length (by_key-pairs ns d) ∙ length-pairs ns)))
  | inl e ↦
      let (distinct, shape) = by_key-IsDistinct ns (eq_of_== _ _ e) in
      rw (e, shape)
        (elim (check_dependencies_cases (pairs ns) ns) [
          | inl done ↦ rw done (
              let known = subst (KnownIn ns) (keys-pairs ns) (known_of_check (pairs ns) ns done) in
              searched distinct known (search_lem ns known))
          | inr (k, ks, bad) ↦ rw bad (
              unknown distinct (λ known.
                let done =
                  check_dependencies_ok (pairs ns) ns
                    (subst (KnownIn ns) (sym (keys-pairs ns)) known) in
                cc))
        ])
]

IsRanked-pairs : (ns : List WorkflowNodeSpec) (d : IsDag ns) → IsRanked (pairs ns) d.rank
IsRanked-pairs ns d k n e =
    let (below, here) =
      lookup-pairs (λ m. All (λ j. d.rank j < d.rank m.key) m.depends_on) k ns n d.descends e in
    subst (λ j. All (λ i. d.rank i < d.rank j) n.depends_on) here below

-- A finished search leaves an order, and the order a ranking.
IsDag-of_search :
    (ns : List WorkflowNodeSpec) (m : Marks)
    → IsDistinct ns
    → IsKnown ns ns
    → Visited (pairs ns) (keys (pairs ns)) (start ns) (ok m)
    → IsDag ns
IsDag-of_search ns m distinct known (p, marked) = record {
  distinct = distinct;
  known = known;
  rank = depth m.visited;
  descends =
      All-map
        (λ (n : WorkflowNodeSpec). Marked m.visited n.key × (lookup n.key (pairs ns) ≡ some n))
        (λ n. All (λ d. depth m.visited d < depth m.visited n.key) n.depends_on)
        (λ n h.
          All-map (Below m.visited (depth m.visited n.key))
            (λ d. depth m.visited d < depth m.visited n.key) (λ d b. b.1) n.depends_on
            (topological-Below (pairs ns) m.visited n.key n (p.ordered tt) h.0 h.1))
        ns
        (All-zip (λ (n : WorkflowNodeSpec). Marked m.visited n.key)
          (λ n. lookup n.key (pairs ns) ≡ some n) ns (marked_nodes (Marked m.visited) ns marked)
          (lookup_self ns distinct));
}

abbrev Accepted : Outcome DagError Marks → Type 0
Accepted r = (m : Marks) × (r ≡ ok m)

Accepted-of_IsDag :
    (ns : List WorkflowNodeSpec) (r : Outcome DagError Marks) → Verdict ns r → IsDag ns → Accepted r
Accepted-of_IsDag ns _ (duplicate no_keys) d = absurd (no_keys d.distinct)
Accepted-of_IsDag ns _ (unknown distinct no_known) d = absurd (no_known d.known)
Accepted-of_IsDag ns (ok m) (searched distinct known v) d = (m, refl)
Accepted-of_IsDag ns (raised e) (searched distinct known v) d =
    absurd (v.1 d.rank (IsRanked-pairs ns d) (IsAbove-nothing d.rank (keys (pairs ns))))

IsDag-of_Accepted :
    (ns : List WorkflowNodeSpec) (r : Outcome DagError Marks) → Verdict ns r → Accepted r → IsDag ns
IsDag-of_Accepted ns _ (duplicate no_keys) (m, e) = absurd (cc e)
IsDag-of_Accepted ns _ (unknown distinct no_known) (m, e) = absurd (cc e)
IsDag-of_Accepted ns (ok m) (searched distinct known v) e = IsDag-of_search ns m distinct known v
IsDag-of_Accepted ns (raised e) (searched distinct known v) (m, e') = absurd (cc e')

-- The check of a workflow's graph returns, with some final marks, exactly on the lists of nodes
-- that are directed acyclic graphs: distinct keys, known dependencies, and a ranking.
pub validate_workflow_dag-IsDag :
    (ns : List WorkflowNodeSpec) → ((m : Marks) × (validate_workflow_dag ns ≡ ok m)) ↔ IsDag ns
validate_workflow_dag-IsDag ns = (
  IsDag-of_Accepted ns (validate_workflow_dag ns) (validate-Verdict ns),
  Accepted-of_IsDag ns (validate_workflow_dag ns) (validate-Verdict ns),
)

-- What each exception tells of the nodes.
abbrev pub Explains : List WorkflowNodeSpec → DagError → Type 0
Explains ns duplicate_keys = ¬ (IsDistinct ns)
Explains ns cycle = IsDistinct ns × IsKnown ns ns × ¬ (IsDag ns)
Explains ns key_error = ⊥
Explains ns out_of_fuel = ⊥
Explains ns (unknown_dependencies k ks) = IsDistinct ns × ¬ (IsKnown ns ns)

explains :
    (ns : List WorkflowNodeSpec) (r : Outcome DagError Marks) (e : DagError)
    → Verdict ns r
    → r ≡ raised e
    → Explains ns e
explains ns _ e (duplicate no_keys) h =
    let same : duplicate_keys ≡ e = cc in subst (Explains ns) same no_keys
explains ns _ e (unknown {k} {ks} distinct no_known) h =
    let same : unknown_dependencies k ks ≡ e = cc in subst (Explains ns) same (distinct, no_known)
explains ns (ok m) e (searched distinct known v) h = absurd (cc h)
explains ns (raised e') e (searched distinct known v) h =
    let found = v.0 in
    let same : cycle ≡ e = cc in
    subst (Explains ns) same (
      distinct,
      known,
      λ d. v.1 d.rank (IsRanked-pairs ns d) (IsAbove-nothing d.rank (keys (pairs ns))),
    )

-- Whatever the check of a workflow's graph raises is explained by the nodes: `duplicate_keys`
-- means that the keys are not distinct, `unknown_dependencies` that they are but a dependency
-- names no node, `cycle` that both hold and yet the nodes are no directed acyclic graph; a
-- `KeyError` and running out of the fuel of `length ns + 1` never happen.
pub validate_workflow_dag_raises :
    (ns : List WorkflowNodeSpec) (e : DagError)
    → validate_workflow_dag ns ≡ raised e
    → Explains ns e
validate_workflow_dag_raises ns e h =
    explains ns (validate_workflow_dag ns) e (validate-Verdict ns) h
