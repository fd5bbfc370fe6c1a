-- ===== src/Workflow/Acyclic.antt =====
-- `validate_workflow_dag` decides whether a list of nodes is a directed acyclic graph.
use mathlib.Core.Path.{subst}
use mathlib.Core.Option.{some-injective}
use hermes_agent_platform.Base.{
  ℕ, suc, ◌≤◌, ◌<◌, ◌≡◌, refl, sym, ap, ◌∙◌, false, some, List, [], ◌∷◌, String, ◌∈◌, ◌==◌, length,
  string_eq, nat_eq, arith, All, All-map, All-zip, Bool-cases, inl, inr, ==_refl, if◌then◌else◌,
}
use hermes_agent_platform.Base.Dict.{keys, lookup, mem-keys-lookup}
use hermes_agent_platform.Base.Outcome.{Outcome}
use hermes_agent_platform.Workflow.{WorkflowNodeSpec, DagError, Graph, Marks, visit, visit_all}
use hermes_agent_platform.Workflow.Visit.{
  Known, IsClosed, Marked, IsTopological, Visited, unentered-le, visit_lem, visit_all_lem,
}
use hermes_agent_platform.Workflow.Keys.{
  node_keys, pairs, IsDistinct, IsKnown, keys-length, pairs-Known, lookup-pairs, lookup_head,
  lookup_tail,
}

-- A directed acyclic graph, with no mention of the search: the keys are distinct, every
-- dependency names a node, and some ranking puts each node above its dependencies.
pub record IsDag (ns : List WorkflowNodeSpec) : Type 0 where
  pub distinct : IsDistinct ns
  pub known : IsKnown ns ns
  pub rank : String → ℕ
  pub descends : All (λ n. All (λ d. rank d < rank n.key) n.depends_on) ns

-- How far back a key stands in an order.
abbrev pub depth : List String → String → ℕ
depth [] k = 0
depth (j ∷ ks) k = let rest = depth ks k in if k ∈ ks then rest else suc (length ks)

depth-le : (ks : List String) (k : String) → depth ks k ≤ length ks
depth-le [] k = omega arith
depth-le (j ∷ ks) k = ground (arith, depth-le ks k)

abbrev pub Below : List String → ℕ → String → Type 0
Below ks m d = Marked ks d × (depth ks d < m)

Below-cons :
    (j : String) (ks ds : List String) (m : ℕ) → All (Below ks m) ds → All (Below (j ∷ ks) m) ds
Below-cons j ks [] m h = tt
Below-cons j ks (d ∷ ds) m h = (ground (arith, h.0.0), Below-cons j ks ds m h.1)

Below-top :
    (j : String) (ks ds : List String)
    → All (Marked ks) ds
    → All (Below (j ∷ ks) (suc (length ks))) ds
Below-top j ks [] h = tt
Below-top j ks (d ∷ ds) h = (ground (arith, h.0, depth-le ks d), Below-top j ks ds h.1)

-- In a topological order dependencies stand deeper.
pub topological-Below :
    (g : Graph) (ks : List String) (k : String) (n : WorkflowNodeSpec)
    → IsTopological g ks
    → Marked ks k
    → lookup k g ≡ some n
    → All (Below ks (depth ks k)) n.depends_on
topological-Below g [] k n t h e = absurd (cc h)
topological-Below g (j ∷ ks) k n t h e = elim (Bool-cases (k ∈ ks)) [
  | inl deep ↦
      rw (deep, depth)
        (Below-cons j ks n.depends_on (depth ks k) (topological-Below g ks k n t.1 deep e))
  | inr top ↦
      let here : k ≡ j = ground (arith, h) in
      let same : t.0.0 ≡ n =
        some-injective t.0.0 n (sym t.0.1 ∙ ap (λ x. lookup x g) (sym here) ∙ e) in
      rw (top, depth)
        (subst (λ (x : WorkflowNodeSpec). All (Below (j ∷ ks) (suc (length ks))) x.depends_on) same
          (Below-top j ks t.0.0.depends_on t.0.2))
]

module _ (ns : List WorkflowNodeSpec) where
  abbrev pub start : Marks
  start = record { visiting = []; visited = [] }

  abbrev pub search_all : Graph → Outcome DagError Marks
  search_all g = visit_all (visit (suc (length ns)) g) (keys g) start

mem-All : (js ks : List String) → ((j : String) → Marked js j → Marked ks j) → All (Marked ks) js
mem-All [] ks f = tt
mem-All (j ∷ js) ks f =
    (f j (ground (arith, ==_refl j)), mem-All js ks (λ i h. f i (ground (arith, h))))

pairs-IsClosed : (ns : List WorkflowNodeSpec) → IsKnown ns ns → IsClosed (pairs ns)
pairs-IsClosed ns known k n e =
    All-map (Marked (node_keys ns)) (Known (pairs ns)) (λ d h. pairs-Known d ns h) n.depends_on
      (lookup-pairs (λ m. All (Marked (node_keys ns)) m.depends_on) k ns n known e).0

-- The search over a list of nodes whose keys are distinct and whose dependencies are known.
pub search_lem :
    (ns : List WorkflowNodeSpec)
    → IsKnown ns ns
    → Visited (pairs ns) (keys (pairs ns)) (start ns) (search_all ns (pairs ns))
search_lem ns known =
    let g = pairs ns in
    visit_all_lem g (visit (suc (length ns)) g) []
      (λ k m known' e.
        visit_lem g (pairs-IsClosed ns known) (suc (length ns)) k m known'
          (omega (arith, unentered-le m.visiting (keys g), keys-length ns)))
      (keys g) (start ns)
      (All-map (Marked (keys g)) (Known g) (λ k h. mem-keys-lookup k g h) (keys g)
        (mem-All (keys g) (keys g) (λ j h. h)))
      refl

distinct_ne :
    (n : WorkflowNodeSpec) (ns : List WorkflowNodeSpec)
    → n.key ∈ node_keys ns ≡ false
    → All (λ m. m.key == n.key ≡ false) ns
distinct_ne n [] h = tt
distinct_ne n (m ∷ ns) h = (ground arith, distinct_ne n ns (ground arith))

pub lookup_self :
    (ns : List WorkflowNodeSpec) → IsDistinct ns → All (λ n. lookup n.key (pairs ns) ≡ some n) ns
lookup_self [] h = tt
lookup_self (n ∷ ns) h = (
  lookup_head n.key n (pairs ns) refl,
  All-map (λ (m : WorkflowNodeSpec). (m.key == n.key ≡ false) × (lookup m.key (pairs ns) ≡ some m))
      (λ m. lookup m.key ((n.key, n) ∷ pairs ns) ≡ some m)
      (λ m p. lookup_tail m.key n (pairs ns) p.0 ∙ p.1) ns
      (All-zip (λ (m : WorkflowNodeSpec). m.key == n.key ≡ false)
        (λ m. lookup m.key (pairs ns) ≡ some m) ns (distinct_ne n ns h.0) (lookup_self ns h.1)),
)

pub marked_nodes :
    (P : String → Type 0) (ns : List WorkflowNodeSpec)
    → All P (keys (pairs ns))
    → All (λ n. P n.key) ns
marked_nodes P [] h = tt
marked_nodes P (n ∷ ns) h = (h.0, marked_nodes P ns h.1)
