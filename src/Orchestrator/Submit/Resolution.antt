-- ===== src/Orchestrator/Submit/Resolution.antt =====
-- The Agents of a workflow's nodes: every node that was resolved is found again.
use hermes_agent_platform.Base.{
  ◌≡◌, refl, some, List, [], ◌∷◌, String, ◌==◌, All, arith, string_eq, Bool-cases, Option-cases,
  inl, inr,
}
use hermes_agent_platform.Base.Dict.{Dict, lookup, insert, lookup-insert}
use hermes_agent_platform.Base.Outcome.{ok}
use hermes_agent_platform.Workflow.{WorkflowNodeSpec}
use hermes_agent_platform.Orchestrator.Submit.{
  Team, TeamAgent, Node, agent_of, initial_status, resolve_agents, node_tasks,
}

-- The dict has the key.
abbrev pub Has : Dict String TeamAgent → String → Type 0
Has d k = (a : TeamAgent) × (lookup k d ≡ some a)

Has-insert :
    (d : Dict String TeamAgent) (k j : String) (a : TeamAgent) → Has d k → Has (insert j a d) k
Has-insert d k j a (b, e) = elim (Bool-cases (k == j)) [
  | inl f ↦ (a, ground (arith, lookup-insert k j a d, f))
  | inr f ↦ (b, ground (arith, lookup-insert k j a d, f, e))
]

-- One step of the loop, where it went on.
resolve_step :
    (team : Team) (ms : Dict String TeamAgent) (n : WorkflowNodeSpec) (ns : List WorkflowNodeSpec)
    (d r : Dict String TeamAgent)
    → resolve_agents team ms (n ∷ ns) d ≡ ok r
    → (a : TeamAgent) × (resolve_agents team ms ns (insert n.key a d) ≡ ok r)
unfolding resolve_agents
resolve_step team ms n ns d r h = elim (Option-cases (lookup (agent_of team n) ms)) [
  | inl e ↦ absurd (ground (arith, e, h))
  | inr (a, e) ↦ (a, ground (arith, e, h))
]

resolve_keeps :
    (team : Team) (ms : Dict String TeamAgent) (ns : List WorkflowNodeSpec)
    (d r : Dict String TeamAgent) (k : String)
    → Has d k
    → resolve_agents team ms ns d ≡ ok r
    → Has r k
unfolding resolve_agents
resolve_keeps team ms [] d r k (a, e) h = (a, ground (arith, e, h))
resolve_keeps team ms (n ∷ ns) d r k p h =
    let (a, g) = resolve_step team ms n ns d r h in
    resolve_keeps team ms ns (insert n.key a d) r k (Has-insert d k n.key a p) g

resolve_each :
    (team : Team) (ms : Dict String TeamAgent) (ns : List WorkflowNodeSpec)
    (d r : Dict String TeamAgent)
    → resolve_agents team ms ns d ≡ ok r
    → All (λ n. Has r n.key) ns
resolve_each team ms [] d r h = tt
resolve_each team ms (n ∷ ns) d r h =
    let (a, g) = resolve_step team ms n ns d r h in
    (
      resolve_keeps team ms ns (insert n.key a d) r n.key
          (a, ground (arith, lookup-insert n.key n.key a d)) g,
      resolve_each team ms ns (insert n.key a d) r g,
    )

found_each :
    (r : Dict String TeamAgent) (ns : List WorkflowNodeSpec)
    → All (λ n. Has r n.key) ns
    → (xs : List Node) × (node_tasks r ns ≡ ok xs)
unfolding node_tasks
found_each r [] h = ([], refl)
found_each r (n ∷ ns) ((a, e), rest) =
    let (xs, f) = found_each r ns rest in
    let x : Node = record {
      agent = a;
      key = n.key;
      node_type = n.node_type;
      role = n.name;
      initial_status = initial_status n;
      depends_on = n.depends_on;
    } in
    (x ∷ xs, ground (arith, e, f))

-- Where every node of a workflow found an active member of the Team, the tasks of all nodes are
-- built: `resolved_agents[node.key]` never raises a `KeyError`.
pub resolve_agents_lem :
    (team : Team) (ms r : Dict String TeamAgent) (ns : List WorkflowNodeSpec)
    → resolve_agents team ms ns [] ≡ ok r
    → (xs : List Node) × (node_tasks r ns ≡ ok xs)
resolve_agents_lem team ms r ns h = found_each r ns (resolve_each team ms ns [] r h)
