-- ===== src/Tests/Graph.antt =====
-- Workflow graphs.
use hermes_agent_platform.Base.{◌≡◌, refl, ◌≢◌, ◌↔◌, none, some, List, [], ◌∷◌, String}
use hermes_agent_platform.Base.Outcome.{ok, raised}
use hermes_agent_platform.Workflow.{
  agent, WorkflowNodeSpec, Marks, cycle, validate_workflow_dag, visit, visit_all,
  check_dependencies, by_key, by_key_from,
}
use hermes_agent_platform.Workflow.Acyclic.{IsDag}
use hermes_agent_platform.Workflow.Decision.{
  Explains, validate_workflow_dag-IsDag, validate_workflow_dag_raises,
}

abbrev pub node : String → List String → WorkflowNodeSpec
node key depends_on = record {
  key = key;
  node_type = agent;
  name = key;
  agent_id = some "writer";
  depends_on = depends_on;
}

abbrev pub diamond : List WorkflowNodeSpec
diamond =
    node "join" ("left" ∷ "right" ∷ [])
    ∷ node "left" ("start" ∷ [])
    ∷ node "right" ("start" ∷ [])
    ∷ node "start" []
    ∷ []

abbrev loop : List WorkflowNodeSpec
loop = node "a" ("b" ∷ []) ∷ node "b" ("a" ∷ []) ∷ []

validate_diamond :
    validate_workflow_dag diamond
    ≡ ok (record { visiting = []; visited = "join" ∷ "right" ∷ "left" ∷ "start" ∷ [] })
unfolding validate_workflow_dag hermes_agent_platform.Base.nat_eq by_key by_key_from
    hermes_agent_platform.Base.Dict.insert hermes_agent_platform.Base.string_eq check_dependencies
    visit_all visit hermes_agent_platform.Base.Dict.lookup
validate_diamond = refl

validate_loop : validate_workflow_dag loop ≡ raised cycle
unfolding validate_workflow_dag hermes_agent_platform.Base.nat_eq by_key by_key_from
    hermes_agent_platform.Base.Dict.insert hermes_agent_platform.Base.string_eq check_dependencies
    visit_all visit hermes_agent_platform.Base.Dict.lookup
validate_loop = refl

validate_workflow_dag-IsDag_example :
    ((m : Marks) × (validate_workflow_dag diamond ≡ ok m)) ↔ IsDag diamond
validate_workflow_dag-IsDag_example = validate_workflow_dag-IsDag diamond

validate_workflow_dag_raises_example : Explains loop cycle
validate_workflow_dag_raises_example = validate_workflow_dag_raises loop cycle validate_loop
