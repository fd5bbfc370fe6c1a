-- ===== src/Workflow.antt =====
-- Workflow nodes and the check of a workflow's graph: backend/app/schemas/multi_agent.py,
-- `WorkflowNodeSpec`, `validate_node_contract` and `validate_workflow_dag`.
pub mod Visit
pub mod Keys
pub mod Acyclic
pub mod Decision
use hermes_agent_platform.Base.{
  ℕ, zero, suc, Bool, true, false, not, Option, none, some, List, [], ◌∷◌, String, ◌==◌, ◌∈◌,
  if◌then◌else◌, length, filter, string_eq, nat_eq,
}
use hermes_agent_platform.Base.Dict.{Dict, keys, lookup, insert}
use hermes_agent_platform.Base.Outcome.{Outcome, ok, raised, ◌>>=◌, ◌>>◌, raise_if}

pub data NodeType : Type 0 where
  agent tool skill condition human_approval : NodeType

pub record WorkflowNodeSpec : Type 0 where
  pub key : String
  pub node_type : NodeType
  pub name : String
  pub agent_id : Option String
  pub depends_on : List String

pub data NodeError : Type 0 where
  agent_id_required self_dependency : NodeError

abbrev pub is_agent : NodeType → Bool
is_agent agent = true
is_agent _ = false

abbrev pub is_empty : Option String → Bool
is_empty none = true
is_empty (some s) = s == ""

-- The model validator of one node.
unfoldable pub validate_node_contract : WorkflowNodeSpec → Outcome NodeError WorkflowNodeSpec
validate_node_contract n = do
  raise_if (if is_agent n.node_type then is_empty n.agent_id else false) agent_id_required
  raise_if (n.key ∈ n.depends_on) self_dependency
  ok n

pub data DagError : Type 0 where
  duplicate_keys cycle key_error out_of_fuel : DagError
  unknown_dependencies : String → List String → DagError

-- The sets `visiting` and `visited` of the search, newest first.
pub record Marks : Type 0 where
  pub visiting : List String
  pub visited : List String

abbrev pub Graph : Type 0
Graph = Dict String WorkflowNodeSpec

-- `{node.key: node for node in nodes}`
unfoldable pub by_key_from : Graph → List WorkflowNodeSpec → Graph
by_key_from g [] = g
by_key_from g (n ∷ ns) = by_key_from (insert n.key n g) ns

unfoldable pub by_key : List WorkflowNodeSpec → Graph
by_key ns = by_key_from [] ns

abbrev pub remove : String → List String → List String
remove k ks = filter (λ j. not (j == k)) ks

-- `for dependency in …: visit(dependency)`, over the call of `visit` one level down.
unfoldable pub visit_all :
    (String → Marks → Outcome DagError Marks) → List String → Marks → Outcome DagError Marks
visit_all go [] m = ok m
visit_all go (k ∷ ks) m = go k m >>= visit_all go ks

-- The recursion takes fuel; `by_key[key]` on a missing key is a `KeyError`.
unfoldable pub visit : ℕ → Graph → String → Marks → Outcome DagError Marks
visit zero g k m = raised out_of_fuel
visit (suc f) g k m =
    let deeper = λ (n : WorkflowNodeSpec).
      visit_all (visit f g) n.depends_on (record m { visiting = k ∷ m.visiting }) >>= λ m'.
      ok (record { visiting = remove k m'.visiting; visited = k ∷ m'.visited }) in
    if k ∈ m.visited
    then ok m
    else if k ∈ m.visiting
    then raised cycle
    else elim (lookup k g) [ none ↦ raised key_error | some n ↦ deeper n ]

-- `for node in nodes:` with the list `missing` of its unknown dependencies.
unfoldable pub check_dependencies : Graph → List WorkflowNodeSpec → Outcome DagError (Unit {0})
check_dependencies g [] = ok tt
check_dependencies g (n ∷ ns) =
    let rest = check_dependencies g ns in
    elim (filter (λ k. not (k ∈ keys g)) n.depends_on) [
      | [] ↦ rest
      | k ∷ ks ↦ raised (unknown_dependencies n.key (k ∷ ks))
    ]

unfoldable pub validate_workflow_dag : List WorkflowNodeSpec → Outcome DagError Marks
validate_workflow_dag nodes = do
  raise_if (not (length (by_key nodes) == length nodes)) duplicate_keys
  check_dependencies (by_key nodes) nodes
  visit_all (visit (suc (length nodes)) (by_key nodes)) (keys (by_key nodes))
      (record { visiting = []; visited = [] })
