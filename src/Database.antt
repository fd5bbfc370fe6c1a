-- ===== src/Database.antt =====
-- Read queries of the database service: services/postgres-mcp/hermes_postgres_mcp/sql_policy.py, and
-- `_validate_analysis` of services/postgres-mcp/hermes_postgres_mcp/server.py, for PostgreSQL. A
-- statement is the tree that the parser pglast makes of it, with what the code reads of a node. Sets
-- are lists, and messages are left out.
pub mod Refers
pub mod Scoped
use Prim.Native.Char.{code}
use Prim.Native.String.{◌∷◌ as push, [] as nothing}
use hermes_agent_platform.Base.{
  ℕ, zero, suc, ◌+◌, ◌≡◌, Bool, true, false, not, ◌&&◌, ◌||◌, Option, none, some, List, [], ◌∷◌,
  ◌++◌, map, String, ◌==◌, ◌∈◌, if◌then◌else◌, any, all, find, count, is_empty, nat_eq, string_eq,
}
use hermes_agent_platform.Base.Outcome.{Outcome, ok, raised, ◌>>=◌, ◌>>◌, raise_if}
use hermes_agent_platform.Capabilities.Ranges.{Unicode, lstrip, rstrip, is_nothing}

mutual
  -- A SELECT has its INTO clause, its locking clause, its WITH clause, which is recursive or not, and
  -- its other parts. `disallowed` is a node of one of `DISALLOWED_NODES`.
  pub data Tree : Type 0 where
    select : Bool → Bool → Bool → Trees → Trees → Tree
    cte : String → Tree → Tree
    range_var : Option String → String → Tree
    func_call : List String → Bool → Trees → Tree
    disallowed : Trees → Tree
    other : Trees → Tree

  pub data Trees : Type 0 where
    nil : Trees
    cons : Tree → Trees → Trees

-- `walk`: a node, and the nodes below it.
unfoldable mutual
  pub walk : Tree → List Tree
  walk (select into locks recursive with parts) =
      select into locks recursive with parts ∷ (walk_all with ++ walk_all parts)
  walk (cte name query) = cte name query ∷ walk query
  walk (range_var schema name) = range_var schema name ∷ []
  walk (func_call name over arguments) = func_call name over arguments ∷ walk_all arguments
  walk (disallowed parts) = disallowed parts ∷ walk_all parts
  walk (other parts) = other parts ∷ walk_all parts

  pub walk_all : Trees → List Tree
  walk_all nil = []
  walk_all (cons t ts) = walk t ++ walk_all ts

-- What is raised: a policy error of the query, or the denial of a scope.
pub data QueryError : Type 0 where
  sql_policy_error access_denied : QueryError

abbrev pub Relation : Type 0
Relation = Option String × String

pub record QueryAnalysis : Type 0 where
  pub relations : List Relation
  pub functions : List (List String)
  pub uses_aggregate : Bool

abbrev pub cte_name : Tree → List String
cte_name (cte name query) = name ∷ []
cte_name _ = []

unfoldable pub cte_names : List Tree → List String
cte_names [] = []
cte_names (t ∷ ts) = cte_name t ++ cte_names ts

abbrev pub aggregate_functions : List String
aggregate_functions =
    "array_agg" ∷ "avg" ∷ "bit_and" ∷ "bit_or" ∷ "bool_and" ∷ "bool_or" ∷ "count" ∷ "every"
    ∷ "json_agg" ∷ "json_object_agg" ∷ "max" ∷ "min" ∷ "string_agg" ∷ "sum" ∷ "xmlagg" ∷ "jsonb_agg"
    ∷ "jsonb_object_agg" ∷ []

-- `not node.schemaname`
abbrev pub is_unqualified : Option String → Bool
is_unqualified none = true
is_unqualified (some s) = s == ""

-- `str(node.schemaname) if node.schemaname else None`
abbrev pub schema_of : Option String → Option String
schema_of none = none
schema_of (some s) = if s == "" then none else some s

abbrev pub last : List String → String
last [] = ""
last (x ∷ []) = x
last (x ∷ (y ∷ ys)) = last (y ∷ ys)

-- `names[-2]`, where there are two.
abbrev pub second_last : List String → Option String
second_last [] = none
second_last (x ∷ []) = none
second_last (x ∷ (y ∷ [])) = some x
second_last (x ∷ (y ∷ (z ∷ zs))) = second_last (y ∷ (z ∷ zs))

-- What the service takes of Python, of the parser, which raises on a syntax error, and of the
-- database: whether every function of this name in pg_catalog is safe.
pub record Service : Type 0 where
  pub unicode : Unicode
  pub lower : String → String
  pub parse_sql : String → Option (List Tree)
  pub is_safe : String → Bool

-- A scope: the tables and views of each schema, and the permission to aggregate.
pub record Scope : Type 0 where
  pub schemas : List (String × List String)
  pub may_aggregate : Bool

unfoldable pub has_semicolon : String → Bool
has_semicolon nothing = false
has_semicolon (push c s) = code c == b';' || has_semicolon s

-- `normalized[:-1]` where it ends with a semicolon
unfoldable pub drop_semicolon : String → String
drop_semicolon nothing = nothing
drop_semicolon (push c nothing) = if code c == b';' then nothing else push c nothing
drop_semicolon (push c (push d s)) = push c (drop_semicolon (push d s))

module _ (env : Service) where
  -- One round of the loop over the nodes.
  unfoldable pub visit_node : List String → Tree → QueryAnalysis → Outcome QueryError QueryAnalysis
  visit_node names (disallowed parts) r = raised sql_policy_error
  visit_node names (select into locks recursive with parts) r = do
    raise_if (into || locks) sql_policy_error
    ok r
  visit_node names (range_var schema name) r = do
    raise_if (name == "") sql_policy_error
    ok (
        if is_unqualified schema && name ∈ names
        then r
        else record r { relations = (schema_of schema, name) ∷ r.relations })
  visit_node names (func_call name over arguments) r = do
    raise_if (is_empty name || any (λ part. part == "") name) sql_policy_error
    ok (record r {
      functions = name ∷ r.functions;
      uses_aggregate = r.uses_aggregate || (env.lower (last name) ∈ aggregate_functions || over);
    })
  visit_node names (cte name query) r = ok r
  visit_node names (other parts) r = ok r

  unfoldable pub visit_nodes :
      List String → List Tree → QueryAnalysis → Outcome QueryError QueryAnalysis
  unfolding visit_node
  visit_nodes names [] r = ok r
  visit_nodes names (t ∷ ts) r = do r' ← visit_node names t r; visit_nodes names ts r'

  abbrev pub is_plain_select : Tree → Bool
  is_plain_select (select into locks recursive with parts) = not into && not locks
  is_plain_select _ = false

  -- The loop over a statement that is a SELECT.
  unfoldable pub analyze_root : Tree → Outcome QueryError QueryAnalysis
  unfolding walk cte_names visit_nodes
  analyze_root root = do
    raise_if (not (is_plain_select root)) sql_policy_error
    visit_nodes (cte_names (walk root)) (walk root)
        (record { relations = []; functions = []; uses_aggregate = false })

  -- `sql.strip()` without one semicolon at its end.
  unfoldable pub normalize : String → String
  unfolding lstrip rstrip drop_semicolon
  normalize sql = rstrip env.unicode (drop_semicolon (rstrip env.unicode (lstrip env.unicode sql)))

  abbrev pub single : Option (List Tree) → Option Tree
  single none = none
  single (some []) = none
  single (some (t ∷ [])) = some t
  single (some (t ∷ (u ∷ us))) = none

  unfoldable pub analyze_select : String → Outcome QueryError QueryAnalysis
  unfolding normalize has_semicolon analyze_root
  analyze_select sql = do
    let normalized = normalize sql
    raise_if (is_nothing normalized || has_semicolon normalized) sql_policy_error
    elim (single (env.parse_sql normalized)) [
      | none ↦ raised sql_policy_error
      | some root ↦ analyze_root root
    ]

  -- How often the scope has a relation of this name.
  unfoldable pub occurrences : String → List (String × List String) → ℕ
  occurrences relation [] = 0
  occurrences relation ((schema, names) ∷ schemas) =
      count (λ n. n == relation) names + occurrences relation schemas

  unfoldable pub in_schema : String → String → List (String × List String) → Bool
  in_schema schema relation [] = false
  in_schema schema relation ((s, names) ∷ schemas) =
      let rest = in_schema schema relation schemas in if s == schema then relation ∈ names else rest

  unfoldable pub is_in_scope : Scope → Relation → Bool
  unfolding occurrences in_schema
  is_in_scope scope (none, relation) = occurrences relation scope.schemas == 1
  is_in_scope scope (some schema, relation) = in_schema schema relation scope.schemas

  -- A function outside pg_catalog.
  abbrev pub is_custom : List String → Bool
  is_custom name = elim (second_last name) [
    | none ↦ false
    | some schema ↦ not (env.lower schema == "pg_catalog")
  ]

  -- `_validate_analysis`
  unfoldable pub validate_analysis : Scope → QueryAnalysis → Outcome QueryError (Unit {0})
  unfolding is_in_scope
  validate_analysis scope r = do
    raise_if (not (all (is_in_scope scope) r.relations)) access_denied
    raise_if (r.uses_aggregate && not scope.may_aggregate) access_denied
    raise_if (any is_custom r.functions) access_denied
    raise_if (not (all (λ name. env.is_safe (last name)) r.functions)) access_denied

  -- The checks of `db_select` and `db_explain` before a query runs.
  unfoldable pub check_query : Scope → String → Outcome QueryError QueryAnalysis
  unfolding analyze_select validate_analysis
  check_query scope sql = do r ← analyze_select sql; _ ← validate_analysis scope r; ok r
