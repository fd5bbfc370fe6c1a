-- ===== src/Tests/Queries.antt =====
-- Queries under the scope of a database.
use hermes_agent_platform.Base.{
  ℕ, ◌≡◌, refl, Bool, true, false, ◌||◌, Option, none, some, List, [], ◌∷◌, String, ◌==◌, All,
  if◌then◌else◌, string_eq,
}
use hermes_agent_platform.Base.Outcome.{ok, raised}
use hermes_agent_platform.Database.{
  Tree, select, cte, range_var, func_call, disallowed, other, nil, cons, QueryAnalysis,
  access_denied, sql_policy_error, Service, Scope, normalize, check_query,
}
use hermes_agent_platform.Database.Refers.{refers}
use hermes_agent_platform.Database.Scoped.{
  Parses, IsScoped, shadow, check_query-IsScoped, check_query-shadow,
}
use hermes_agent_platform.Tests.Resolution.{unicode}

abbrev one : Tree → Option (List Tree)
one t = some (t ∷ [])

-- A parser that knows four texts.
abbrev service : Service
service = record {
  unicode = unicode;
  lower = λ s. s;
  parse_sql = λ sql.
      if sql == "SELECT count(*) FROM orders"
      then one (
          select false false false nil
            (cons (func_call ("count" ∷ []) false nil) (cons (range_var none "orders") nil)))
      else if sql == "WITH o AS (SELECT * FROM orders) SELECT * FROM o"
      then one (
          select false false false
            (cons (cte "o" (select false false false nil (cons (range_var none "orders") nil))) nil)
            (cons (range_var none "o") nil))
      else if sql == "SELECT * FROM salaries"
      then one (select false false false nil (cons (range_var none "salaries") nil))
      else if sql == "WITH salaries AS (SELECT * FROM salaries) SELECT * FROM salaries"
      then one (shadow "salaries")
      else one (disallowed nil);
  is_safe = λ name. name == "count";
}

abbrev scope : Scope
scope = record { schemas = ("sales", "orders" ∷ []) ∷ []; may_aggregate = true }

abbrev counted : QueryAnalysis
counted = record {
  relations = (none, "orders") ∷ [];
  functions = ("count" ∷ []) ∷ [];
  uses_aggregate = true;
}

count_passes : check_query service scope " SELECT count(*) FROM orders; " ≡ ok counted
unfolding check_query hermes_agent_platform.Base.nat_eq string_eq
count_passes = refl

with_passes :
    check_query service scope "WITH o AS (SELECT * FROM orders) SELECT * FROM o"
    ≡ ok (record { relations = (none, "orders") ∷ []; functions = []; uses_aggregate = false })
unfolding check_query hermes_agent_platform.Base.nat_eq string_eq
with_passes = refl

salaries_denied : check_query service scope "SELECT * FROM salaries" ≡ raised access_denied
unfolding check_query hermes_agent_platform.Base.nat_eq string_eq
salaries_denied = refl

delete_refused : check_query service scope "DELETE FROM orders" ≡ raised sql_policy_error
unfolding check_query hermes_agent_platform.Base.nat_eq string_eq
delete_refused = refl

check_query-IsScoped_example :
    (root : Tree) × Parses service scope "SELECT count(*) FROM orders" root
    × All (IsScoped service scope "SELECT count(*) FROM orders" root) (refers [] root)
unfolding check_query hermes_agent_platform.Base.nat_eq string_eq
check_query-IsScoped_example =
    check_query-IsScoped service scope "SELECT count(*) FROM orders" counted refl

check_query-shadow_example :
    ((q : QueryAnalysis) × (check_query service scope
          "WITH salaries AS (SELECT * FROM salaries) SELECT * FROM salaries"
        ≡ ok q))
    × (refers [] (shadow "salaries") ≡ (none, "salaries") ∷ [])
unfolding string_eq normalize hermes_agent_platform.Base.nat_eq
    hermes_agent_platform.Database.has_semicolon
check_query-shadow_example =
    check_query-shadow service scope
      "WITH salaries AS (SELECT * FROM salaries) SELECT * FROM salaries" "salaries" refl refl refl
