-- ===== src/Database/Scoped.antt =====
-- What a query that passes the checks of services/postgres-mcp/hermes_postgres_mcp reads and does.
use hermes_agent_platform.Base.{
  ◌≡◌, ◌⊎◌, inl, inr, Bool, true, false, ◌&&◌, ◌||◌, none, some, List, [], ◌∷◌, ◌++◌, String, ◌==◌,
  ◌∈◌, all, All, All-map, arith, string_eq, ==_refl, Bool-cases, Option-cases,
}
use hermes_agent_platform.Base.Outcome.{ok, Outcome-cases}
use hermes_agent_platform.Capabilities.Ranges.{is_nothing}
use hermes_agent_platform.Database.{
  Tree, select, cte, range_var, func_call, disallowed, other, Trees, nil, cons, walk, walk_all,
  Relation, QueryAnalysis, cte_name, cte_names, is_unqualified, schema_of, Service, Scope,
  visit_node, visit_nodes, is_plain_select, analyze_root, normalize, has_semicolon, single,
  analyze_select, is_in_scope, validate_analysis, check_query,
}
use hermes_agent_platform.Database.Refers.{
  names_of, refers, refers_all, refers_with, Has, Covers, IsCovered, IsRead, All-append, append-All,
  visit_node-Visited, Belongs, is_in_scope-Belongs,
}

module _ (env : Service) (names : List String) where
  visit_step :
      (t : Tree) (ts : List Tree) (r q : QueryAnalysis)
      → visit_nodes env names (t ∷ ts) r ≡ ok q
      → (r' : QueryAnalysis) × (visit_node env names t r ≡ ok r')
        × (visit_nodes env names ts r' ≡ ok q)
  unfolding visit_nodes
  visit_step t ts r q h = elim (Outcome-cases (visit_node env names t r)) [
    | inr (f, e) ↦ absurd (ground (arith, e, h))
    | inl (r', e) ↦ (r', e, ground (arith, e, h))
  ]

  visit_keeps :
      (ts : List Tree) (r q : QueryAnalysis) (x : Relation)
      → visit_nodes env names ts r ≡ ok q
      → Has r.relations x
      → Has q.relations x
  unfolding visit_nodes
  visit_keeps [] r q x h k = let same : r ≡ q = ground (arith, h) in rw (← same) k
  visit_keeps (t ∷ ts) r q x h k =
      let (r', e, g) = visit_step t ts r q h in
      let (_, _, keeps) = visit_node-Visited env names t r r' e in
      visit_keeps ts r' q x g (keeps x k)

  IsCovered-keeps :
      (t : Tree) (r q : QueryAnalysis)
      → ((x : Relation) → Has r.relations x → Has q.relations x)
      → IsCovered names r.relations t
      → IsCovered names q.relations t
  IsCovered-keeps (range_var schema name) r q f (inl h) = inl (f (schema_of schema, name) h)
  IsCovered-keeps (range_var schema name) r q f (inr h) = inr h
  IsCovered-keeps (select into locks recursive with parts) r q f h = tt
  IsCovered-keeps (cte name query) r q f h = tt
  IsCovered-keeps (func_call name over arguments) r q f h = tt
  IsCovered-keeps (disallowed parts) r q f h = tt
  IsCovered-keeps (other parts) r q f h = tt

  -- Every node that the loop passes.
  pub visit_nodes-All :
      (ts : List Tree) (r q : QueryAnalysis)
      → visit_nodes env names ts r ≡ ok q
      → All IsRead ts × All (IsCovered names q.relations) ts
  visit_nodes-All [] r q h = (tt, tt)
  visit_nodes-All (t ∷ ts) r q h =
      let (r', e, g) = visit_step t ts r q h in
      let (reads, covers, _) = visit_node-Visited env names t r r' e in
      let (a, b) = visit_nodes-All ts r' q g in
      ((reads, a), (IsCovered-keeps t r' q (λ x k. visit_keeps ts r' q x g k) covers, b))

-- The tables of a tree whose every node is covered.
module _ (names : List String) (relations : List Relation) where
  mutual
    unfolding walk refers

    refers-Covers :
        (env : List String) (t : Tree)
        → All (IsCovered names relations) (walk t)
        → All (Covers names relations) (refers env t)
    refers-Covers env (select into locks true with parts) h =
        let (a, b) = append-All (IsCovered names relations) (walk_all with) (walk_all parts) h.1 in
        All-append (Covers names relations) (refers_all (names_of with ++ env) with)
          (refers_all (names_of with ++ env) parts)
          (refers_all-Covers (names_of with ++ env) with a)
          (refers_all-Covers (names_of with ++ env) parts b)
    refers-Covers env (select into locks false with parts) h =
        let (a, b) = append-All (IsCovered names relations) (walk_all with) (walk_all parts) h.1 in
        All-append (Covers names relations) (refers_with env with)
          (refers_all (names_of with ++ env) parts) (refers_with-Covers env with a)
          (refers_all-Covers (names_of with ++ env) parts b)
    refers-Covers env (cte name query) h = refers-Covers env query h.1
    refers-Covers env (range_var schema name) h =
        elim (Bool-cases (is_unqualified schema && name ∈ env)) [
          | inl e ↦ rw e tt
          | inr e ↦ rw e (h.0, tt)
        ]
    refers-Covers env (func_call name over arguments) h = refers_all-Covers env arguments h.1
    refers-Covers env (disallowed parts) h = refers_all-Covers env parts h.1
    refers-Covers env (other parts) h = refers_all-Covers env parts h.1

    refers_all-Covers :
        (env : List String) (ts : Trees)
        → All (IsCovered names relations) (walk_all ts)
        → All (Covers names relations) (refers_all env ts)
    refers_all-Covers env nil h = tt
    refers_all-Covers env (cons t ts) h =
        let (a, b) = append-All (IsCovered names relations) (walk t) (walk_all ts) h in
        All-append (Covers names relations) (refers env t) (refers_all env ts)
          (refers-Covers env t a) (refers_all-Covers env ts b)

    refers_with-Covers :
        (env : List String) (ts : Trees)
        → All (IsCovered names relations) (walk_all ts)
        → All (Covers names relations) (refers_with env ts)
    refers_with-Covers env nil h = tt
    refers_with-Covers env (cons t ts) h =
        let (a, b) = append-All (IsCovered names relations) (walk t) (walk_all ts) h in
        All-append (Covers names relations) (refers env t) (refers_with (cte_name t ++ env) ts)
          (refers-Covers env t a) (refers_with-Covers (cte_name t ++ env) ts b)

-- The steps of the checks.
module _ (env : Service) (scope : Scope) (sql : String) (q : QueryAnalysis) where
  -- The statement that was parsed, and its analysis.
  record Checked : Type 0 where
    pub root : Tree
    pub is_single : single env (env.parse_sql (normalize env sql)) ≡ some root
    pub is_analyzed : analyze_root env root ≡ ok q
    pub is_valid : all (is_in_scope env scope) q.relations ≡ true

  check_query-Checked : check_query env scope sql ≡ ok q → Checked
  unfolding check_query analyze_select validate_analysis
  check_query-Checked h =
      let text = normalize env sql in
      elim (Bool-cases (is_nothing text || has_semicolon text)) [
        | inl e ↦ absurd (ground (arith, e, h))
        | inr e ↦ elim (Option-cases (single env (env.parse_sql text))) [
          | inl g ↦ absurd (ground (arith, e, g, h))
          | inr (root, g) ↦ elim (Outcome-cases (analyze_root env root)) [
            | inr (f, k) ↦ absurd (ground (arith, e, g, k, h))
            | inl (r, k) ↦ elim (Bool-cases (all (is_in_scope env scope) r.relations)) [
              | inr i ↦ absurd (ground (arith, e, g, k, i, h))
              | inl i ↦
                  let same : r ≡ q = ground (arith, e, g, k, i, h) in
                  record {
                    root = root;
                    is_single = g;
                    is_analyzed = rw (← same) k;
                    is_valid = rw (← same) i;
                  }
            ]
          ]
        ]
      ]

Has-all :
    (p : Relation → Bool) (xs : List Relation) (x : Relation)
    → all p xs ≡ true
    → Has xs x
    → p x ≡ true
Has-all p [] x h k = absurd k
Has-all p (y ∷ ys) x h (inl e) = rw e (ground (arith, h))
Has-all p (y ∷ ys) x h (inr k) = Has-all p ys x (ground (arith, h)) k

module _ (env : Service) (scope : Scope) (sql : String) where
  -- The one statement that the text holds.
  abbrev pub Parses : Tree → Type 0
  Parses root = single env (env.parse_sql (normalize env sql)) ≡ some root

  -- A table is in the scope, or has no schema and is named like a WITH query of the statement.
  abbrev pub IsScoped : Tree → Relation → Type 0
  IsScoped root x = Belongs scope x ⊎ ((x.0 ≡ none) × (x.1 ∈ cte_names (walk root) ≡ true))

  analyzed :
      (root : Tree) (q : QueryAnalysis)
      → analyze_root env root ≡ ok q
      → (is_plain_select env root ≡ true)
        × All IsRead (walk root)
        × All (IsCovered (cte_names (walk root)) q.relations) (walk root)
  unfolding analyze_root
  analyzed root q h =
      let r : QueryAnalysis = record { relations = []; functions = []; uses_aggregate = false } in
      elim (Bool-cases (is_plain_select env root)) [
        | inr e ↦ absurd (ground (arith, e, h))
        | inl e ↦
            let (a, b) =
              visit_nodes-All env (cte_names (walk root)) (walk root) r q (ground (arith, e, h)) in
            (e, a, b)
      ]

  -- Every table that an accepted query reads, by the scoping of its WITH clauses, is listed by the
  -- scope, under the schema that it names or under some schema if it names none, or else it names no
  -- schema and is named like some WITH query of the statement.
  pub check_query-IsScoped :
      (q : QueryAnalysis)
      → check_query env scope sql ≡ ok q
      → (root : Tree) × Parses root × All (IsScoped root) (refers [] root)
  check_query-IsScoped q h =
      let c = check_query-Checked env scope sql q h in
      let root = c.root in
      let (_, _, covers) = analyzed root q c.is_analyzed in
      let names = cte_names (walk root) in
      (
        root,
        c.is_single,
        All-map (Covers names q.relations) (IsScoped root)
            (λ x k. elim k [
              | inl m ↦ inl (
                  is_in_scope-Belongs env scope x
                    (Has-all (is_in_scope env scope) q.relations x c.is_valid m))
              | inr m ↦ inr m
            ])
            (refers [] root) (refers-Covers names q.relations [] root covers),
      )

-- `WITH name AS (SELECT … FROM name) SELECT … FROM name`
abbrev pub from_name : String → Tree
from_name name = select false false false nil (cons (range_var none name) nil)

abbrev pub shadow : String → Tree
shadow name =
    select false false false (cons (cte name (from_name name)) nil) (cons (range_var none name) nil)

-- A query that reads a table through a WITH query of the same name is accepted under every scope,
-- also under one without the table.
pub check_query-shadow :
    (env : Service) (scope : Scope) (sql name : String)
    → (name == "") ≡ false
    → (is_nothing (normalize env sql) || has_semicolon (normalize env sql)) ≡ false
    → env.parse_sql (normalize env sql) ≡ some (shadow name ∷ [])
    → ((q : QueryAnalysis) × (check_query env scope sql ≡ ok q))
      × (refers [] (shadow name) ≡ (none, name) ∷ [])
unfolding check_query analyze_select analyze_root visit_nodes validate_analysis refers
check_query-shadow env scope sql name n t p = (
  (
    record { relations = []; functions = []; uses_aggregate = false },
    ground (arith, n, t, p, ==_refl name),
  ),
  ground (arith, ==_refl name),
)
