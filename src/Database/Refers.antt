-- ===== src/Database/Refers.antt =====
-- Which tables a query reads: the meaning of names in PostgreSQL, beside
-- services/postgres-mcp/hermes_postgres_mcp/sql_policy.py. A name that a WITH clause defines stands
-- for its query in the parts of that SELECT, and in the queries of the clause: in all of them if the
-- clause is recursive, else in those that follow.
use hermes_agent_platform.Base.{
  ◌<◌, nat_eq, count, ◌≡◌, refl, ◌⊎◌, inl, inr, true, false, ◌&&◌, Option, none, some, List, [],
  ◌∷◌, ◌++◌, String, ◌==◌, ◌∈◌, if◌then◌else◌, All, arith, string_eq, Bool-cases,
}
use hermes_agent_platform.Base.Outcome.{ok}
use hermes_agent_platform.Database.{
  Scope, occurrences, in_schema, is_in_scope, Tree, select, cte, range_var, func_call, disallowed,
  other, Trees, nil, cons, Relation, QueryAnalysis, cte_name, is_unqualified, schema_of, Service,
  visit_node,
}

abbrev pub names_of : Trees → List String
names_of nil = []
names_of (cons t ts) = cte_name t ++ names_of ts

unfoldable mutual
  -- The tables, where the names of the list stand for queries.
  pub refers : List String → Tree → List Relation
  refers names (select into locks recursive with parts) =
      (if recursive then refers_all (names_of with ++ names) with else refers_with names with)
      ++ refers_all (names_of with ++ names) parts
  refers names (cte name query) = refers names query
  refers names (range_var schema name) =
      if is_unqualified schema && name ∈ names then [] else (schema_of schema, name) ∷ []
  refers names (func_call name over arguments) = refers_all names arguments
  refers names (disallowed parts) = refers_all names parts
  refers names (other parts) = refers_all names parts

  pub refers_all : List String → Trees → List Relation
  refers_all names nil = []
  refers_all names (cons t ts) = refers names t ++ refers_all names ts

  pub refers_with : List String → Trees → List Relation
  refers_with names nil = []
  refers_with names (cons t ts) = refers names t ++ refers_with (cte_name t ++ names) ts

-- A relation is in a list.
abbrev pub Has : List Relation → Relation → Type 0
Has [] x = ⊥
Has (y ∷ ys) x = (x ≡ y) ⊎ Has ys x

-- A relation is in the list, or it is named without a schema, like one of the names.
abbrev pub Covers : List String → List Relation → Relation → Type 0
Covers names relations x = Has relations x ⊎ ((x.0 ≡ none) × (x.1 ∈ names ≡ true))

-- Some schema of the scope, of those that satisfy `P`, lists the relation.
abbrev pub Lists : (String → Type 0) → String → List (String × List String) → Type 0
Lists P relation [] = ⊥
Lists P relation ((schema, names) ∷ schemas) =
    (P schema × (relation ∈ names ≡ true)) ⊎ Lists P relation schemas

-- A relation belongs to the scope: to the schema that it names, or to some schema if it names none.
abbrev pub Belongs : Scope → Relation → Type 0
Belongs scope (none, relation) = Lists (λ s. Unit {0}) relation scope.schemas
Belongs scope (some schema, relation) = Lists (λ s. s ≡ schema) relation scope.schemas

mem_of_count : (r : String) (names : List String) → 0 < count (λ n. n == r) names → r ∈ names ≡ true
mem_of_count r [] h = elim h [ ]
mem_of_count r (n ∷ names) h = ground (arith, mem_of_count r names)

occurrences-Lists :
    (env : Service) (r : String) (schemas : List (String × List String))
    → 0 < occurrences env r schemas
    → Lists (λ s. Unit {0}) r schemas
unfolding occurrences
occurrences-Lists env r [] h = elim h [ ]
occurrences-Lists env r ((s, names) ∷ schemas) h = elim (Bool-cases (r ∈ names)) [
  | inl e ↦ inl (tt, e)
  | inr e ↦ inr (occurrences-Lists env r schemas (ground (arith, e, h, mem_of_count r names)))
]

in_schema-Lists :
    (env : Service) (schema r : String) (schemas : List (String × List String))
    → in_schema env schema r schemas ≡ true
    → Lists (λ s. s ≡ schema) r schemas
unfolding in_schema
in_schema-Lists env schema r [] h = absurd (cc h)
in_schema-Lists env schema r ((s, names) ∷ schemas) h = elim (Bool-cases (s == schema)) [
  | inl e ↦ inl (ground (arith, e), ground (arith, e, h))
  | inr e ↦ inr (in_schema-Lists env schema r schemas (ground (arith, e, h)))
]

pub is_in_scope-Belongs :
    (env : Service) (scope : Scope) (x : Relation)
    → is_in_scope env scope x ≡ true
    → Belongs scope x
unfolding is_in_scope
is_in_scope-Belongs env scope (none, r) h =
    occurrences-Lists env r scope.schemas (ground (arith, h))
is_in_scope-Belongs env scope (some schema, r) h = in_schema-Lists env schema r scope.schemas h

-- A node is covered, where it names a table.
abbrev pub IsCovered : List String → List Relation → Tree → Type 0
IsCovered names relations (range_var schema name) = Covers names relations (schema_of schema, name)
IsCovered names relations _ = Unit

-- A node writes nothing and locks nothing.
abbrev pub IsRead : Tree → Type 0
IsRead (select into locks recursive with parts) = (into ≡ false) × (locks ≡ false)
IsRead (disallowed parts) = ⊥
IsRead _ = Unit {0}

pub All-append {ℓ κ} :
    {A : Type ℓ} (P : A → Type κ) (xs ys : List A) → All P xs → All P ys → All P (xs ++ ys)
All-append P [] ys h k = k
All-append P (x ∷ xs) ys h k = (h.0, All-append P xs ys h.1 k)

pub append-All {ℓ κ} :
    {A : Type ℓ} (P : A → Type κ) (xs ys : List A) → All P (xs ++ ys) → All P xs × All P ys
append-All P [] ys h = (tt, h)
append-All P (x ∷ xs) ys h = let (a, b) = append-All P xs ys h.1 in ((h.0, a), b)

schema_of-unqualified : (s : Option String) → is_unqualified s ≡ true → schema_of s ≡ none
schema_of-unqualified none h = refl
schema_of-unqualified (some s) h = ground (arith, h)

-- One round: what it says of its node, and that it forgets no relation.
module _ (env : Service) (names : List String) where
  abbrev pub Visited : Tree → QueryAnalysis → QueryAnalysis → Type 0
  Visited t r r' =
      IsRead t
      × IsCovered names r'.relations t
      × ((x : Relation) → Has r.relations x → Has r'.relations x)

  visited_same :
      (r r' : QueryAnalysis) → r ≡ r' → (x : Relation) → Has r.relations x → Has r'.relations x
  visited_same r r' e x h = rw (← e) h

  pub visit_node-Visited :
      (t : Tree) (r r' : QueryAnalysis) → visit_node env names t r ≡ ok r' → Visited t r r'
  unfolding visit_node
  visit_node-Visited (disallowed parts) r r' h = absurd (cc h)
  visit_node-Visited (select into locks recursive with parts) r r' h =
      (ground (arith, h), tt, visited_same r r' (ground (arith, h)))
  visit_node-Visited (range_var schema name) r r' h = elim (Bool-cases (name == "")) [
    | inl e ↦ absurd (ground (arith, e, h))
    | inr e ↦ elim (Bool-cases (is_unqualified schema && name ∈ names)) [
      | inl g ↦ (
        tt,
        inr (schema_of-unqualified schema (ground (arith, g)), ground (arith, g)),
        visited_same r r' (ground (arith, e, g, h)),
      )
      | inr g ↦
          let grown : r'.relations ≡ (schema_of schema, name) ∷ r.relations =
            ground (arith, e, g, h) in
          (tt, inl (rw grown (inl refl)), λ x k. rw grown (inr k))
    ]
  ]
  visit_node-Visited (func_call name over arguments) r r' h =
      let same : r.relations ≡ r'.relations = ground (arith, h) in (tt, tt, λ x k. rw (← same) k)
  visit_node-Visited (cte name query) r r' h = (tt, tt, visited_same r r' (ground (arith, h)))
  visit_node-Visited (other parts) r r' h = (tt, tt, visited_same r r' (ground (arith, h)))
