-- ===== src/Workflow/Keys.antt =====
-- The dict `by_key` that `validate_workflow_dag` builds, and its check of unknown dependencies.
use mathlib.Core.List.{append-nil, append_assoc}
use mathlib.Core.Path.{subst}
use mathlib.Core.Option.{some-injective}
use hermes_agent_platform.Base.{
  suc, ◌+◌, ◌≤◌, ◌≡◌, refl, sym, ap, ◌∙◌, true, false, not, some, List, [], ◌∷◌, ◌++◌, String, ◌∈◌,
  ◌==◌, ◌||◌, length, length-append, filter, string_eq, arith, All, Bool-cases, inl, inr, ==_refl,
  eq_of_==,
}
use hermes_agent_platform.Base.Dict.{
  keys, lookup, insert, insert_fresh, length-insert, mem-keys-lookup,
}
use hermes_agent_platform.Base.Outcome.{ok}
use hermes_agent_platform.Workflow.{
  WorkflowNodeSpec, Graph, by_key_from, by_key, check_dependencies,
}
use hermes_agent_platform.Workflow.Visit.{Known, Marked}

abbrev pub node_keys : List WorkflowNodeSpec → List String
node_keys [] = []
node_keys (n ∷ ns) = n.key ∷ node_keys ns

abbrev pub pairs : List WorkflowNodeSpec → Graph
pairs [] = []
pairs (n ∷ ns) = (n.key, n) ∷ pairs ns

-- No two nodes have the same key.
abbrev pub IsDistinct : List WorkflowNodeSpec → Type 0
IsDistinct [] = Unit
IsDistinct (n ∷ ns) = (n.key ∈ node_keys ns ≡ false) × IsDistinct ns

-- Every dependency names a node.
abbrev pub IsKnown : List WorkflowNodeSpec → List WorkflowNodeSpec → Type 0
IsKnown all = All (λ n. All (Marked (node_keys all)) n.depends_on)

pub keys-pairs : (ns : List WorkflowNodeSpec) → keys (pairs ns) ≡ node_keys ns
keys-pairs [] = refl
keys-pairs (n ∷ ns) = rw (keys-pairs ns)

keys-append : (g h : Graph) → keys (g ++ h) ≡ keys g ++ keys h
keys-append [] h = refl
keys-append ((k, n) ∷ g) h = rw (keys-append g h)

mem-append : (k : String) (js ks : List String) → k ∈ (js ++ ks) ≡ (k ∈ js || k ∈ ks)
mem-append k [] ks = refl
mem-append k (j ∷ js) ks = ground (arith, mem-append k js ks)

by_key_from_le :
    (g : Graph) (ns : List WorkflowNodeSpec) → length (by_key_from g ns) ≤ length g + length ns
unfolding by_key_from
by_key_from_le g [] = omega arith
by_key_from_le g (n ∷ ns) =
    ground (arith, by_key_from_le (insert n.key n g) ns, length-insert n.key n g)

-- The keys of `ns` are distinct, and none of them is in the dict yet.
abbrev IsFresh : Graph → List WorkflowNodeSpec → Type 0
IsFresh g ns = All (λ n. n.key ∈ keys g ≡ false) ns × IsDistinct ns

fresh_drop :
    (g : Graph) (n : WorkflowNodeSpec) (ns : List WorkflowNodeSpec)
    → All (λ m. m.key ∈ keys (g ++ (n.key, n) ∷ []) ≡ false) ns
    → All (λ m. m.key ∈ keys g ≡ false) ns × (n.key ∈ node_keys ns ≡ false)
fresh_drop g n [] h = (tt, refl)
fresh_drop g n (m ∷ ns) h =
    let (a, b) = fresh_drop g n ns h.1 in
    (
      (ground (arith, keys-append g ((n.key, n) ∷ []), mem-append m.key (keys g) (n.key ∷ [])), a),
      ground (arith, keys-append g ((n.key, n) ∷ []), mem-append m.key (keys g) (n.key ∷ [])),
    )

fresh_add :
    (g : Graph) (n : WorkflowNodeSpec) (ns : List WorkflowNodeSpec)
    → All (λ m. m.key ∈ keys g ≡ false) ns
    → n.key ∈ node_keys ns ≡ false
    → All (λ m. m.key ∈ keys (g ++ (n.key, n) ∷ []) ≡ false) ns
fresh_add g n [] h d = tt
fresh_add g n (m ∷ ns) h d = (
  ground (arith, keys-append g ((n.key, n) ∷ []), mem-append m.key (keys g) (n.key ∷ [])),
  fresh_add g n ns h.1 (ground arith),
)

-- With fresh, distinct keys the dict is the list of pairs.
by_key_from_fresh :
    (g : Graph) (ns : List WorkflowNodeSpec) → IsFresh g ns → by_key_from g ns ≡ g ++ pairs ns
unfolding by_key_from
by_key_from_fresh g [] h = rw append-nil
by_key_from_fresh g (n ∷ ns) h = rw (insert_fresh n.key n g h.0.0) (
    by_key_from_fresh (g ++ (n.key, n) ∷ []) ns (fresh_add g n ns h.0.1 h.1.0, h.1.1)
    ∙ append_assoc g ((n.key, n) ∷ []) (pairs ns))

-- Only fresh, distinct keys make the dict as long as the list.
IsFresh-of_length :
    (g : Graph) (ns : List WorkflowNodeSpec)
    → length (by_key_from g ns) ≡ length g + length ns
    → IsFresh g ns
unfolding by_key_from
IsFresh-of_length g [] h = (tt, tt)
IsFresh-of_length g (n ∷ ns) h = elim (Bool-cases (n.key ∈ keys g)) [
  | inl old ↦
      absurd
        (omega (arith, by_key_from_le (insert n.key n g) ns, rw old at (length-insert n.key n g)))
  | inr new ↦
      let e = insert_fresh n.key n g new in
      let (a, b) =
        IsFresh-of_length (g ++ (n.key, n) ∷ []) ns
          (omega (arith, rw e at h, length-append g ((n.key, n) ∷ []))) in
      let (c, d) = fresh_drop g n ns a in ((new, c), (d, b))
]

pub by_key-IsDistinct :
    (ns : List WorkflowNodeSpec)
    → length (by_key ns) ≡ length ns
    → IsDistinct ns × (by_key ns ≡ pairs ns)
unfolding by_key
by_key-IsDistinct ns h =
    let f = IsFresh-of_length [] ns (omega (arith, h)) in (f.1, by_key_from_fresh [] ns f)

fresh-nil : (ns : List WorkflowNodeSpec) → All (λ n. n.key ∈ [] ≡ false) ns
fresh-nil [] = tt
fresh-nil (n ∷ ns) = (refl, fresh-nil ns)

pub by_key-pairs : (ns : List WorkflowNodeSpec) → IsDistinct ns → by_key ns ≡ pairs ns
unfolding by_key
by_key-pairs ns h = by_key_from_fresh [] ns (fresh-nil ns, h)

pub length-pairs : (ns : List WorkflowNodeSpec) → length (pairs ns) ≡ length ns
length-pairs [] = refl
length-pairs (n ∷ ns) = ap suc (length-pairs ns)

pub pairs-Known :
    (k : String) (ns : List WorkflowNodeSpec) → k ∈ node_keys ns ≡ true → Known (pairs ns) k
pairs-Known k ns h = mem-keys-lookup k (pairs ns) (rw keys-pairs h)

-- What holds of every node holds of a node that is looked up, and that node has the key.
pub lookup-pairs :
    (P : WorkflowNodeSpec → Type 0) (k : String) (ns : List WorkflowNodeSpec) (n : WorkflowNodeSpec)
    → All P ns
    → lookup k (pairs ns) ≡ some n
    → P n × (n.key ≡ k)
unfolding lookup
lookup-pairs P k [] n h e = cc
lookup-pairs P k (m ∷ ns) n h e = elim (Bool-cases (k == m.key)) [
  | inl p ↦
      let same : m ≡ n = some-injective m n (rw p at e) in
      (subst P same h.0, ap (λ (x : WorkflowNodeSpec). x.key) (sym same) ∙ sym (eq_of_== k m.key p))
  | inr p ↦ lookup-pairs P k ns n h.1 (rw p at e)
]

pub lookup_head :
    (k : String) (n : WorkflowNodeSpec) (g : Graph) → k ≡ n.key → lookup k ((n.key, n) ∷ g) ≡ some n
unfolding lookup
lookup_head k n g e = rw (e, ==_refl n.key)

pub lookup_tail :
    (k : String) (n : WorkflowNodeSpec) (g : Graph)
    → k == n.key ≡ false
    → lookup k ((n.key, n) ∷ g) ≡ lookup k g
unfolding lookup
lookup_tail k n g e = rw e

missing-nil : (ks ds : List String) → filter (λ d. not (d ∈ ks)) ds ≡ [] → All (Marked ks) ds
missing-nil ks [] h = tt
missing-nil ks (d ∷ ds) h =
    ground (arith, λ (q : filter (λ x. not (x ∈ ks)) ds ≡ []). missing-nil ks ds q)

nil-missing : (ks ds : List String) → All (Marked ks) ds → filter (λ d. not (d ∈ ks)) ds ≡ []
nil-missing ks [] h = refl
nil-missing ks (d ∷ ds) h = ground (arith, nil-missing ks ds h.1)

pub check_dependencies_ok :
    (g : Graph) (ns : List WorkflowNodeSpec)
    → All (λ n. All (Marked (keys g)) n.depends_on) ns
    → check_dependencies g ns ≡ ok tt
unfolding check_dependencies
check_dependencies_ok g [] h = refl
check_dependencies_ok g (n ∷ ns) h =
    ground (arith, nil-missing (keys g) n.depends_on h.0, check_dependencies_ok g ns h.1)

pub known_of_check :
    (g : Graph) (ns : List WorkflowNodeSpec)
    → check_dependencies g ns ≡ ok tt
    → All (λ n. All (Marked (keys g)) n.depends_on) ns
unfolding check_dependencies
known_of_check g [] h = tt
known_of_check g (n ∷ ns) h = ground (
  arith,
  missing-nil (keys g) n.depends_on,
  λ (q : check_dependencies g ns ≡ ok tt). known_of_check g ns q,
)

pub keys-length : (ns : List WorkflowNodeSpec) → length (keys (pairs ns)) ≡ length ns
keys-length [] = refl
keys-length (n ∷ ns) = ap suc (keys-length ns)
