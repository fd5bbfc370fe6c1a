-- ===== src/Policy/Protected.antt =====
-- Arguments that the policy lets through: which keys they may hold, and the value the capability
-- is called with. About `apply_parameter_policy` and `_protected_paths`:
-- backend/app/capabilities/policy.py.
use hermes_agent_platform.Base.{
  ℕ, ◌+◌, ◌≡◌, refl, ap, Bool, eq_of_==, true, false, ◌&&◌, not, Option, none, some, List, [], ◌∷◌,
  ◌++◌, String, ◌==◌, ◌∈◌, if◌then◌else◌, is_empty, string_eq, Bool-cases, inl, inr,
}
use hermes_agent_platform.Base.Json.{
  Json, Items, Fields, null, bool, int, float, str, arr, obj, nil, cons, end, field, get, put,
  update, get-put, is_truthy,
}
use hermes_agent_platform.Base.Outcome.{ok, raise_if, bind_ok, raise_if_ok}
use hermes_agent_platform.Policy.{
  Python, Policy, protected_paths, protected_items, protected_object, forbidden_names, check_policy,
  apply_parameter_policy,
}

-- A key occurs in a value, at any depth.
mutual
  pub data OccursIn : String → Json → Type 0 where
    in_list : {k : String} {xs : Items} → OccursAmong k xs → OccursIn k (arr xs)
    in_object : {k : String} {fs : Fields} → OccursUnder k fs → OccursIn k (obj fs)

  pub data OccursAmong : String → Items → Type 0 where
    in_first : {k : String} {x : Json} {xs : Items} → OccursIn k x → OccursAmong k (cons x xs)
    in_others : {k : String} {x : Json} {xs : Items} → OccursAmong k xs → OccursAmong k (cons x xs)

  pub data OccursUnder : String → Fields → Type 0 where
    is_key : {k : String} {v : Json} {fs : Fields} → OccursUnder k (field k v fs)
    in_value : {k j : String} {v : Json} {fs : Fields} → OccursIn k v → OccursUnder k (field j v fs)
    in_rest :
        {k j : String} {v : Json} {fs : Fields} → OccursUnder k fs → OccursUnder k (field j v fs)

append_empty : (xs ys : List String) → (xs ++ ys) ≡ [] → (xs ≡ []) × (ys ≡ [])
append_empty [] ys h = (refl, h)
append_empty (x ∷ xs) ys h = absurd (cc h)

listed_empty : (b : Bool) (p : String) → (if b then p ∷ [] else []) ≡ [] → b ≡ false
listed_empty true p h = absurd (cc h)
listed_empty false p h = refl

module _ (py : Python) (forbidden : List String) where
  -- Nothing is found only where no key that occurs is forbidden.
  mutual
    unfolding protected_paths

    protected_paths_empty :
        (k : String) (v : Json) (p : String)
        → OccursIn k v
        → protected_paths py forbidden v p ≡ []
        → (py.lower k ∈ forbidden) ≡ false
    protected_paths_empty k null p o h = elim o [ ]
    protected_paths_empty k (bool b) p o h = elim o [ ]
    protected_paths_empty k (int b n) p o h = elim o [ ]
    protected_paths_empty k (float n) p o h = elim o [ ]
    protected_paths_empty k (str s) p o h = elim o [ ]
    protected_paths_empty k (arr xs) p (in_list o) h = protected_items_empty k xs p 0 o h
    protected_paths_empty k (obj fs) p (in_object o) h = protected_object_empty k fs p o h

    protected_items_empty :
        (k : String) (xs : Items) (p : String) (i : ℕ)
        → OccursAmong k xs
        → protected_items py forbidden xs p i ≡ []
        → (py.lower k ∈ forbidden) ≡ false
    protected_items_empty k nil p i o h = elim o [ ]
    protected_items_empty k (cons x xs) p i (in_first o) h =
        protected_paths_empty k x _ o (append_empty _ _ h).0
    protected_items_empty k (cons x xs) p i (in_others o) h =
        protected_items_empty k xs p (i + 1) o (append_empty _ _ h).1

    protected_object_empty :
        (k : String) (fs : Fields) (p : String)
        → OccursUnder k fs
        → protected_object py forbidden fs p ≡ []
        → (py.lower k ∈ forbidden) ≡ false
    protected_object_empty k end p o h = elim o [ ]
    protected_object_empty k (field _ v fs) p is_key h =
        listed_empty (py.lower k ∈ forbidden) _ (append_empty _ _ h).0
    protected_object_empty k (field j v fs) p (in_value o) h =
        protected_paths_empty k v _ o (append_empty _ _ (append_empty _ _ h).1).0
    protected_object_empty k (field j v fs) p (in_rest o) h =
        protected_object_empty k fs p o (append_empty _ _ (append_empty _ _ h).1).1

empty_of : (xs : List String) → not (is_empty xs) ≡ false → xs ≡ []
empty_of [] h = refl
empty_of (x ∷ xs) h = absurd (cc h)

-- The checks pass only where nothing is found.
check_policy_empty :
    (py : Python) (policy : Policy) (value : Fields) (u : Unit {0})
    → check_policy py policy value ≡ ok u
    → protected_paths py (forbidden_names py policy) (obj value) "" ≡ []
unfolding check_policy
check_policy_empty py policy value u h =
    let e : Bool = not (is_empty (protected_paths py (forbidden_names py policy) (obj value) "")) in
    empty_of _ (raise_if_ok e _ _ (bind_ok (raise_if e _) _ u h).1)

apply_checked :
    (py : Python) (arguments scope v : Fields) (policy : Policy)
    → apply_parameter_policy py arguments policy scope ≡ ok v
    → (u : Unit {0}) × (check_policy py policy arguments ≡ ok u)
unfolding apply_parameter_policy
apply_checked py arguments scope v policy h =
    let r = bind_ok (check_policy py policy arguments) _ _ h in (r.0, r.1)

-- A key that occurs at any depth of arguments that the policy lets through is not, in lower case,
-- one of the protected fields or of the policy's forbidden fields.
pub policy_protects :
    (py : Python) (arguments scope v : Fields) (policy : Policy) (k : String)
    → apply_parameter_policy py arguments policy scope ≡ ok v
    → OccursIn k (obj arguments)
    → (py.lower k ∈ forbidden_names py policy) ≡ false
policy_protects py arguments scope v policy k h o =
    let c = apply_checked py arguments scope v policy h in
    protected_paths_empty py _ k _ _ o (check_policy_empty py policy arguments c.0 c.1)

-- No two fields of an object have one name.
abbrev pub IsDistinct : Fields → Type 0
IsDistinct end = Unit
IsDistinct (field k v fs) = (get k fs ≡ none) × IsDistinct fs

abbrev pub or_else : {A : Type 0} → Option A → Option A → Option A
or_else (some a) o = some a
or_else none o = o

get-update :
    (k : String) (d e : Fields) → IsDistinct e → get k (update d e) ≡ or_else (get k e) (get k d)
unfolding get update
get-update k d end h = refl
get-update k d (field j v e) h = elim (Bool-cases (k == j)) [
  | inl p ↦
      rw
        (
          get-update k (put j v d) e h.1,
          get-put k j v d,
          p,
          ap (λ i. get i e) (eq_of_== k j p),
          h.0,
        )
        refl
  | inr p ↦ rw (get-update k (put j v d) e h.1, get-put k j v d, p) refl
]

-- The value the capability is called with: a field is the caller's scope if it is the resource
-- scope and there is one, else what the policy injects, else what it fixes, else the argument.
pub apply_parameter_policy_lem :
    (py : Python) (arguments scope v : Fields) (policy : Policy) (k : String)
    → IsDistinct policy.fixed
    → IsDistinct policy.injected_fields
    → apply_parameter_policy py arguments policy scope ≡ ok v
    → get k v ≡ (
        if is_truthy scope && (k == "resource_scope")
        then some (obj scope)
        else or_else
            (get k policy.injected_fields)
            (or_else (get k policy.fixed) (get k arguments)))
unfolding apply_parameter_policy
apply_parameter_policy_lem py arguments scope v policy k d e h =
    let c = bind_ok (check_policy py policy arguments) _ _ h in
    let value : Fields = update (update arguments policy.fixed) policy.injected_fields in
    let r : get k value
        ≡ or_else (get k policy.injected_fields) (or_else (get k policy.fixed) (get k arguments)) =
      rw
        (
          get-update k (update arguments policy.fixed) policy.injected_fields e,
          get-update k arguments policy.fixed d,
        )
        refl in
    let w : v ≡ (if is_truthy scope then put "resource_scope" (obj scope) value else value) =
      cc c.2 in
    elim (Bool-cases (is_truthy scope)) [
      | inl t ↦ rw (w, t, get-put k "resource_scope" (obj scope) value, r) refl
      | inr t ↦ rw (w, t, r) refl
    ]
