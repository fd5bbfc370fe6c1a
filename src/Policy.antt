-- ===== src/Policy.antt =====
-- `apply_parameter_policy` and `_protected_paths`: backend/app/capabilities/policy.py. A policy is
-- what the code reads of its dict: an absent key and one of another type read as an empty list. The
-- source sorts the names in a message; here they stand in the order in which they are found.
pub mod Protected
use hermes_agent_platform.Base.{
  ℕ, zero, suc, ◌+◌, Bool, true, false, not, ◌&&◌, ◌||◌, Option, none, some, List, [], ◌∷◌, ◌++◌,
  map, String, ◌==◌, ◌∈◌, if◌then◌else◌, any, filter, is_empty, string_eq, ltb,
}
use hermes_agent_platform.Base.Json.{
  Json, Items, Fields, null, bool, int, float, str, arr, obj, nil, cons, end, field, get, put,
  update, is_truthy, count_items, count_fields,
}
use hermes_agent_platform.Base.Outcome.{Outcome, ok, raised, ◌>>=◌, ◌>>◌, raise_if}
use Prim.Native.String.{◌++◌ as ◌<>◌}

-- What Python itself does with texts and numbers here: `str.lower`, an index as text, the length of
-- a text, `re.fullmatch`, `==` between values, and `>=` between numbers.
pub record Python : Type 0 where
  pub lower : String → String
  pub show : ℕ → String
  pub text_length : String → ℕ
  pub fullmatch : String → String → Bool
  pub equal : Json → Json → Bool
  pub at_least : Json → Json → Bool

pub record Policy : Type 0 where
  pub forbidden_fields : List String
  pub required_fields : List String
  pub allowed_values : List (String × List Json)
  pub minimum : List (String × Json)
  pub maximum : List (String × Json)
  pub max_length : List (String × ℕ)
  pub regex : List (String × String)
  pub fixed : Fields
  pub injected_fields : Fields

pub data PolicyError : Type 0 where
  forbidden_parameters : List String → PolicyError
  missing_parameters : List String → PolicyError
  not_allowed : String → PolicyError
  violates : String → String → PolicyError
  exceeds_max_length : String → PolicyError
  no_match : String → PolicyError

abbrev pub protected_fields : List String
protected_fields =
    "endpoint" ∷ "credential_ref" ∷ "connector_instance_id" ∷ "implementation_id" ∷ "resource_scope"
    ∷ "access_token" ∷ "api_key" ∷ []

-- `f"{prefix}.{key}" if prefix else str(key)`
abbrev pub path_of : String → String → String
path_of prefix key = if prefix == "" then key else prefix <> ("." <> key)

-- `_protected_paths`, in the order in which the paths are found.
unfoldable mutual
  pub protected_paths : Python → List String → Json → String → List String
  protected_paths py forbidden null prefix = []
  protected_paths py forbidden (bool b) prefix = []
  protected_paths py forbidden (int s n) prefix = []
  protected_paths py forbidden (float b) prefix = []
  protected_paths py forbidden (str s) prefix = []
  protected_paths py forbidden (arr xs) prefix = protected_items py forbidden xs prefix 0
  protected_paths py forbidden (obj fs) prefix = protected_object py forbidden fs prefix

  pub protected_items : Python → List String → Items → String → ℕ → List String
  protected_items py forbidden nil prefix index = []
  protected_items py forbidden (cons x xs) prefix index =
      protected_paths py forbidden x (prefix <> ("[" <> (py.show index <> "]")))
      ++ protected_items py forbidden xs prefix (index + 1)

  pub protected_object : Python → List String → Fields → String → List String
  protected_object py forbidden end prefix = []
  protected_object py forbidden (field key item fs) prefix =
      (if py.lower key ∈ forbidden then path_of prefix key ∷ [] else [])
      ++ (protected_paths py forbidden item (path_of prefix key)
          ++ protected_object py forbidden fs prefix)

abbrev pub is_number : Json → Bool
is_number (int s n) = true
is_number (float b) = true
is_number _ = false

-- The value of a field that is there, under a test that a violation passes.
abbrev pub violation : (Json → Bool) → Option Json → Bool
violation bad none = false
violation bad (some v) = bad v

-- The loops over a rule's items: the first field in violation is reported.
unfoldable pub check_rules {ℓ} :
    {A : Type ℓ}
    → (String → PolicyError)
    → (A → Json → Bool)
    → List (String × A)
    → Fields
    → Outcome PolicyError (Unit {0})
check_rules e bad [] value = ok tt
check_rules e bad ((name, rule) ∷ rules) value =
    let rest = check_rules e bad rules value in
    if violation (bad rule) (get name value) then raised (e name) else rest

abbrev pub size_of : Python → Json → Option ℕ
size_of py (str s) = some (py.text_length s)
size_of py (arr xs) = some (count_items xs)
size_of py (obj fs) = some (count_fields fs)
size_of py _ = none

abbrev pub too_long : Python → ℕ → Json → Bool
too_long py limit v = elim (size_of py v) [ none ↦ false | some n ↦ ltb limit n ]

abbrev pub mismatches : Python → String → Json → Bool
mismatches py pattern (str s) = not (py.fullmatch pattern s)
mismatches py pattern _ = true

abbrev pub absent : Fields → String → Bool
absent value name = elim (get name value) [ none ↦ true | some v ↦ false ]

unfoldable pub forbidden_names : Python → Policy → List String
forbidden_names py policy = map py.lower (protected_fields ++ policy.forbidden_fields)

-- The checks before a value is changed.
unfoldable pub check_policy : Python → Policy → Fields → Outcome PolicyError (Unit {0})
unfolding protected_paths forbidden_names check_rules
check_policy py policy value = do
  let present = protected_paths py (forbidden_names py policy) (obj value) ""
  raise_if (not (is_empty present)) (forbidden_parameters present)
  let missing = filter (absent value) policy.required_fields
  raise_if (not (is_empty missing)) (missing_parameters missing)
  check_rules not_allowed (λ choices v. not (any (py.equal v) choices)) policy.allowed_values value
  check_rules (violates "minimum") (λ limit v. is_number v && not (py.at_least v limit))
      policy.minimum value
  check_rules (violates "maximum") (λ limit v. is_number v && not (py.at_least limit v))
      policy.maximum value
  check_rules exceeds_max_length (too_long py) policy.max_length value
  check_rules no_match (mismatches py) policy.regex value

unfoldable pub apply_parameter_policy :
    Python → Fields → Policy → Fields → Outcome PolicyError Fields
unfolding check_policy
apply_parameter_policy py arguments policy scope = do
  check_policy py policy arguments
  let value = update (update arguments policy.fixed) policy.injected_fields
  ok (if is_truthy scope then put "resource_scope" (obj scope) value else value)
