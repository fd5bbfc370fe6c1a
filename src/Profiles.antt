-- ===== src/Profiles.antt =====
-- `normalize_capability_profile`: backend/app/runtime/capabilities.py. The names that the source
-- collects for a message are left out of it.
pub mod Normal
use hermes_agent_platform.Base.{
  Bool, true, false, not, ◌&&◌, ◌||◌, Option, none, some, List, [], ◌∷◌, String, ◌==◌, ◌∈◌,
  if◌then◌else◌, all, string_eq,
}
use hermes_agent_platform.Base.Json.{
  items_of, Json, Items, Fields, null, bool, int, float, str, arr, obj, nil, cons, end, field, get,
  truth,
}
use hermes_agent_platform.Base.Outcome.{Outcome, ok, raised, ◌>>=◌, ◌>>◌, raise_if}

-- Python's `str.strip` and `str.lower`.
pub record Texts : Type 0 where
  pub strip : String → String
  pub lower : String → String

pub record Profile : Type 0 where
  pub workspace_type : String
  pub required_tools : List String
  pub artifact_types : List String

pub data ProfileError : Type 0 where
  unsupported_runtime not_an_object unsupported_fields bad_workspace_type : ProfileError
  wants_repository unsupported_tools unsupported_artifacts : ProfileError
  not_a_string_array : String → ProfileError

abbrev pub runtime_types : List String
runtime_types = "hermes" ∷ ("pi" ∷ ("deepseek" ∷ []))

abbrev pub workspace_types : List String
workspace_types = "document" ∷ ("repository" ∷ [])

abbrev pub capability_names : List String
capability_names = "filesystem" ∷ ("database" ∷ [])

abbrev pub artifact_type_names : List String
artifact_type_names =
    "text"
    ∷ ("json"
        ∷ ("markdown" ∷ ("pdf" ∷ ("xlsx" ∷ ("code_patch" ∷ ("git_diff" ∷ ("test_report" ∷ [])))))))

abbrev pub field_names : List String
field_names = "workspace_type" ∷ ("required_tools" ∷ ("artifact_types" ∷ []))

unfoldable pub default_capability_profile : String → Profile
default_capability_profile runtime_type =
    if runtime_type == "deepseek"
    then record {
      workspace_type = "repository";
      required_tools = [];
      artifact_types = "code_patch" ∷ ("git_diff" ∷ ("test_report" ∷ []));
    }
    else record {
      workspace_type = "document";
      required_tools = [];
      artifact_types = "text" ∷ ("json" ∷ ("markdown" ∷ ("pdf" ∷ ("xlsx" ∷ []))));
    }

-- A profile as the dict that the function returns.
abbrev pub dict_of : Profile → Json
dict_of p = obj (
    field "workspace_type" (str p.workspace_type) (
      field "required_tools" (arr (items_of p.required_tools))
        (field "artifact_types" (arr (items_of p.artifact_types)) end)))

abbrev pub knows_fields : Fields → Bool
knows_fields end = true
knows_fields (field k v fs) = k ∈ field_names && knows_fields fs

-- `value or {}`, if it is an object.
abbrev pub source_of : Json → Outcome ProfileError Fields
source_of value =
    if truth value then elim value [ obj fs ↦ ok fs | _ ↦ raised not_an_object ] else ok end

-- `source.get(key, default)`
abbrev pub get_or : String → Json → Fields → Json
get_or k default fs = elim (get k fs) [ none ↦ default | some v ↦ v ]

abbrev pub workspace_of : Json → Outcome ProfileError String
workspace_of value = elim value [
  | str s ↦ if s ∈ workspace_types then ok s else raised bad_workspace_type
  | _ ↦ raised bad_workspace_type
]

-- `list(dict.fromkeys(xs))`: without the texts that came before.
unfoldable pub from_keys : List String → List String → List String
from_keys seen [] = []
from_keys seen (x ∷ xs) =
    let fresh = from_keys (x ∷ seen) xs in
    let rest = from_keys seen xs in if x ∈ seen then rest else x ∷ fresh

module _ (t : Texts) where
  unfoldable pub strings : Items → Option (List String)
  strings nil = some []
  strings (cons (str s) xs) = elim (strings xs) [
    | none ↦ none
    | some ss ↦ some (if t.strip s == "" then ss else t.lower (t.strip s) ∷ ss)
  ]
  strings (cons _ xs) = none

  unfoldable pub string_list : Json → String → Outcome ProfileError (List String)
  unfolding strings
  string_list value name = elim value [
    | arr xs ↦ elim (strings xs) [ none ↦ raised (not_a_string_array name) | some ss ↦ ok ss ]
    | _ ↦ raised (not_a_string_array name)
  ]

  -- What follows once the dict and its keys are right.
  unfoldable pub chosen_profile : String → Fields → Outcome ProfileError Profile
  unfolding string_list from_keys default_capability_profile
  chosen_profile runtime_type source = do
    let defaults = default_capability_profile runtime_type
    workspace_type ← workspace_of (get_or "workspace_type" (str defaults.workspace_type) source)
    raise_if (runtime_type == "deepseek" && not (workspace_type == "repository")) wants_repository
    tools ←
        string_list (get_or "required_tools" (arr (items_of defaults.required_tools)) source)
          "required_tools"
    raise_if (not (all (λ s. s ∈ capability_names) tools)) unsupported_tools
    artifacts ←
        string_list (get_or "artifact_types" (arr (items_of defaults.artifact_types)) source)
          "artifact_types"
    raise_if (not (all (λ s. s ∈ artifact_type_names) artifacts)) unsupported_artifacts
    ok (record {
      workspace_type = workspace_type;
      required_tools = from_keys [] tools;
      artifact_types = from_keys [] artifacts;
    })

  unfoldable pub normalize_capability_profile : Json → String → Outcome ProfileError Profile
  unfolding chosen_profile
  normalize_capability_profile value runtime_type = do
    raise_if (not (runtime_type ∈ runtime_types)) unsupported_runtime
    source ← source_of value
    raise_if (not (knows_fields source)) unsupported_fields
    chosen_profile runtime_type source
