-- ===== src/Tests/Capable.antt =====
-- Capability profiles of Agents.
use Prim.Native.Char.{code}
use Prim.Native.String.{◌∷◌ as push, [] as nothing}
use hermes_agent_platform.Base.{
  ℕ, ◌≡◌, refl, ◌==◌, if◌then◌else◌, Bool, true, false, List, [], ◌∷◌, String, arith, nat_eq,
  string_eq,
}
use hermes_agent_platform.Base.Json.{items_of, Json, str, arr, obj, field, end, null}
use hermes_agent_platform.Base.Outcome.{ok, raised}
use hermes_agent_platform.Profiles.{
  Texts, Profile, wants_repository, unsupported_tools, dict_of, normalize_capability_profile,
}
use hermes_agent_platform.Profiles.Normal.{
  is_plain, IsPython, IsProfile, normalize_capability_profile-IsProfile,
}

-- A space before the text goes.
abbrev trim : String → String
trim nothing = nothing
trim (push c s) = if code c == 32 then s else push c s

abbrev texts : Texts
texts = record { strip = trim; lower = λ s. s }

trim_plain : (s : String) → is_plain s ≡ true → trim s ≡ s
trim_plain nothing h = refl
trim_plain (push c s) h = ground (arith, h)

texts-IsPython : IsPython texts
texts-IsPython = record { strip_plain = trim_plain; lower_plain = λ s h. refl }

abbrev profile : Profile
profile = record {
  workspace_type = "document";
  required_tools = "database" ∷ ("filesystem" ∷ []);
  artifact_types = "text" ∷ ("json" ∷ ("markdown" ∷ ("pdf" ∷ ("xlsx" ∷ []))));
}

-- Tools that are named twice, once with a space, and the artifacts left to the default.
abbrev value : Json
value = obj (
    field "required_tools"
      (arr (items_of (" database" ∷ ("filesystem" ∷ ("database" ∷ (" " ∷ [])))))) end)

value_passes : normalize_capability_profile texts value "pi" ≡ ok profile
unfolding normalize_capability_profile string_eq hermes_agent_platform.Base.Json.truth
    hermes_agent_platform.Base.Json.get nat_eq
value_passes = refl

wrong_workspace :
    normalize_capability_profile texts
      (obj (field "workspace_type" (str "document") end))
      "deepseek"
    ≡ raised wants_repository
unfolding normalize_capability_profile string_eq hermes_agent_platform.Base.Json.truth
    hermes_agent_platform.Base.Json.get
wrong_workspace = refl

wrong_tool :
    normalize_capability_profile texts
      (obj (field "required_tools" (arr (items_of ("bash" ∷ []))) end))
      "hermes"
    ≡ raised unsupported_tools
unfolding normalize_capability_profile string_eq hermes_agent_platform.Base.Json.truth
    hermes_agent_platform.Base.Json.get nat_eq
wrong_tool = refl

normalize_capability_profile-IsProfile_example :
    IsProfile "pi" profile
    × (normalize_capability_profile texts (dict_of profile) "pi" ≡ ok profile)
normalize_capability_profile-IsProfile_example =
    normalize_capability_profile-IsProfile texts texts-IsPython value "pi" profile value_passes
