-- ===== src/Capabilities/Skills.antt =====
-- `_validate_skill_requirements`: backend/app/capabilities/resolver.py.
use Prim.Native.String.{◌++◌ as ◌<>◌}
use hermes_agent_platform.Base.{
  ℕ, not, Option, none, some, List, [], ◌∷◌, ◌++◌, String, ◌∈◌, if◌then◌else◌, filter, is_empty,
  nat_eq, string_eq,
}
use hermes_agent_platform.Base.Dict.{lookup}
use hermes_agent_platform.Base.Json.{Json, Items, Fields, obj, nil, cons}
use hermes_agent_platform.Capabilities.{
  SkillCapabilityRequirement, AgentCapabilityBinding, Registry, runtime_status_eq,
}
use hermes_agent_platform.Capabilities.Issues.{
  skill_version_invalid, capability_not_bound, contract_version_mismatch, PreflightIssue, issue,
  Calls, items_at, Reference, missing, malformed, refers, reference,
}
use hermes_agent_platform.Capabilities.Ranges.{version_satisfies}
use hermes_agent_platform.Capabilities.Rows.{Row, version_of, by_alias, by_capability, by_key}

abbrev pub item_reference : Calls → Json → Reference
item_reference c (obj fs) = reference c "skill_version_id" fs
item_reference c _ = missing

-- The first loop of `_validate_skill_requirements`: the identifiers, and an issue for each that is
-- no UUID.
unfoldable pub skill_versions : Calls → Items → List ℕ × List PreflightIssue
unfolding reference
skill_versions c nil = ([], [])
skill_versions c (cons item items) =
    let (ids, issues) = skill_versions c items in
    elim (item_reference c item) [
      | missing ↦ (ids, issues)
      | malformed ↦ (ids, issue skill_version_invalid "skills" ∷ issues)
      | refers i ↦ (i ∷ ids, issues)
    ]

-- The binding that a requirement is met by.
unfoldable pub binding_for : List Row → SkillCapabilityRequirement → Option AgentCapabilityBinding
unfolding by_key
binding_for rows q = elim (lookup q.alias (by_alias rows)) [
  | some b ↦ some b
  | none ↦ lookup q.capability_key (by_capability rows)
]

abbrev pub requirement_path : SkillCapabilityRequirement → String
requirement_path q = "skills.capability_requirements." <> q.alias

-- The body of the second loop.
unfoldable pub requirement_issues :
    Calls → Registry → List Row → SkillCapabilityRequirement → List PreflightIssue
unfolding binding_for
requirement_issues c reg rows q = if not q.required then [] else elim (binding_for rows q) [
  | none ↦ issue capability_not_bound (requirement_path q) ∷ []
  | some b ↦ elim (version_of reg b) [
    | none ↦ issue contract_version_mismatch (requirement_path q) ∷ []
    | some v ↦
        if version_satisfies c.unicode v.version q.version_range
        then []
        else issue contract_version_mismatch (requirement_path q) ∷ []
  ]
]

unfoldable pub all_requirement_issues :
    Calls → Registry → List Row → List SkillCapabilityRequirement → List PreflightIssue
unfolding requirement_issues
all_requirement_issues c reg rows [] = []
all_requirement_issues c reg rows (q ∷ qs) =
    requirement_issues c reg rows q ++ all_requirement_issues c reg rows qs

unfoldable pub skill_issues : Calls → Registry → Fields → List Row → List PreflightIssue
unfolding skill_versions all_requirement_issues
skill_issues c reg snapshot rows =
    let (ids, issues) = skill_versions c (items_at "skills" snapshot) in
    if is_empty ids
    then issues
    else issues
      ++ all_requirement_issues c reg rows
          (filter (λ (q : SkillCapabilityRequirement). q.skill_version_id ∈ ids) reg.requirements)
