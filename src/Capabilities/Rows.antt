-- ===== src/Capabilities/Rows.antt =====
-- The bindings of an Agent's version, as the resolver reads them:
-- backend/app/capabilities/resolver.py.
use hermes_agent_platform.Base.{
  ℕ, ◌&&◌, Option, none, some, List, [], ◌∷◌, String, ◌==◌, if◌then◌else◌, nat_eq, string_eq,
}
use hermes_agent_platform.Base.Dict.{Dict, insert}
use hermes_agent_platform.Capabilities.{
  Capability, CapabilityVersion, AgentCapabilityBinding, Registry, get_row, runtime_status_eq,
}
use hermes_agent_platform.Capabilities.Issues.{Calls}

-- A row of the query: an enabled binding with the version and the capability it is joined with.
pub record Row : Type 0 where
  pub binding : AgentCapabilityBinding
  pub version : CapabilityVersion
  pub capability : Capability

abbrev pub version_of : Registry → AgentCapabilityBinding → Option CapabilityVersion
version_of reg b = get_row (λ (v : CapabilityVersion). v.id) b.capability_version_id reg.versions

unfoldable pub join : Registry → AgentCapabilityBinding → List Row
join reg b = elim (version_of reg b) [
  | none ↦ []
  | some v ↦ elim (get_row (λ (x : Capability). x.id) v.capability_id reg.capabilities) [
    | none ↦ []
    | some x ↦ record { binding = b; version = v; capability = x } ∷ []
  ]
]

-- `ORDER BY tool_alias`
unfoldable pub place_row : Calls → Row → List Row → List Row
place_row c x [] = x ∷ []
place_row c x (y ∷ ys) =
    let rest = place_row c x ys in
    if c.text_before y.binding.tool_alias x.binding.tool_alias then y ∷ rest else x ∷ y ∷ ys

unfoldable pub place_all : Calls → List Row → List Row → List Row
unfolding place_row
place_all c [] rows = rows
place_all c (x ∷ xs) rows = place_row c x (place_all c xs rows)

unfoldable pub rows_from : Calls → Registry → ℕ → List AgentCapabilityBinding → List Row
unfolding join place_all
rows_from c reg agent_version_id [] = []
rows_from c reg agent_version_id (b ∷ bs) =
    let rest = rows_from c reg agent_version_id bs in
    if b.agent_version_id == agent_version_id && b.enabled
    then place_all c (join reg b) rest
    else rest

abbrev pub bound_rows : Calls → Registry → ℕ → List Row
bound_rows c reg i = rows_from c reg i reg.bindings

-- `bindings_by_capability` and `bindings_by_alias`
unfoldable pub by_key :
    (Row → String)
    → List Row
    → Dict String AgentCapabilityBinding
    → Dict String AgentCapabilityBinding
by_key key_of [] d = d
by_key key_of (r ∷ rs) d = by_key key_of rs (insert (key_of r) r.binding d)

abbrev pub by_capability : List Row → Dict String AgentCapabilityBinding
by_capability rows = by_key (λ r. r.capability.key) rows []

abbrev pub by_alias : List Row → Dict String AgentCapabilityBinding
by_alias rows = by_key (λ r. r.binding.tool_alias) rows []
