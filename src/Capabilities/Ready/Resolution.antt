-- ===== src/Capabilities/Ready/Resolution.antt =====
-- A resolution without errors means that the version is ready, and the other way round:
-- `resolve_agent_capabilities` of backend/app/capabilities/resolver.py.
use hermes_agent_platform.Base.{
  ◌≡◌, ◌⊎◌, inl, inr, ◌↔◌, true, false, some, List, ◌++◌, is_empty, arith, Bool-cases,
}
use hermes_agent_platform.Base.Json.{Fields, has_truth}
use hermes_agent_platform.Capabilities.{Registry}
use hermes_agent_platform.Capabilities.Issues.{Calls, ResolvedCapability, PreflightIssue}
use hermes_agent_platform.Capabilities.Runtime.{runtime_features}
use hermes_agent_platform.Capabilities.Rows.{Row, bound_rows}
use hermes_agent_platform.Capabilities.Skills.{skill_issues}
use hermes_agent_platform.Capabilities.Providers.{resolve_rows}
use hermes_agent_platform.Capabilities.Resolver.{
  AgentVersion, CapabilityResolution, ready, gateway_issues, resolve_current,
  resolve_agent_capabilities,
}
use hermes_agent_platform.Capabilities.Ready.{IsReady}
use hermes_agent_platform.Capabilities.Ready.Bound.{
  Clean, Clean-append, append-Clean, resolve_rows-Resolves, Resolves-resolve_rows,
}
use hermes_agent_platform.Capabilities.Ready.Required.{
  runtime_features-HasRuntime, HasRuntime-runtime_features,
}
use hermes_agent_platform.Capabilities.Ready.Equipped.{
  skill_issues-HasSkills, HasSkills-skill_issues,
}

dispatches_of :
    (features : Fields) (rows : List Row)
    → Clean (gateway_issues features rows)
    → (is_empty rows ≡ true) ⊎ (has_truth "capability_gateway" features ≡ true)
unfolding gateway_issues
dispatches_of features rows h = elim (Bool-cases (is_empty rows)) [
  | inl e ↦ inl e
  | inr e ↦ elim (Bool-cases (has_truth "capability_gateway" features)) [
    | inl f ↦ inr f
    | inr f ↦ absurd (ground (arith, e, f, h))
  ]
]

gateway_issues-Clean :
    (features : Fields) (rows : List Row)
    → (is_empty rows ≡ true) ⊎ (has_truth "capability_gateway" features ≡ true)
    → Clean (gateway_issues features rows)
unfolding gateway_issues
gateway_issues-Clean features rows (inl e) = ground (arith, e)
gateway_issues-Clean features rows (inr e) = ground (arith, e)

module _ (c : Calls) (reg : Registry) (v : AgentVersion) where
  abbrev rows : List Row
  rows = bound_rows c reg v.id

  abbrev features : Fields
  features = (runtime_features c reg v.snapshot).0

  abbrev ended : List PreflightIssue
  ended = skill_issues c reg v.snapshot rows ++ (resolve_rows c reg rows).1

  current-IsReady :
      Clean (resolve_current c reg v).issues → IsReady c reg v features (resolve_rows c reg rows).0
  unfolding resolve_current
  current-IsReady h =
      let (a, h') =
        Clean-append (runtime_features c reg v.snapshot).1 (gateway_issues features rows ++ ended)
          h in
      let (b, h'') = Clean-append (gateway_issues features rows) ended h' in
      let (d, e) =
        Clean-append (skill_issues c reg v.snapshot rows) (resolve_rows c reg rows).1 h'' in
      record {
        runs = runtime_features-HasRuntime c reg v.snapshot a;
        dispatches = dispatches_of features rows b;
        equipped = skill_issues-HasSkills c reg v.snapshot rows d;
        bound = resolve_rows-Resolves c reg rows e;
      }

  IsReady-current :
      (fs : Fields) (tools : List ResolvedCapability)
      → IsReady c reg v fs tools
      → Clean (resolve_current c reg v).issues
  unfolding resolve_current
  IsReady-current fs tools w =
      let (p, a) = HasRuntime-runtime_features c reg v.snapshot fs w.runs in
      append-Clean (runtime_features c reg v.snapshot).1 (gateway_issues features rows ++ ended) a (
        append-Clean (gateway_issues features rows) ended
          (gateway_issues-Clean features rows (rw p at (w.dispatches)))
          (append-Clean (skill_issues c reg v.snapshot rows) (resolve_rows c reg rows).1
            (HasSkills-skill_issues c reg v.snapshot rows w.equipped)
            (Resolves-resolve_rows c reg rows tools w.bound)))

  ready_lem : (r : CapabilityResolution) → (ready r ≡ true) ↔ Clean r.issues
  unfolding ready
  ready_lem r = (λ h. ground (arith, h), λ h. ground (arith, h))

  -- A resolution that is not that of a legacy version is ready exactly where the version's Runtime
  -- is up with every required feature, and dispatches capabilities if any is bound; where every
  -- Skill is named by an identifier and every capability it requires is bound in its range; and
  -- where the tools are those of the bound capabilities, one each, in order, each with a usable
  -- contract, an implementation, and a healthy connection, and a database within a scope of it.
  pub resolve_agent_capabilities-IsReady :
      (r : CapabilityResolution)
      → resolve_agent_capabilities c reg v ≡ some r
      → r.legacy ≡ false
      → (ready r ≡ true) ↔ IsReady c reg v r.runtime_features r.tools
  unfolding resolve_agent_capabilities
  resolve_agent_capabilities-IsReady r h l =
      let e : r ≡ resolve_current c reg v = ground (arith, h, l) in
      rw e (
        (λ k.
            unfold resolve_current in current-IsReady ((ready_lem (resolve_current c reg v)).0 k)),
        λ w. (ready_lem (resolve_current c reg v)).1 (
            IsReady-current (resolve_current c reg v).runtime_features
              (resolve_current c reg v).tools w),
      )
