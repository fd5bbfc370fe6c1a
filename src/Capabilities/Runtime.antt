-- ===== src/Capabilities/Runtime.antt =====
-- `_runtime_features`: backend/app/capabilities/resolver.py.
use Prim.Native.String.{◌++◌ as ◌<>◌}
use hermes_agent_platform.Base.{
  Bool, ◌&&◌, ◌||◌, none, some, List, [], ◌∷◌, ◌==◌, if◌then◌else◌, filter, first_by, nat_eq,
  string_eq, ltb,
}
use hermes_agent_platform.Base.Json.{Items, Fields, nil, cons, end, has_truth}
use hermes_agent_platform.Capabilities.{
  AgentRuntime, RuntimeStatus, RuntimeFeatureProfile, Registry, get_row, runtime_status_eq,
}
use hermes_agent_platform.Capabilities.Issues.{
  runtime_required, runtime_unavailable, runtime_feature_mismatch, PreflightIssue, issue, Calls,
  object_at, items_at, missing, malformed, refers, reference,
}

unfoldable pub missing_features : Calls → Fields → Items → List PreflightIssue
missing_features c features nil = []
missing_features c features (cons name names) =
    let rest = missing_features c features names in
    if has_truth (c.str_of name) features
    then rest
    else issue runtime_feature_mismatch ("runtime.required_features." <> c.str_of name) ∷ rest

abbrev pub is_down : AgentRuntime → Bool
is_down r = r.status == RuntimeStatus.offline || r.status == RuntimeStatus.disabled

unfoldable pub profile_features : Registry → AgentRuntime → Fields
profile_features reg runtime =
    elim (first_by (λ (p q : RuntimeFeatureProfile). ltb q.observed_at p.observed_at)
      (filter
        (λ (p : RuntimeFeatureProfile).
          p.runtime_registry_id == runtime.id && p.runtime_version == runtime.version)
        reg.profiles)) [ none ↦ end | some p ↦ p.features ]

unfoldable pub runtime_features : Calls → Registry → Fields → Fields × List PreflightIssue
unfolding reference missing_features profile_features
runtime_features c reg snapshot =
    let runtime = object_at "runtime" snapshot in
    elim (reference c "runtime_id" runtime) [
      | missing ↦ (end, issue runtime_required "runtime" ∷ [])
      | malformed ↦ (end, issue runtime_required "runtime.runtime_id" ∷ [])
      | refers i ↦ elim (get_row (λ (r : AgentRuntime). r.id) i reg.runtimes) [
        | none ↦ (end, issue runtime_unavailable "runtime" ∷ [])
        | some r ↦ if is_down r then (end, issue runtime_unavailable "runtime" ∷ []) else (
          profile_features reg r,
          missing_features c (profile_features reg r) (items_at "required_features" runtime),
        )
      ]
    ]
