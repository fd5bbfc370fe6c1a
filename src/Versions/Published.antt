-- ===== src/Versions/Published.antt =====
-- After a publication or a rollback exactly the chosen version of the Agent is live.
use hermes_agent_platform.Base.{
  ℕ, ◌≡◌, refl, sym, ap, ◌∙◌, true, not, some, List, [], ◌∷◌, String, ◌==◌, find, string_eq, nat_eq,
  arith, All, All₂,
}
use mathlib.Core.Path.{subst}
use hermes_agent_platform.Base.Outcome.{ok, raise_if, bind_ok}
use hermes_agent_platform.Versions.{
  ContractStatus, AgentStatus, VersionStatus, release_candidate, Agent, AgentVersion, Registry,
  version_status_eq,
}
use hermes_agent_platform.Versions.Restore.{Calls, restore_agent_version, or_old}
use hermes_agent_platform.Versions.Publish.{
  deprecate_others, change_version, published_version, republished_version, live_agent,
  publish_agent_version, publish_schema, find_schema, publish_contract, has_api, api_disabled,
  publish_agent, rollback_agent_version,
}

-- No version of the Agent but `i` is published.
abbrev pub OnlyPublished : String → ℕ → List AgentVersion → Type 0
OnlyPublished a i = All (λ v. v.agent_id ≡ a → v.status ≡ VersionStatus.published → v.id ≡ i)

-- The rows are the same versions with the same snapshots, and `i` is published among them.
abbrev pub SameVersions : ℕ → List AgentVersion → List AgentVersion → Type 0
SameVersions i = All₂ (λ v w.
    (w.id ≡ v.id) × (w.snapshot ≡ v.snapshot) × (v.id ≡ i → w.status ≡ VersionStatus.published))

-- A change of a row that publishes it and keeps its id and its snapshot.
abbrev Publishes : (AgentVersion → AgentVersion) → Type 0
Publishes f =
    (v : AgentVersion)
    → ((f v).id ≡ v.id) × ((f v).snapshot ≡ v.snapshot) × ((f v).status ≡ VersionStatus.published)

only_published :
    (f : AgentVersion → AgentVersion) (now : ℕ) (a : String) (i : ℕ) (vs : List AgentVersion)
    → Publishes f
    → OnlyPublished a i (change_version f i (deprecate_others now a i vs))
unfolding change_version deprecate_others
only_published f now a i [] p = tt
only_published f now a i (v ∷ vs) p = (
  ground (arith, p v, p (record v { status = VersionStatus.deprecated; deprecated_at = some now })),
  only_published f now a i vs p,
)

same_versions :
    (f : AgentVersion → AgentVersion) (now : ℕ) (a : String) (i : ℕ) (vs : List AgentVersion)
    → Publishes f
    → SameVersions i vs (change_version f i (deprecate_others now a i vs))
unfolding change_version deprecate_others
same_versions f now a i [] p = tt
same_versions f now a i (v ∷ vs) p = (
  ground (arith, p v, p (record v { status = VersionStatus.deprecated; deprecated_at = some now })),
  same_versions f now a i vs p,
)

-- What a restore leaves as it was.
restore_keeps :
    (c : Calls) (now : ℕ) (v : AgentVersion) (r r' : Registry)
    → restore_agent_version c now true v r ≡ ok r'
    → (r'.versions ≡ r.versions) × (r'.agent.id ≡ r.agent.id) × (r'.publication ≡ r.publication)
unfolding restore_agent_version
restore_keeps c now v r r' h = ground arith

-- The Agent serves version `v`, which is the only one of its versions that is published; the
-- versions are those of before, with their snapshots, and the public contract is published.
pub record IsLive (v : AgentVersion) (r r' : Registry) : Type 0 where
  pub same_agent : r'.agent.id ≡ r.agent.id
  pub current : r'.agent.current_version_id ≡ some v.id
  pub serving : r'.agent.status ≡ AgentStatus.active
  pub enabled : r'.agent.api_enabled ≡ true
  pub alone : OnlyPublished r.agent.id v.id r'.versions
  pub versions : SameVersions v.id r.versions r'.versions

IsLive-of_rows :
    (f : AgentVersion → AgentVersion) (now : ℕ) (v : AgentVersion) (r r' : Registry) (a : Agent)
    → Publishes f
    → r'.versions ≡ change_version f v.id (deprecate_others now r.agent.id v.id r.versions)
    → r'.agent ≡ live_agent v.id a
    → a.id ≡ r.agent.id
    → IsLive v r r'
IsLive-of_rows f now v r r' a p rows agent same = record {
  same_agent = ap (λ (x : Agent). x.id) agent ∙ same;
  current = ap (λ (x : Agent). x.current_version_id) agent;
  serving = ap (λ (x : Agent). x.status) agent;
  enabled = ap (λ (x : Agent). x.api_enabled) agent;
  alone =
      subst (OnlyPublished r.agent.id v.id) (sym rows)
        (only_published f now r.agent.id v.id r.versions p);
  versions =
      subst (SameVersions v.id r.versions) (sym rows)
        (same_versions f now r.agent.id v.id r.versions p);
}

-- A rollback succeeds only for a deprecated version, and makes that version live, with the Agent's
-- publication published.
pub rollback-IsLive :
    (c : Calls) (now : ℕ) (v : AgentVersion) (r r' : Registry)
    → rollback_agent_version c now v r ≡ ok r'
    → (v.status ≡ VersionStatus.deprecated)
      × (r'.publication ≡ some ContractStatus.published)
      × IsLive v r r'
unfolding rollback_agent_version
rollback-IsLive c now v r r' h =
    let (_, guarded, h₁) =
      bind_ok (raise_if (not (v.status == VersionStatus.deprecated)) _) _ r' h in
    let (s, restored, h₂) = bind_ok (restore_agent_version c now true v r) _ r' h₁ in
    let (rows, same, _) = restore_keeps c now v r s restored in
    (
      ground (arith, guarded),
      ground (arith, h₂),
      IsLive-of_rows (republished_version now) now v r r' s.agent (λ w. (refl, refl, refl))
          (ground (arith, h₂, rows, same)) (ground (arith, h₂)) same,
    )

-- A publication succeeds only for a release candidate, and makes that version live, with the
-- Agent's publication published.
pub publish_agent-IsLive :
    (c : Calls) (now : ℕ) (v : AgentVersion) (r r' : Registry)
    → publish_agent c now v r ≡ ok r'
    → (v.status ≡ release_candidate)
      × (r'.publication ≡ some ContractStatus.published)
      × IsLive v r r'
unfolding publish_agent
publish_agent-IsLive c now v r r' h =
    let (_, guarded, h₁) = bind_ok (raise_if (not (v.status == release_candidate)) _) _ r' h in
    let (found, _, h₂) = bind_ok (find_schema v r) _ r' h₁ in
    let (schema, _, h₃) = bind_ok (publish_schema now found) _ r' h₂ in
    let (_, _, h₄) =
      bind_ok
        (raise_if
          (api_disabled (find (has_api r.agent.id (or_old v.snapshot.api_version "v1")) r.apis)) _)
        _ r' h₃ in
    let (s, restored, h₅) =
      bind_ok (restore_agent_version c now true v (publish_contract now v schema r)) _ r' h₄ in
    let (rows, same, contract) =
      restore_keeps c now v (publish_contract now v schema r) s restored in
    (
      ground (arith, guarded),
      ground (arith, h₅, contract),
      IsLive-of_rows (published_version now) now v r r' s.agent (λ w. (refl, refl, refl))
          (ground (arith, h₅, rows)) (ground (arith, h₅)) same,
    )

-- Making a version live without its contract does the same to the Agent and its versions.
pub publish_agent_version-IsLive :
    (now : ℕ) (v : AgentVersion) (r : Registry) → IsLive v r (publish_agent_version now v r)
unfolding publish_agent_version
publish_agent_version-IsLive now v r =
    IsLive-of_rows (published_version now) now v r (publish_agent_version now v r) r.agent
      (λ w. (refl, refl, refl)) refl refl refl
