-- ===== src/Versions/Transitions.antt =====
-- What the status of an Agent and of its versions can become outside a publication.
use hermes_agent_platform.Base.{ℕ, ◌≡◌, ◌≢◌, ◌⊎◌, ◌↔◌, Bool, true, Option, none, arith, String}
use hermes_agent_platform.Base.Outcome.{ok}
use hermes_agent_platform.Versions.{
  AgentStatus, active, archived, agent_status_eq, VersionStatus, version_status_eq, Agent,
  AgentVersion, Snapshot, transition_agent, transition_agent_version, update_agent_version,
  is_editable,
}

-- An Agent's transition leaves an archived Agent archived, enables the API exactly for an active
-- Agent with a current version, and changes nothing but the status and that flag.
pub transition_agent_lem :
    (target : AgentStatus) (a b : Agent)
    → transition_agent target a ≡ ok b
    → ((a.status ≢ archived) ⊎ (b.status ≡ archived))
      × ((b.api_enabled ≡ true) ↔ ((b.status ≡ active) × (b.current_version_id ≢ none)))
      × (b ≡ record a { status = b.status; api_enabled = b.api_enabled })
unfolding transition_agent
transition_agent_lem target a b h = ground (arith, h)

-- No transition or update makes a version published or deprecated: only a publication and a
-- rollback do.
pub drafts_stay :
    (valid : Snapshot → Bool) (now : ℕ) (target : VersionStatus) (s : Option Snapshot)
    (d : Option (Option String)) (v w : AgentVersion)
    → (transition_agent_version now target v ≡ ok w) ⊎ (update_agent_version valid now s d v ≡ ok w)
    → is_editable v.status ≡ true
    → is_editable w.status ≡ true
unfolding update_agent_version transition_agent_version
drafts_stay valid now target s d v w h e = ground (arith, h, e)
