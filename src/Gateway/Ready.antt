-- ===== src/Gateway/Ready.antt =====
-- A capability that the resolver passes (backend/app/capabilities/resolver.py), as the gateway finds
-- it: services/mcp-gateway/hermes_mcp_gateway/capability_gateway.py.
use hermes_agent_platform.Base.{◌≡◌, true, false, some}
use hermes_agent_platform.Capabilities.{CapabilityImplementation, ResourceScopeRevision}
use hermes_agent_platform.Capabilities.Issues.{Calls}
use hermes_agent_platform.Capabilities.Rows.{Row}
use hermes_agent_platform.Capabilities.Providers.{
  implementation, is_database, is_offline, scope_revision,
}
use hermes_agent_platform.Gateway.{Provider, World}
use hermes_agent_platform.Gateway.Checks.{provider_row}

-- The connection of a call: there, enabled, not offline, and for a database within a scope of it.
pub record IsReachable (c : Calls) (w : World) (r : Row) : Type 0 where
  pub chosen : CapabilityImplementation
  pub provider : Provider
  pub has_implementation : implementation w.registry r.binding r.version.id ≡ some chosen
  pub has_provider : provider_row w r.binding chosen ≡ some provider
  pub enabled : provider.instance_row.enabled ≡ true
  pub online : is_offline provider.instance_row.health_status ≡ false
  pub scoped :
      is_database (some provider.connector) ≡ true
      → (s : ResourceScopeRevision) × (provider.scope ≡ some s)
        × (scope_revision c s ≡ c.show provider.revision.id)
