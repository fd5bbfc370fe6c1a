-- ===== src/Gateway/Sent.antt =====
-- Which calls of `invoke_capability` reach a provider:
-- services/mcp-gateway/hermes_mcp_gateway/capability_gateway.py.
use hermes_agent_platform.Base.{nat_eq, string_eq, option_eq}
use hermes_agent_platform.Base.Json.{Json}
use hermes_agent_platform.Base.Outcome.{Outcome}
