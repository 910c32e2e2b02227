-- ===== src/Router.antt =====
-- apps/personal-assistant-agent/internal/adapters/mcpclient: the tools of several MCP servers.
pub mod Servers
pub mod Routed
