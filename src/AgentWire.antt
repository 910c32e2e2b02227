-- ===== src/AgentWire.antt =====
-- packages/go/agentwire: the agent-session contract between the gateway and an agent.
pub mod Types
pub mod Protocol
pub mod Identifier
pub mod Remote
pub mod Endpoint
pub mod Handshake
pub mod Trust
pub mod Meeting
pub mod Link
