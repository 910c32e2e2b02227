-- ===== src/Mcp.antt =====
-- packages/go/mcpwire: the tools, results and policies of the MCP bridge.
pub mod Types
pub mod Envelope
pub mod Sealed
pub mod RoundTrip
pub mod EnvelopeV2
pub mod SealedV2
