-- ===== src/Gateway.antt =====
-- apps/voice-gateway/internal/adapters/voice: the public edge, between a client and an agent session.
pub mod Translate
pub mod Commands
pub mod Latency
pub mod Session
