-- ===== src/Voice.antt =====
-- packages/go/voicewire/event.go: the public voice contract between clients and the gateway.
pub mod Id
pub mod Event
pub mod Decode
pub mod Message
pub mod Accepted
