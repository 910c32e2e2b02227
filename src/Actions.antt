-- ===== src/Actions.antt =====
-- packages/go/actionruntime: the tool permission decisions of a voice session (tools.go, profile.go,
-- datetime_format.go).
pub mod Types
pub mod Normalize
pub mod DateFormat
pub mod Discovery
pub mod Planning
pub mod Dialogue
pub mod Release
pub mod Run
pub mod Replies
pub mod Offered
