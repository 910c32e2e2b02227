-- ===== src/Assistant.antt =====
-- apps/personal-assistant-agent/internal/agent: one session of the assistant.
pub mod State
pub mod Inputs
pub mod Calls
pub mod Loop
pub mod Plain
pub mod Started
pub mod Moved
pub mod Heard
pub mod Once
pub mod Timed
pub mod Calm
pub mod Armed
pub mod Answered
pub mod Awaited
