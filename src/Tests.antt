-- ===== src/Tests.antt =====
-- Runs of the modelled code on concrete inputs, and the theorems applied there.
mod Actions
mod Policies
mod Voice
mod Realtime
mod Toy
mod Agenda
mod Envelope
mod Files
mod Router
mod AgentWire
mod Gateway
mod Assistant
