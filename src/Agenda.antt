-- ===== src/Agenda.antt =====
-- apps/mcp-agenda: appointments, and the mutations that the assistant asks for.
pub mod Scheduling
pub mod Store
pub mod Slots
pub mod Booked
pub mod Replay
pub mod Bookable
