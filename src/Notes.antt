-- ===== src/Notes.antt =====
-- apps/mcp-notes: notes, and the mutations that the assistant asks for.
pub mod Store
pub mod Kept
