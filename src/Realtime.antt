-- ===== src/Realtime.antt =====
-- packages/go/realtime: the stream of a Realtime provider and its mapping to the voice contract.
pub mod Types
pub mod Mapper
pub mod Mapping
pub mod Run
