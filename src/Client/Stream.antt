-- ===== src/Client/Stream.antt =====
-- The stream of client/src/stream.rs, after its format is settled: the buffers, their metadata and
-- their way between PipeWire, the capturing layer and the process callback.
pub mod Types
pub mod Meta
pub mod Buffers
pub mod Flow
mod Tests
