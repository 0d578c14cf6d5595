-- ===== src/Client.antt =====
-- The client crate, client/src: the PipeWire side of the capture.
pub mod Format
pub mod Pod
pub mod Params
pub mod Negotiation
pub mod Stream
pub mod Manager
pub mod Thread
pub mod Tests
