-- ===== src/Cursor/Wayland.antt =====
-- The Wayland interception of the cursor crate, cursor/src/wayland: the tables that mirror the
-- application's protocol objects, the requests and events that fill them, the snapshot, the
-- listeners that the interception wraps, and the signatures that drive the forwarded calls.
pub mod State
pub mod Methods
pub mod Events
pub mod Collect
pub mod Snapshot
pub mod Listeners
pub mod Signature
mod Tests
