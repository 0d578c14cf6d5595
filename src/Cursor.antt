-- ===== src/Cursor.antt =====
-- The cursor crate, cursor/src.
pub mod Wayland
pub mod Xcb
pub mod Info
pub mod Tests
