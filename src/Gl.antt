-- ===== src/Gl.antt =====
-- The OpenGL layer, gl/src/interface.
pub mod State
pub mod Displays
pub mod Names
pub mod Linking
pub mod Managers
pub mod Surfaces
pub mod Frames
pub mod Textures
pub mod Pool
pub mod Negotiation
mod Tests
