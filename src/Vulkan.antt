-- ===== src/Vulkan.antt =====
-- The Vulkan layer, vulkan/src.
pub mod Formats
pub mod Offers
pub mod Layer
pub mod Fixate
pub mod Frames
pub mod Surfaces
pub mod Objects
pub mod Names
pub mod Buffers
pub mod Swapchains
pub mod Present
pub mod Commands
pub mod Tests
