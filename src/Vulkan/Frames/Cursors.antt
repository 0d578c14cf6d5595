-- ===== src/Vulkan/Frames/Cursors.antt =====
-- The cursors of the frames of a swapchain, on_process_buffer of vulkan/src/lib.rs over the
-- snapshots of cursor/src/wayland/mod.rs.
