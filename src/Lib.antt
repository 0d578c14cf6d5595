-- ===== src/Lib.antt =====
-- pw-capture: a Vulkan and OpenGL layer that offers the windows of a program as PipeWire streams,
-- with the cursor that is over them.
--
-- The parts and their files:
--   cursor/src/wayland/mod.rs, wl_lib.rs   Cursor/Wayland: the layer stands between the program and
--     libwayland-client. Requests (Methods) and pointer events (Events) that pass are recorded in
--     the tables of State by collect_method and collect_event (Collect); a cursor is read out of
--     the tables and the program's shared memory (Snapshot); the listeners that the program adds
--     are wrapped (Listeners) and events forwarded by their signature (Signature).
--   cursor/src/xcb.rs                      Cursor/Xcb: the cursor by queries to the X server.
--   cursor/src/lib.rs                      Cursor/Info: a snapshot as the client is told of it.
--   client/src/format.rs                   Client/Format: the formats and their numbers.
--   client/src/spa_utils.rs                Client/Pod: values of SPA parameters and how they read.
--   client/src/stream.rs                   Client/Params (build_format, build_stream_params),
--     Client/Negotiation (on_param_changed), Client/Stream: Buffers (on_add_buffer,
--     on_remove_buffer), Meta (fill_cursor_meta), Flow (dequeue_buffer, queue_buffer_process,
--     on_process_buffer, the callbacks).
--   client/src/client.rs, utils.rs         Client/Manager: the streams of the client's thread;
--     Client/Thread: the start and the end of the thread (Client::new, pw_thread, drop) and
--     get_app_name.
--   vulkan/src/utils/format_info.rs        Vulkan/Formats: the table of formats.
--   vulkan/src/utils/vk_helper.rs          Vulkan/Offers (get_supported_modifiers), Vulkan/Frames
--     (FenceState), Vulkan/Buffers (get_memory_type_indices, create_target_image), Vulkan/Commands
--     (record_copy_image).
--   vulkan/src/lib.rs                      Vulkan/Layer (the maps), Vulkan/Objects (instances,
--     devices, queues), Vulkan/Names (the addresses of functions), Vulkan/Surfaces, Vulkan/
--     Swapchains, Vulkan/Offers (create_stream's formats), Vulkan/Fixate (on_fixate_format),
--     Vulkan/Buffers (on_add_buffer, on_remove_buffer), Vulkan/Frames (capture_swapchain,
--     on_process_buffer, ly_swapchain_wait_image), Vulkan/Present (capture, queue_present_khr,
--     acquire_next_image_khr).
--   gl/src/interface/types.rs, state.rs    Gl/State: the tables and their types.
--   gl/src/utils/egl.rs                    Gl/Displays: the platform of a native display.
--   gl/src/interface/implementation.rs     Gl/Displays (displays), Gl/Names (do_intercept, dlsym and
--     the lookups), Gl/Surfaces (try_init_surface, destruction), Gl/Textures (the exports and
--     create_target_textures), Gl/Pool (the stream's callbacks on a capture; Freed: its drop, with
--     the drops of types.rs), Gl/Frames (capture; Init: try_capture, try_init_capture, swap),
--     Gl/Negotiation (create_stream).
--   gl/src/interface/mod.rs                Gl/Names: the symbols that the library exports.
--   gl/src/interface/wl_impl.rs            Gl/Managers: the managers of Wayland cursors.
--   gl/src/elfhack.rs                      Gl/Linking: the real dlsym and dlvsym.
--   gl/src/utils/mod.rs, x11_lib.rs        Gl/Linking/Loading: dlopen and loading, with load_gpa of
--     gl/src/interface/state.rs and the load_with of wl_lib.rs.
--
-- Both layers fill the client's StreamInfo with their callbacks. In the Vulkan layer fixate_format
-- is on_fixate_format, the offers are enum_formats and process_buffer is on_process_buffer; in the
-- OpenGL layer a buffer is a texture of the capture's pool. A frame is captured into a buffer of
-- dequeue_buffer and given back by queue_buffer_process; PipeWire then calls process. The cursors
-- are the snapshots; the Vulkan layer asks the OpenGL layer for those of Wayland through the
-- interface WlManagers of Cursor/Info.
--
-- State is passed explicitly: an operation takes the tables and returns them. A map is a function
-- from handles; the locks of the code are left out, every operation runs to its end. Handles and
-- addresses are numbers, i32 and wl_fixed_t integers with their wrapping written out, u32, u64 and
-- usize numbers modulo their width (64 bits for usize, release arithmetic). An error is none or a
-- constructor of its own, and so are a panic, a read outside mapped memory and a wait without end.
-- The recursions are structural; that of the signature's iterator runs on fuel, the length of the
-- signature, and each item takes a byte at least.
--
-- Parameters stand for what is not in the repository: libwayland-client's listener table, mmap and
-- the `fixed` crate (Platform), the X server (Server), the constants of spa_sys (SpaSys), the
-- PipeWire stream (PipeWire, StreamMaker) and its start (Startup), ash's formats (VkFormats), the
-- Vulkan driver (PhysicalDevice, CommandDriver, Driver, DeviceDriver, ImageDriver,
-- SwapchainDriver), the OpenGL, EGL and GLX drivers (Commands, Answers, EglDriver, GlxDriver), the
-- windows that can be tracked (Cursors), the constants of EGL (Enums), what an address points to
-- (Memory), the `elf` crate (Elf) and the linker (Linker).
--
-- Not modelled: the bindings (gl-sys, cursor/src/wayland/sys.rs), logging, the handlers of
-- wl_impl.rs that forward to the interception, the nightly feature's wl_proxy_marshal_flags, the
-- calls through libffi, the loader negotiation and the C entry points of the Vulkan layer that only
-- map results, and the attachment of a stream's receiver to the loop: they are declarations,
-- machine code or calls without a decision.
pub mod Common
pub mod Cursor
pub mod Client
pub mod Vulkan
pub mod Gl
