-- ===== src/Gl/State.antt =====
-- The types of the OpenGL layer, gl/src/interface/types.rs. A `GlHandle` is its number.
use pw_capture.Common.{ℕ, Bool, Option, List, DashMap}
use pw_capture.Client.Stream.Types.{BufferPlaneInfo}

pub data NativeIface : Type 0 where
  glx egl : NativeIface

pub data EglPlatform : Type 0 where
  x11 xcb wayland unknown_platform : EglPlatform

pub data FenceSync : Type 0 where
  gl_sync : NativeIface → ℕ → FenceSync
  egl_sync egl_khr_sync : ℕ → ℕ → FenceSync

pub data TextureImage : Type 0 where
  egl_image : ℕ → TextureImage
  pixmap : ℕ → ℕ → TextureImage

pub record ExportTexture : Type 0 where
  pub native : NativeIface
  pub dpy : ℕ
  pub texture : ℕ
  pub planes : List BufferPlaneInfo
  pub image : TextureImage

pub record EglDisplay : Type 0 where
  pub platform_display : ℕ
  pub platform : Option EglPlatform

pub record LayerDisplay : Type 0 where
  pub egl_display : Option EglDisplay

-- A cursor manager: an X11 window, or a Wayland surface.
pub data GlCursorManager : Type 0 where
  xcb_manager wl_manager : ℕ → GlCursorManager

-- The stream's own state is the client's.
pub record LayerCapture : Type 0 where
  pub context : ℕ
  pub width : ℕ
  pub height : ℕ
  pub cursor_serial : ℕ
  pub free_textures : List ExportTexture
  pub mapped_textures : DashMap ExportTexture
  pub sync_objects : DashMap FenceSync

pub record LayerSurface : Type 0 where
  pub native : NativeIface
  pub platform_surface : Option ℕ
  pub display : ℕ
  pub surface : ℕ
  pub cursor_manager : Option GlCursorManager
  pub capture_valid : Bool
  pub capture : Option LayerCapture

-- `DISPLAY_MAP` and `SURFACE_MAP` of gl/src/interface/state.rs.
pub record GlLayer : Type 0 where
  pub display_map : DashMap LayerDisplay
  pub surface_map : DashMap LayerSurface
