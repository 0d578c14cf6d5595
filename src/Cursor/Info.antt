-- ===== src/Cursor/Info.antt =====
-- A cursor as the client is told of it: the trait CursorSnapshot of cursor/src/lib.rs with its
-- as_cursor_info, its implementations in cursor/src/wayland/mod.rs and cursor/src/xcb.rs, and the
-- functions by which the Vulkan layer asks the OpenGL layer for Wayland cursors.
pub mod Shown
pub mod Again
use pw_capture.Common.{ℕ, ℤ, Bool, true, not, ◌==◌, if◌then◌else◌, Option, none, some, List}
use pw_capture.Client.Format.{Format, unknown, bgra, bgrx, rgba, rgbx}
use pw_capture.Client.Stream.Types.{Point, BufferBitmap, BufferCursorInfo}
use pw_capture.Cursor.Wayland.Snapshot.{Fetch, BitmapInfo, WlCursorSnapshot}
use pw_capture.Cursor.Xcb.{XcbCursor, position, entered, hotspot, bitmap}

-- The trait's methods; a bitmap is its width, height, bytes per pixel and pixels.
pub record CursorSnapshot : Type 0 where
  pub serial : ℕ
  pub entered : Bool
  pub position : ℤ × ℤ
  pub hotspot : ℤ × ℤ
  pub bitmap : Option (ℕ × ℕ × ℕ × List ℕ)
  pub format : Format

unfoldable pub bitmap_of : CursorSnapshot → Option BufferBitmap
bitmap_of s = elim s.bitmap [
  | none ↦ none
  | some (width, height, bpp, pixels) ↦
      some (record { width = width; height = height; format = s.format; pixels = pixels })
]

abbrev pub point : ℤ × ℤ → Point
point (x, y) = record { x = x; y = y }

unfoldable pub as_cursor_info : Bool → CursorSnapshot → Option BufferCursorInfo
unfolding bitmap_of
as_cursor_info serial s =
    if not s.entered
    then none
    else some (record {
      serial = serial;
      position = point s.position;
      hotspot = point s.hotspot;
      bitmap = bitmap_of s;
    })

-- The four formats of Wayland's shared memory that are named.
unfoldable pub format_of_shm : ℕ → Format
format_of_shm format =
    if format == 0
    then bgra
    else if format == 1
    then bgrx
    else if format == 0x34324152
    then rgba
    else if format == 0x34325852
    then rgbx
    else unknown

unfoldable pub wl_bitmap : Option BitmapInfo → Option (ℕ × ℕ × ℕ × List ℕ)
wl_bitmap none = none
wl_bitmap (some b) = some (b.width, b.height, b.bpp, b.pixels)

unfoldable pub wl_format : Option BitmapInfo → Format
unfolding format_of_shm
wl_format none = unknown
wl_format (some b) = format_of_shm b.format

unfoldable pub wl_snapshot : WlCursorSnapshot → CursorSnapshot
unfolding wl_bitmap wl_format
wl_snapshot s = record {
  serial = s.serial;
  entered = s.entered;
  position = s.position;
  hotspot = s.hotspot;
  bitmap = wl_bitmap s.bitmap;
  format = wl_format s.bitmap;
}

unfoldable pub xcb_snapshot : XcbCursor → CursorSnapshot
xcb_snapshot c = record {
  serial = c.serial;
  entered = entered c;
  position = position c;
  hotspot = hotspot c;
  bitmap = bitmap c;
  format = bgra;
}

-- The managers of Wayland cursors by their handles, 0 for none: to make one for a display and a
-- surface, to release one, and to take a snapshot at an old serial.
pub record WlManagers (S : Type 0) : Type 0 where
  pub get_wl_cursor_manager : ℕ → ℕ → S → S × ℕ
  pub release_wl_cursor_manager : ℕ → S → S × Bool
  pub wl_cursor_snapshot : ℕ → ℕ → S → Fetch CursorSnapshot
