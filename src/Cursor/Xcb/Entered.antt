-- ===== src/Cursor/Xcb/Entered.antt =====
-- When an X11 cursor counts as over the window, entered of cursor/src/xcb.rs.
use pw_capture.Common.{
  ◌&&◌, ◌||◌, not, ◌*◌, take, ℕ, ℤ, pos, ◌-ℤ◌, ◌+ℤ◌, ◌≤ℤ◌, ◌<ℤ◌, leb_ℤ, ltb_ℤ, ◌<◌, ◌≡◌, ◌↔◌, Bool,
  true, none, some, arith, ◌^◌, ◌==◌, if◌then◌else◌,
}
use pw_capture.Cursor.Xcb.{
  XcbCursor, CursorImage, XcbWindow, Server, position, entered, snapshot_cursor, ok, bitmap,
}

-- The top left corner of the cursor's image, in window coordinates.
abbrev pub corner_x : XcbCursor → ℤ
corner_x c = (position c).0 -ℤ pos c.cursor_image.xhot

abbrev pub corner_y : XcbCursor → ℤ
corner_y c = (position c).1 -ℤ pos c.cursor_image.yhot

-- The image, or the single row and column left of and above it, meets the window: the corner
-- lies in [-width, window width) and [-height, window height).
abbrev pub Meets : XcbCursor → Type 0
Meets c =
    (pos 0 -ℤ pos c.cursor_image.width ≤ℤ corner_x c)
    × (corner_x c <ℤ pos c.geometry.width)
    × (pos 0 -ℤ pos c.cursor_image.height ≤ℤ corner_y c)
    × (corner_y c <ℤ pos c.geometry.height)

axis :
    (n g h : ℕ) (p : ℤ)
    → ((leb_ℤ (pos 0 -ℤ pos n +ℤ pos h) p ≡ true) ↔ (pos 0 -ℤ pos n ≤ℤ p -ℤ pos h))
      × ((ltb_ℤ p (pos g +ℤ pos h) ≡ true) ↔ (p -ℤ pos h <ℤ pos g))
axis n g h (pos k) = ground arith
axis n g h p = ground arith

all_four :
    (a b c d : Bool)
    → (((a && b) && (c && d)) ≡ true) ↔ ((a ≡ true) × (b ≡ true) × (c ≡ true) × (d ≡ true))
all_four a b c d = ground arith

-- A cursor counts as entered exactly if the corner of its image lies in [-image width, window
-- width) by [-image height, window height) of the window.
pub entered_iff : (c : XcbCursor) → (entered c ≡ true) ↔ Meets c
unfolding entered
entered_iff c =
    let x = axis image.width c.geometry.width image.xhot (position c).0 in
    let y = axis image.height c.geometry.height image.yhot (position c).1 in
    let four = all_four _ _ _ _ in
    (
      λ h. let (a, b, d, e) = four.0 h in (x.0.0 a, x.1.0 b, y.0.0 d, y.1.0 e),
      λ m. four.1 (x.0.1 m.0, x.1.1 m.1, y.0.1 m.2, y.1.1 m.3),
    )
  where
    image : CursorImage
    image = c.cursor_image

-- A snapshot under the serial that the server still has, if it is not 0, has no bitmap; under any
-- other it has the image's pixels, width * height * 4 bytes of them. Its serial is the server's.
pub bitmap-snapshot_cursor :
    (xcb : Server) (w : XcbWindow) (old : ℕ) {c : XcbCursor}
    → old < 2 ^ 32
    → snapshot_cursor xcb w old ≡ ok c
    → (c.serial ≡ c.cursor_image.cursor_serial)
      × (bitmap c ≡ (
          if (old == c.serial && not (old == 0)) || c.cursor_image.pixels_at == 0
          then none
          else some (
            c.cursor_image.width,
            c.cursor_image.height,
            4,
            take (c.cursor_image.width * c.cursor_image.height * 4) c.cursor_image.bytes,
          )))
unfolding snapshot_cursor bitmap
bitmap-snapshot_cursor xcb w old {c} lt e = ground arith
