-- ===== src/Cursor/Xcb.antt =====
-- The X11 cursor of the cursor crate, cursor/src/xcb.rs. The replies of the X server are
-- arguments; `none` is a null reply. Coordinates are `i16` in the replies and `i32` afterwards.
pub mod Entered
mod Tests
use pw_capture.Common.{
  ℕ, ℤ, pos, sub_i16, ◌-ℤ◌, ◌+ℤ◌, leb_ℤ, ltb_ℤ, ◌*◌, ◌%◌, ◌^◌, Bool, true, false, not, ◌&&◌, ◌||◌,
  Option, none, some, List, ◌==◌, if◌then◌else◌, take,
}

pub record XcbWindow : Type 0 where
  pub conn : ℕ
  pub to_close_conn : Bool
  pub window : ℕ

pub record Geometry : Type 0 where
  pub root : ℕ
  pub width : ℕ
  pub height : ℕ

pub record TranslateCoordinates : Type 0 where
  pub dst_x : ℤ
  pub dst_y : ℤ

-- `pixels_at` is the address of the pixels, and `pixels` the words behind it.
pub record CursorImage : Type 0 where
  pub x : ℤ
  pub y : ℤ
  pub width : ℕ
  pub height : ℕ
  pub xhot : ℕ
  pub yhot : ℕ
  pub cursor_serial : ℕ
  pub pixels_at : ℕ
  pub bytes : List ℕ

pub record XcbCursor : Type 0 where
  pub geometry : Geometry
  pub translate_coordinates : TranslateCoordinates
  pub cursor_image : CursorImage
  pub pixels : Option (List ℕ)
  pub serial : ℕ

pub data Failure : Type 0 where
  query_version_failed get_geometry_failed translate_failed get_cursor_image_failed : Failure

pub data Reply {ℓ} (A : Type ℓ) : Type ℓ where
  ok : A → Reply A
  err : Failure → Reply A

infixl 5 ◌>>=◌
abbrev pub ◌>>=◌ {ℓ κ} : {A : Type ℓ} {B : Type κ} → Reply A → (A → Reply B) → Reply B
ok a >>= f = f a
err e >>= f = err e

abbrev pub or_fail {ℓ} : {A : Type ℓ} → Option A → Failure → Reply A
or_fail none e = err e
or_fail (some a) e = ok a

-- The X server behind one connection: the reply to each request the code makes.
pub record Server : Type 0 where
  pub connect : ℕ
  pub query_version : ℕ → Option (Unit {0})
  pub get_geometry : ℕ → ℕ → Option Geometry
  pub translate_coordinates : ℕ → ℕ → ℕ → Option TranslateCoordinates
  pub get_cursor_image : ℕ → Option CursorImage

module _ (xcb : Server) where
  -- A null connection (0) is replaced by a new one.
  unfoldable pub new_internal : ℕ → ℕ → Reply XcbWindow
  new_internal conn window =
      let opened = if conn == 0 then xcb.connect else conn in
      do
        _ ← or_fail (xcb.query_version opened) query_version_failed
        _ ← or_fail (xcb.get_geometry opened window) get_geometry_failed
        ok (record { conn = opened; to_close_conn = conn == 0; window = window })

  unfoldable pub new_connection : ℕ → Reply XcbWindow
  unfolding new_internal
  new_connection window = new_internal 0 window

  -- The connections that dropping the window closes.
  unfoldable pub closes : XcbWindow → Option ℕ
  closes w = if w.to_close_conn then some w.conn else none

  abbrev pub root_of : XcbWindow → Geometry → ℕ
  root_of w g = if not (g.root == 0) then g.root else w.window

  unfoldable pub snapshot_cursor : XcbWindow → ℕ → Reply XcbCursor
  snapshot_cursor w serial' = do
    let serial = serial' % 2 ^ 32
    geometry ← or_fail (xcb.get_geometry w.conn w.window) get_geometry_failed
    translate ←
        or_fail (xcb.translate_coordinates w.conn w.window (root_of w geometry)) translate_failed
    image ← or_fail (xcb.get_cursor_image w.conn) get_cursor_image_failed
    let pixels = if image.pixels_at == 0 then none else some image.bytes
    ok (record {
      geometry = geometry;
      translate_coordinates = translate;
      cursor_image = image;
      pixels = if not (serial == image.cursor_serial) || serial == 0 then pixels else none;
      serial = image.cursor_serial;
    })

unfoldable pub position : XcbCursor → ℤ × ℤ
position c = (
  sub_i16 c.cursor_image.x c.translate_coordinates.dst_x,
  sub_i16 c.cursor_image.y c.translate_coordinates.dst_y,
)

-- `(lo..hi).contains(&v)`.
abbrev pub contains : ℤ → ℤ → ℤ → Bool
contains lo hi v = leb_ℤ lo v && ltb_ℤ v hi

-- Between minus the image's size and the window's size, both shifted by the hotspot.
unfoldable pub entered : XcbCursor → Bool
unfolding position
entered c =
    contains (pos 0 -ℤ pos c.cursor_image.width +ℤ pos c.cursor_image.xhot)
      (pos c.geometry.width +ℤ pos c.cursor_image.xhot) (position c).0
    && contains (pos 0 -ℤ pos c.cursor_image.height +ℤ pos c.cursor_image.yhot)
        (pos c.geometry.height +ℤ pos c.cursor_image.yhot) (position c).1

unfoldable pub hotspot : XcbCursor → ℤ × ℤ
hotspot c = (pos c.cursor_image.xhot, pos c.cursor_image.yhot)

unfoldable pub bitmap : XcbCursor → Option (ℕ × ℕ × ℕ × List ℕ)
bitmap c = elim c.pixels [
  | none ↦ none
  | some bytes ↦ some (
    c.cursor_image.width,
    c.cursor_image.height,
    4,
    take (c.cursor_image.width * c.cursor_image.height * 4) bytes,
  )
]
