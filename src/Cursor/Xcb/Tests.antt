-- ===== src/Cursor/Xcb/Tests.antt =====
-- An X11 cursor on concrete inputs.
use pw_capture.Common.{pos, ◌≡◌, refl, false, some, [], ◌∷◌}
use pw_capture.Cursor.Xcb.{
  Server, XcbWindow, Geometry, CursorImage, XcbCursor, ok, snapshot_cursor as snapshot_xcb,
}

abbrev screen : Geometry
screen = record { root = 1; width = 640; height = 480 }

abbrev arrow : CursorImage
arrow = record {
  x = pos 10;
  y = pos 20;
  width = 1;
  height = 1;
  xhot = 0;
  yhot = 0;
  cursor_serial = 7;
  pixels_at = 4096;
  bytes = 1 ∷ 2 ∷ 3 ∷ 4 ∷ [];
}

abbrev server : Server
server = record {
  connect = 1;
  query_version = λ c. some tt;
  get_geometry = λ c w. some screen;
  translate_coordinates = λ c w r. some (record { dst_x = pos 0; dst_y = pos 0 });
  get_cursor_image = λ c. some arrow;
}

abbrev window : XcbWindow
window = record { conn = 1; to_close_conn = false; window = 2 }

abbrev arrow_cursor : XcbCursor
arrow_cursor = record {
  geometry = screen;
  translate_coordinates = record { dst_x = pos 0; dst_y = pos 0 };
  cursor_image = arrow;
  pixels = some (1 ∷ 2 ∷ 3 ∷ 4 ∷ []);
  serial = 7;
}

arrow_now : snapshot_xcb server window 3 ≡ ok arrow_cursor
unfolding snapshot_xcb
arrow_now = refl
