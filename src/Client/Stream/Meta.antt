-- ===== src/Client/Stream/Meta.antt =====
-- The metadata of a buffer: spa_buffer_find_meta_data of client/src/spa_utils.rs and
-- fill_cursor_meta of client/src/stream.rs.
pub mod Cursor
use pw_capture.Common.{
  ℕ, ◌+◌, ◌%◌, ◌^◌, Bool, true, false, Option, none, some, List, [], ◌∷◌, ◌==◌, leb, if◌then◌else◌,
  length, as_i32,
}
use pw_capture.Client.Format.{format_into}
use pw_capture.Client.Pod.{SpaSys}
use pw_capture.Client.Params.{max_cursor_bitmap_size}
use pw_capture.Client.Stream.Types.{BufferBitmap, BufferCursorInfo, SpaMeta, BitmapMeta, CursorMeta}

-- Whether the pointer is not null: only the first entry of the kind counts, and it has to hold
-- the type that is asked for.
unfoldable pub spa_buffer_find_meta_data : ℕ → ℕ → List SpaMeta → Bool
spa_buffer_find_meta_data kind size_of [] = false
spa_buffer_find_meta_data kind size_of (meta ∷ metas) =
    let rest = spa_buffer_find_meta_data kind size_of metas in
    if meta.kind == kind then leb size_of meta.size else rest

module _ (spa : SpaSys) where
  -- The bitmap's header is written whatever the size of the pixels.
  unfoldable pub bitmap_header : BufferBitmap → BitmapMeta → BitmapMeta
  bitmap_header b old = record old {
    format = format_into b.format;
    width = b.width;
    height = b.height;
    stride = as_i32 b.width;
    offset = spa.sizeof_meta_bitmap;
  }

  unfoldable pub fill_bitmap : Option BufferBitmap → CursorMeta → CursorMeta
  unfolding bitmap_header
  fill_bitmap none cursor = record cursor { bitmap_offset = 0 }
  fill_bitmap (some b) cursor =
      let header = bitmap_header b cursor.bitmap in
      if leb (length b.pixels) max_cursor_bitmap_size
      then record cursor {
        bitmap_offset = spa.sizeof_meta_cursor;
        bitmap = record header { pixels = b.pixels };
      }
      else record cursor { bitmap_offset = 0; bitmap = header }

  -- The new cursor id and the metadata; `*id += 1` on a `u32` wraps.
  unfoldable pub fill_cursor_meta : ℕ → CursorMeta → Option BufferCursorInfo → ℕ × CursorMeta
  unfolding fill_bitmap
  fill_cursor_meta id cursor none = (id, record cursor { id = 0 })
  fill_cursor_meta id cursor (some info) =
      let new_id = if info.serial then (id + 1) % 2 ^ 32 else id in
      (
        new_id,
        fill_bitmap info.bitmap (record cursor {
          id = new_id;
          flags = 0;
          position = info.position;
          hotspot = info.hotspot;
        }),
      )
