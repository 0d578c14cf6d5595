-- ===== src/Client/Stream/Meta/Cursor.antt =====
-- What the consumer of a buffer reads of the cursor, fill_cursor_meta of client/src/stream.rs.
use pw_capture.Common.{
  ℕ, ℤ, as_i32, ◌+◌, ◌<◌, ◌%◌, ◌^◌, ◌≡◌, refl, Option, none, some, List, arith, ◌==◌, leb,
  if◌then◌else◌, length,
}
use pw_capture.Client.Format.{format_into}
use pw_capture.Client.Pod.{SpaSys}
use pw_capture.Client.Params.{max_cursor_bitmap_size}
use pw_capture.Client.Stream.Types.{Point, BufferBitmap, BufferCursorInfo, CursorMeta}
use pw_capture.Client.Stream.Meta.{fill_bitmap, fill_cursor_meta}

-- What the metadata tells a consumer: no cursor at id 0, and no bitmap at offset 0; else the fields
-- as they stand.
pub record SeenBitmap : Type 0 where
  pub format : ℕ
  pub width : ℕ
  pub height : ℕ
  pub stride : ℤ
  pub offset : ℕ
  pub pixels : List ℕ

pub record SeenCursor : Type 0 where
  pub id : ℕ
  pub position : Point
  pub hotspot : Point
  pub bitmap : Option SeenBitmap

pub seen_bitmap : CursorMeta → Option SeenBitmap
seen_bitmap m =
    if m.bitmap_offset == 0
    then none
    else some (record {
      format = m.bitmap.format;
      width = m.bitmap.width;
      height = m.bitmap.height;
      stride = m.bitmap.stride;
      offset = m.bitmap.offset;
      pixels = m.bitmap.pixels;
    })

pub seen : CursorMeta → Option SeenCursor
unfolding seen_bitmap
seen m =
    if m.id == 0
    then none
    else some
        (record { id = m.id; position = m.position; hotspot = m.hotspot; bitmap = seen_bitmap m })

-- The bitmap that is told of: one that is too large is dropped. The stride is the width in pixels,
-- and the bytes follow the bitmap's header.
pub fitting : SpaSys → Option BufferBitmap → Option SeenBitmap
fitting spa none = none
fitting spa (some b) =
    if leb (length b.pixels) max_cursor_bitmap_size
    then some (record {
      format = format_into b.format;
      width = b.width;
      height = b.height;
      stride = as_i32 b.width;
      offset = spa.sizeof_meta_bitmap;
      pixels = b.pixels;
    })
    else none

seen-fill_bitmap :
    (spa : SpaSys) (b : Option BufferBitmap) (m : CursorMeta)
    → 0 < spa.sizeof_meta_cursor
    → (seen_bitmap (fill_bitmap spa b m) ≡ fitting spa b)
      × ((fill_bitmap spa b m).id ≡ m.id)
      × ((fill_bitmap spa b m).position ≡ m.position)
      × ((fill_bitmap spa b m).hotspot ≡ m.hotspot)
unfolding seen_bitmap fill_bitmap fitting
seen-fill_bitmap spa none m h = (refl, refl, refl, refl)
seen-fill_bitmap spa (some b) m h = ground arith

abbrev placed : ℕ → CursorMeta → BufferCursorInfo → CursorMeta
placed id m info = record m {
  id = if info.serial then (id + 1) % 2 ^ 32 else id;
  flags = 0;
  position = info.position;
  hotspot = info.hotspot;
}

-- After a frame without a cursor the consumer is told of none; after a frame with one, unless
-- the new id is 0, that id, the position, the hotspot, and the bitmap if it has at most
-- max_cursor_bitmap_size bytes. The id counts up by one, modulo 2^32, exactly at a new serial.
pub seen-fill_cursor_meta :
    (spa : SpaSys) (id : ℕ) (m : CursorMeta) (info : BufferCursorInfo)
    → 0 < spa.sizeof_meta_cursor
    → let next = if info.serial then (id + 1) % 2 ^ 32 else id in
      (seen (fill_cursor_meta spa id m none).1 ≡ none)
      × ((fill_cursor_meta spa id m none).0 ≡ id)
      × ((fill_cursor_meta spa id m (some info)).0 ≡ next)
      × (seen (fill_cursor_meta spa id m (some info)).1 ≡ (
          if next == 0
          then none
          else some (record {
            id = next;
            position = info.position;
            hotspot = info.hotspot;
            bitmap = fitting spa info.bitmap;
          })))
unfolding seen fill_cursor_meta
seen-fill_cursor_meta spa id m info h =
    (refl, refl, refl, ground (arith, seen-fill_bitmap spa info.bitmap (placed id m info) h))
