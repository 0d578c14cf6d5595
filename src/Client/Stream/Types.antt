-- ===== src/Client/Stream/Types.antt =====
-- The data of client/src/stream.rs and the parts of a PipeWire buffer that it reads and writes.
use pw_capture.Common.{ℕ, ℤ, Bool, Option, List}
use pw_capture.Client.Format.{Format}

abbrev pub BufferHandle : Type 0
BufferHandle = ℕ

pub data BufferUserHandle : Type 0 where
  vk_image texture : ℕ → BufferUserHandle

pub record BufferPlaneInfo : Type 0 where
  pub fd : ℤ
  pub offset : ℕ
  pub size : ℕ
  pub stride : ℕ

pub record BufferInfo : Type 0 where
  pub is_dma_buf : Bool
  pub planes : List BufferPlaneInfo
  pub user_handle : BufferUserHandle

pub record Point : Type 0 where
  pub x : ℤ
  pub y : ℤ

pub record BufferBitmap : Type 0 where
  pub width : ℕ
  pub height : ℕ
  pub format : Format
  pub pixels : List ℕ

pub record BufferCursorInfo : Type 0 where
  pub serial : Bool
  pub position : Point
  pub hotspot : Point
  pub bitmap : Option BufferBitmap

pub record StreamData : Type 0 where
  pub seq : ℕ
  pub cursor_id : ℕ

-- One `spa_data` with its chunk.
pub record Chunk : Type 0 where
  pub offset : ℕ
  pub size : ℕ
  pub stride : ℤ

pub record SpaData : Type 0 where
  pub fd : ℤ
  pub data_null : Bool
  pub mapoffset : ℕ
  pub maxsize : ℕ
  pub kind : ℕ
  pub chunk : Chunk

-- One entry of the metadata table.
pub record SpaMeta : Type 0 where
  pub kind : ℕ
  pub size : ℕ

pub record HeaderMeta : Type 0 where
  pub flags : ℕ
  pub offset : ℕ
  pub pts : ℤ
  pub dts_offset : ℤ
  pub seq : ℕ

pub record BitmapMeta : Type 0 where
  pub format : ℕ
  pub width : ℕ
  pub height : ℕ
  pub stride : ℤ
  pub offset : ℕ
  pub pixels : List ℕ

pub record CursorMeta : Type 0 where
  pub id : ℕ
  pub flags : ℕ
  pub position : Point
  pub hotspot : Point
  pub bitmap_offset : ℕ
  pub bitmap : BitmapMeta

-- `header` and `cursor` are the memory of the first entry of either kind in `metas`.
pub record PwBuffer : Type 0 where
  pub user_data : Option BufferUserHandle
  pub datas : List SpaData
  pub metas : List SpaMeta
  pub header : HeaderMeta
  pub cursor : CursorMeta
  pub size : ℕ
