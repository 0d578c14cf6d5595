-- ===== src/Gl/Pool.antt =====
-- The textures of a capture as buffers of its stream: on_add_buffer, on_remove_buffer and
-- on_process_buffer of gl/src/interface/implementation.rs.
pub mod Spec
pub mod Refine
pub mod Apart
pub mod Freed
use pw_capture.Common.{
  ℕ, Bool, true, false, not, ◌==◌, if◌then◌else◌, Option, none, some, List, [], ◌∷◌, ◌++◌, insert,
  remove, Reply, ok, err, panics,
}
use pw_capture.Client.Stream.Types.{
  BufferUserHandle, vk_image, texture, BufferInfo, BufferCursorInfo,
}
use pw_capture.Cursor.Info.{CursorSnapshot, as_cursor_info}
use pw_capture.Gl.State.{FenceSync, ExportTexture, LayerCapture, LayerSurface, GlLayer}

-- The buffer of a texture, and the capture with the texture mapped.
unfoldable pub map_texture : LayerCapture → List ExportTexture → LayerCapture × Reply BufferInfo
map_texture c [] = (c, err)
map_texture c (e ∷ free) = (
  record c { free_textures = free; mapped_textures = insert e.texture e c.mapped_textures },
  ok (record { is_dma_buf = true; planes = e.planes; user_handle = texture e.texture }),
)

unfoldable pub unmap_texture : ℕ → LayerCapture → LayerCapture × Reply (Unit {0})
unmap_texture t c = elim (c.mapped_textures t) [
  | none ↦ (c, err)
  | some e ↦ (
    record c {
      free_textures = c.free_textures ++ e ∷ [];
      mapped_textures = remove t c.mapped_textures;
    },
    ok tt,
  )
]

-- The capture of a surface, with what the callback does to it.
unfoldable pub with_capture :
    {A : Type 0} → ℕ → (LayerCapture → LayerCapture × Reply A) → GlLayer → GlLayer × Reply A
with_capture surface f st = elim (st.surface_map surface) [
  | none ↦ (st, err)
  | some s ↦ elim s.capture [
    | none ↦ (st, err)
    | some c ↦
        let (c', r) = f c in
        (
          record st {
            surface_map = insert surface (record s { capture = some c' }) st.surface_map;
          },
          r,
        )
  ]
]

unfoldable pub on_add_buffer : ℕ → GlLayer → GlLayer × Reply BufferInfo
unfolding with_capture map_texture
on_add_buffer surface st = with_capture surface (λ c. map_texture c c.free_textures) st

unfoldable pub on_remove_buffer : ℕ → BufferUserHandle → GlLayer → GlLayer × Reply (Unit {0})
unfolding with_capture unmap_texture
on_remove_buffer surface (texture t) st = with_capture surface (unmap_texture t) st
on_remove_buffer surface (vk_image i) st = with_capture surface (λ c. (c, panics)) st

-- The cursor that is added, if the snapshot at the old serial has one over the window; its bitmap
-- is new where the serial is.
unfoldable pub add_cursor :
    Option (ℕ → Option CursorSnapshot) → LayerCapture → LayerCapture × Option BufferCursorInfo
unfolding as_cursor_info
add_cursor none c = (c, none)
add_cursor (some snapshot) c = elim (snapshot c.cursor_serial) [
  | none ↦ (c, none)
  | some snap ↦ (
    record c { cursor_serial = snap.serial },
    as_cursor_info (not (c.cursor_serial == snap.serial)) snap,
  )
]

-- The fence that is waited for, if any; it is taken out, so that it is waited for once.
unfoldable pub take_sync : ℕ → LayerCapture → LayerCapture × Option FenceSync
take_sync t c = (record c { sync_objects = remove t c.sync_objects }, c.sync_objects t)

-- `snapshot` is there where the buffer has room for a cursor and the surface a cursor manager.
unfoldable pub process_texture :
    Option (ℕ → Option CursorSnapshot)
    → ℕ
    → LayerCapture
    → LayerCapture × Reply (Option BufferCursorInfo × Option FenceSync)
unfolding add_cursor take_sync
process_texture snapshot t c =
    let (c1, cursor) = add_cursor snapshot c in
    let (c2, sync) = take_sync t c1 in (c2, ok (cursor, sync))

unfoldable pub on_process_buffer :
    ℕ
    → BufferUserHandle
    → Option (ℕ → Option CursorSnapshot)
    → GlLayer
    → GlLayer × Reply (Option BufferCursorInfo × Option FenceSync)
unfolding with_capture process_texture
on_process_buffer surface (texture t) snapshot st =
    with_capture surface (process_texture snapshot t) st
on_process_buffer surface (vk_image i) snapshot st = with_capture surface (λ c. (c, panics)) st
