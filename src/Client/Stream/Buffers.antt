-- ===== src/Client/Stream/Buffers.antt =====
-- Buffers that PipeWire adds and removes: on_add_buffer and on_remove_buffer of
-- client/src/stream.rs.
pub mod Slots
use pw_capture.Common.{
  ℕ, ℤ, negsuc, ◌%◌, ◌^◌, Bool, true, false, Option, none, some, List, [], ◌∷◌, map, ◌==◌,
  if◌then◌else◌, length, as_i32,
}
use pw_capture.Client.Pod.{SpaSys}
use pw_capture.Client.Stream.Types.{
  BufferUserHandle, BufferPlaneInfo, BufferInfo, Chunk, SpaData, PwBuffer,
}

module _ (spa : SpaSys) where
  unfoldable pub invalidate : SpaData → SpaData
  invalidate d = record d { fd = negsuc 0; data_null = true; kind = spa.data_invalid }

  unfoldable pub fill_plane : ℕ → SpaData → BufferPlaneInfo → SpaData
  fill_plane data_type d plane = record d {
    fd = plane.fd;
    data_null = true;
    mapoffset = plane.offset;
    maxsize = plane.size;
    kind = data_type;
    chunk = record { offset = plane.offset; size = plane.size; stride = as_i32 plane.stride };
  }

  -- `datas.iter_mut().zip(&info.planes)`.
  unfoldable pub fill_planes : ℕ → List SpaData → List BufferPlaneInfo → List SpaData
  unfolding fill_plane
  fill_planes data_type (d ∷ ds) (p ∷ ps) = fill_plane data_type d p ∷ fill_planes data_type ds ps
  fill_planes data_type [] _ = []
  fill_planes data_type (d ∷ ds) [] = d ∷ ds

  -- `none` is the failed assertion that the numbers of planes agree. The argument is the answer of
  -- the layer's `add_buffer`.
  unfoldable pub on_add_buffer : Option BufferInfo → PwBuffer → Option PwBuffer
  unfolding fill_planes invalidate
  on_add_buffer none buffer =
      some (record buffer { user_data = none; datas = map invalidate buffer.datas })
  on_add_buffer (some info) buffer =
      let data_type = if info.is_dma_buf then spa.data_dma_buf else spa.data_mem_fd in
      if length buffer.datas == length info.planes
      then some (record buffer {
        user_data = some info.user_handle;
        datas = fill_planes data_type buffer.datas info.planes;
      })
      else none

-- The user handle that the layer's `remove_buffer` is called with, if any. The memory behind
-- `user_data` is freed then.
unfoldable pub on_remove_buffer : PwBuffer → Option BufferUserHandle
on_remove_buffer buffer = buffer.user_data
