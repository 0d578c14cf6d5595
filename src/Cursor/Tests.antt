-- ===== src/Cursor/Tests.antt =====
-- The Wayland and X11 parts on concrete inputs.
use pw_capture.Common.{
  ℕ, zero, suc, pos, ◌+◌, ◌*◌, ◌≤◌, ◌≡◌, ◌⊎◌, refl, inl, inr, true, Option, none, some, List, [],
  ◌∷◌, arith, if◌then◌else◌, ◌==◌, length, String, new_map, insert,
}
use pw_capture.Vulkan.Layer.{LayerSwapchain}
use pw_capture.Cursor.Wayland.State.{
  SurfaceBuffer, SurfaceState, ShmPoolState, ShmBufferState, PointerState, WlIntercept,
  new_load_with,
}
use pw_capture.Cursor.Wayland.Methods.{m_surface_commit}
use pw_capture.Cursor.Wayland.Methods.Frames.{
  attaches, requests, last_attached, last_scale, commit-requests,
}
use pw_capture.Cursor.Wayland.Snapshot.{
  absent, got, fault, mapped, map_failed, Platform, BitmapInfo, WlCursorSnapshot,
  copy_surface_buffer, bytes_per_pixel, buffer_size, map_size, read_mapping, read_slice,
  snapshot_cursor,
}
use pw_capture.Cursor.Wayland.Snapshot.Bounds.{HasDims, copy_in_pool}
use pw_capture.Cursor.Wayland.Snapshot.Layers.{enter_set_move, snapshot_fresh}

-- A file of zeros; an empty mapping fails.
abbrev zeros : ℕ → List ℕ
zeros zero = []
zeros (suc n) = 0 ∷ zeros n

abbrev os : Platform
os = record {
  mmap = λ fd len. if len == 0 then map_failed else mapped (zeros len);
  checked_mul_int = λ x s. some x;
  round_to_num = λ x. x;
}

length-zeros : (n : ℕ) → length (zeros n) ≡ n
length-zeros zero = refl
length-zeros (suc n) = omega (arith, length-zeros n)

maps_zeros :
    (len : ℕ)
    → (os.mmap (pos 5) len ≡ map_failed)
      ⊎ ((bytes : List ℕ) × (os.mmap (pos 5) len ≡ mapped bytes) × (length bytes ≡ len))
maps_zeros zero = inl refl
maps_zeros (suc n) = inr (zeros (suc n), ground arith, length-zeros (suc n))

abbrev buffer_one : ShmBufferState
buffer_one = record {
  shm_pool = 3;
  offset = pos 0;
  width = pos 2;
  height = pos 1;
  stride = pos 8;
  format = 0;
}

abbrev pool_one : ShmPoolState
pool_one = record { g_shm = 2; fd = pos 5; size = pos 64 }

dims_one : HasDims buffer_one 0 2 1
dims_one = record {
  offset_eq = refl;
  width_eq = refl;
  height_eq = refl;
  offset_lt = omega arith;
  width_lt = omega arith;
  height_lt = omega arith;
}

abbrev plain : SurfaceState
plain = record {
  g_compositor = 1;
  active_buffer = none;
  pending_buffer = none;
  entered_pointer = none;
}

abbrev on_buffer : SurfaceBuffer
on_buffer = record { buffer = 9; scale = pos 1 }

abbrev cursor_surface : SurfaceState
cursor_surface = record plain { active_buffer = some on_buffer }

abbrev pub tables : WlIntercept
tables = record new_load_with {
  surface_map = insert 7 cursor_surface (insert 6 plain new_map);
  shm_pool_map = insert 3 pool_one new_map;
  shm_buffer_map = insert 9 buffer_one new_map;
  pointer_map = insert 4 (record { g_seat = 1; current_surface = none }) new_map;
}

copy_in_pool_example :
    (copy_surface_buffer os buffer_one tables ≡ absent)
    ⊎ ((info : BitmapInfo) × (copy_surface_buffer os buffer_one tables ≡ got info)
        × (info.width ≡ 2)
        × (info.height ≡ 1)
        × (length info.pixels ≡ 2 * 1 * info.bpp)
        × (0 + 2 * 1 * info.bpp ≤ 64))
    ⊎ ((copy_surface_buffer os buffer_one tables ≡ fault)
        × (os.mmap (pos 5) (0 + 2 * 1 * 4) ≡ map_failed)
        × (0 + 2 * 1 * 4 ≤ 64))
copy_in_pool_example =
    copy_in_pool os buffer_one 0 2 1 64 pool_one tables dims_one refl refl (omega arith)
      (λ fd len. maps_zeros len)

commit-requests_example :
    (m_surface_commit 6 (requests 6 (attaches 9 ∷ attaches 9 ∷ []) tables)).0.surface_map 6
    ≡ some (record plain {
      active_buffer = some (record {
        buffer = last_attached 0 (attaches 9 ∷ []);
        scale = last_scale (pos 1) (attaches 9 ∷ attaches 9 ∷ []);
      });
      pending_buffer = none;
    })
commit-requests_example = commit-requests 6 (attaches 9) (attaches 9 ∷ []) plain tables refl refl

abbrev pub no_names : ℕ → String
no_names a = "wl_shm"

abbrev pointer_four : PointerState
pointer_four = record { g_seat = 1; current_surface = none }

abbrev entered_tables : WlIntercept
entered_tables = enter_set_move 4 11 6 (pos 0) (pos 0) 7 (pos 1) (pos 2) 20 (pos 30) (pos 40) tables

abbrev shown_one : Option BitmapInfo → WlCursorSnapshot
shown_one b = record {
  serial = 11;
  entered = true;
  position = (pos 30, pos 40);
  hotspot = (pos 1, pos 2);
  bitmap = b;
}

abbrev copied : BitmapInfo
copied = record { width = 2; height = 1; bpp = 4; format = 0; pixels = zeros 8 }

copy_one : copy_surface_buffer os buffer_one tables ≡ got copied
unfolding copy_surface_buffer bytes_per_pixel buffer_size map_size read_mapping read_slice
copy_one = refl

snapshot_fresh_example : snapshot_cursor os 0 6 entered_tables ≡ got (shown_one (some copied))
snapshot_fresh_example =
    snapshot_fresh 4 11 6 7 (pos 0) (pos 0) (pos 1) (pos 2) 20 (pos 30) (pos 40) plain pointer_four
      tables refl refl os cursor_surface on_buffer buffer_one (pos 30) (pos 40)
      (λ e. ground (arith, e)) refl refl refl refl refl 0 copied (inr refl) copy_one

abbrev shown : WlCursorSnapshot
shown = shown_one (some copied)

abbrev first_frame : LayerSwapchain
first_frame = record {
  format = 44;
  images = [];
  has_stream = true;
  image_datas = new_map;
  export_images = new_map;
  cursor_serial = 0;
  export_data = none;
}
