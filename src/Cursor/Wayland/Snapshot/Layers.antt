-- ===== src/Cursor/Wayland/Snapshot/Layers.antt =====
-- Which cursor a snapshot shows, snapshot_cursor of cursor/src/wayland/mod.rs, after the pointer
-- events and requests that lead to it.
use pw_capture.Common.{ℕ, ℤ, ◌≡◌, refl, ◌≢◌, ◌⊎◌, Option, none, some, true, arith, ==_refl}
use pw_capture.Cursor.Wayland.State.{
  WlHandle, WlFixed, SurfaceBuffer, SurfacePointer, SurfaceState, ShmBufferState, PointerState,
  WlIntercept,
}
use pw_capture.Cursor.Wayland.Methods.{entered_on, m_pointer_set_cursor, surface_destroy}
use pw_capture.Cursor.Wayland.Events.{e_pointer_enter, e_pointer_leave, e_pointer_motion}
use pw_capture.Cursor.Wayland.Snapshot.{
  absent, got, Platform, WlCursorSnapshot, snapshot_bitmap, snapshot_cursor, copy_surface_buffer,
  BitmapInfo,
}

abbrev moved : WlHandle → ℕ → WlHandle → ℤ → ℤ → ℕ → WlFixed → WlFixed → SurfacePointer
moved p serial c hx hy time x y = record {
  pointer = p;
  serial = serial;
  cursor_surface = some c;
  hotspot_x = hx;
  hotspot_y = hy;
  motion_time = time;
  surface_x = x;
  surface_y = y;
}

-- A pointer enters a window, sets its cursor and moves.
unfoldable pub enter_set_move :
    WlHandle
    → ℕ
    → WlHandle
    → WlFixed
    → WlFixed
    → WlHandle
    → ℤ
    → ℤ
    → ℕ
    → WlFixed
    → WlFixed
    → WlIntercept
    → WlIntercept
enter_set_move p serial window x0 y0 c hx hy time x y st =
    let st1 = (e_pointer_enter p serial window x0 y0 st).0 in
    let st2 = (m_pointer_set_cursor p serial c hx hy st1).0 in (e_pointer_motion p time x y st2).0

module _ (p : WlHandle) (serial : ℕ) (window c : WlHandle) (x0 y0 : WlFixed) (hx hy : ℤ) (time : ℕ)
    (x y : WlFixed) (s : SurfaceState) (ps : PointerState) (st : WlIntercept)
    (window_known : st.surface_map window ≡ some s)
    (pointer_known : st.pointer_map p ≡ some ps) where
  abbrev after_moves : WlIntercept
  after_moves = enter_set_move p serial window x0 y0 c hx hy time x y st

  moved-window :
      after_moves.surface_map window
      ≡ some (record s { entered_pointer = some (moved p serial c hx hy time x y) })
  unfolding enter_set_move e_pointer_enter m_pointer_set_cursor e_pointer_motion entered_on
  moved-window = ground (arith, ==_refl window, ==_refl p)

  moved-other : (j : WlHandle) → j ≢ window → after_moves.surface_map j ≡ st.surface_map j
  unfolding enter_set_move e_pointer_enter m_pointer_set_cursor e_pointer_motion entered_on
  moved-other j h = ground (arith, ==_refl window, ==_refl p)

  moved-pools : after_moves.shm_pool_map ≡ st.shm_pool_map
  unfolding enter_set_move e_pointer_enter m_pointer_set_cursor e_pointer_motion entered_on
  moved-pools = ground (arith, ==_refl window, ==_refl p)

  moved-buffers : after_moves.shm_buffer_map ≡ st.shm_buffer_map
  unfolding enter_set_move e_pointer_enter m_pointer_set_cursor e_pointer_motion entered_on
  moved-buffers = ground (arith, ==_refl window, ==_refl p)

  module _ (os : Platform) (cs : SurfaceState) (sb : SurfaceBuffer) (b : ShmBufferState)
      (px py : WlFixed) (apart : c ≢ window) (cursor_known : st.surface_map c ≡ some cs)
      (shown : cs.active_buffer ≡ some sb) (buffer_known : st.shm_buffer_map sb.buffer ≡ some b)
      (x_fits : os.checked_mul_int x sb.scale ≡ some px)
      (y_fits : os.checked_mul_int y sb.scale ≡ some py) where
    abbrev shows : Option BitmapInfo → WlCursorSnapshot
    shows bitmap = record {
      serial = serial;
      entered = true;
      position = (os.round_to_num px, os.round_to_num py);
      hotspot = (hx, hy);
      bitmap = bitmap;
    }

    snapshot_moved :
        (old : ℕ) (r : Option BitmapInfo)
        → snapshot_bitmap os old (moved p serial c hx hy time x y) b after_moves ≡ got r
        → snapshot_cursor os old window after_moves ≡ got (shows r)
    unfolding snapshot_cursor
    snapshot_moved old r e = ground (
      arith,
      moved-window,
      moved-other c apart,
      cursor_known,
      shown,
      moved-buffers,
      buffer_known,
      x_fits,
      y_fits,
    )

    copy-moved : copy_surface_buffer os b after_moves ≡ copy_surface_buffer os b st
    unfolding copy_surface_buffer
    copy-moved = rw moved-pools refl

    -- After a pointer entered a known window, set a cursor surface other than the window and moved,
    -- a snapshot under an older serial (or 0) shows the active buffer of the cursor surface, where
    -- it can be copied: with the serial of the entry, the last position scaled and rounded, the
    -- hotspot of the request and the copied bitmap.
    pub snapshot_fresh :
        (old : ℕ) (info : BitmapInfo)
        → (old ≢ serial) ⊎ (old ≡ 0)
        → copy_surface_buffer os b st ≡ got info
        → snapshot_cursor os old window after_moves ≡ got (shows (some info))
    snapshot_fresh old info o e =
        snapshot_moved old (some info) (unfold snapshot_bitmap in ground (arith, copy-moved))

    -- Asked again under that serial, if it is not 0, the snapshot is the same without the bitmap.
    pub snapshot_cached :
        serial ≢ 0 → snapshot_cursor os serial window after_moves ≡ got (shows none)
    snapshot_cached h =
        snapshot_moved serial none (unfold snapshot_bitmap in ground (arith, ==_refl serial))

-- Once the pointer has left a window or the window is destroyed, a snapshot of it has no result,
-- whatever the pointer table says.
pub snapshot_gone :
    (os : Platform) (old : ℕ) (p : WlHandle) (serial : ℕ) (window : WlHandle) (st : WlIntercept)
    → (snapshot_cursor os old window (e_pointer_leave p serial window st).0 ≡ absent)
      × (snapshot_cursor os old window (surface_destroy window st) ≡ absent)
unfolding snapshot_cursor e_pointer_leave surface_destroy
snapshot_gone os old p serial window st =
    (ground (arith, ==_refl window), ground (arith, ==_refl window))
