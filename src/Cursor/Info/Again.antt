-- ===== src/Cursor/Info/Again.antt =====
-- A Wayland cursor asked for again under its own serial, snapshot_cursor of
-- cursor/src/wayland/mod.rs.
use pw_capture.Common.{
  ℕ, ◌≡◌, ◌≢◌, refl, subst, true, false, not, ◌==◌, ==_refl, Option, none, some, arith,
}
use pw_capture.Cursor.Wayland.State.{
  WlHandle, WlFixed, SurfaceBuffer, SurfacePointer, SurfaceState, ShmBufferState, WlIntercept,
}
use pw_capture.Cursor.Wayland.Snapshot.{
  absent, got, fault, need, Platform, BitmapInfo, WlCursorSnapshot, snapshot_bitmap,
  snapshot_cursor,
}
use pw_capture.Client.Stream.Types.{BufferCursorInfo}
use pw_capture.Cursor.Info.{
  CursorSnapshot, point, bitmap_of, as_cursor_info, wl_snapshot, wl_bitmap,
}
use pw_capture.Cursor.Info.Shown.{OfGot, OfGot->>=, Shown, snapshot_cursor-Shown}

found {ℓ} : {A : Type ℓ} (o : Option A) (a : A) → need o ≡ got a → o ≡ some a
found none a e = ground (arith, e)
found (some b) a e = ground (arith, e)

unfoldable pub without_bitmap : WlCursorSnapshot → WlCursorSnapshot
without_bitmap s = record s { bitmap = none }

-- The same snapshot without the bitmap.
Again : Platform → WlHandle → WlIntercept → WlCursorSnapshot → Type 0
Again os surface st s =
    s.serial ≢ 0 → snapshot_cursor os s.serial surface st ≡ got (without_bitmap s)

same_serial :
    (os : Platform) (p : SurfacePointer) (b : ShmBufferState) (st : WlIntercept)
    → p.serial ≢ 0
    → snapshot_bitmap os p.serial p b st ≡ got none
unfolding snapshot_bitmap
same_serial os p b st z = ground (arith, ==_refl p.serial, z)

module _ (os : Platform) (serial : ℕ) (surface : WlHandle) (st : WlIntercept) where
  reads :
      (window : SurfaceState) (pointer : SurfacePointer) (c : WlHandle) (cursor : SurfaceState)
      (buffer : SurfaceBuffer) (b : ShmBufferState) (bitmap : Option BitmapInfo) (x y : WlFixed)
      → st.surface_map surface ≡ some window
      → window.entered_pointer ≡ some pointer
      → pointer.cursor_surface ≡ some c
      → st.surface_map c ≡ some cursor
      → cursor.active_buffer ≡ some buffer
      → st.shm_buffer_map buffer.buffer ≡ some b
      → snapshot_bitmap os serial pointer b st ≡ got bitmap
      → os.checked_mul_int pointer.surface_x buffer.scale ≡ some x
      → os.checked_mul_int pointer.surface_y buffer.scale ≡ some y
      → snapshot_cursor os serial surface st
        ≡ got (record {
          serial = pointer.serial;
          entered = true;
          position = (os.round_to_num x, os.round_to_num y);
          hotspot = (pointer.hotspot_x, pointer.hotspot_y);
          bitmap = bitmap;
        })
  unfolding snapshot_cursor snapshot_bitmap
  reads window pointer c cursor buffer b bitmap x y k1 k2 k3 k4 k5 k6 k7 k8 k9 =
      rw (snapshot_cursor, k1, k2, k3, k4, k5, k6, k7, k8, k9) refl

snapshot_cursor-Again :
    (os : Platform) (serial : ℕ) (surface : WlHandle) (st : WlIntercept)
    → OfGot (Again os surface st) (snapshot_cursor os serial surface st)
unfolding snapshot_cursor OfGot Again without_bitmap
snapshot_cursor-Again os serial surface st =
    let P = Again os surface st in
    OfGot->>= P (need (st.surface_map surface)) _ (λ window e1.
      OfGot->>= P (need window.entered_pointer) _ (λ pointer e2.
        OfGot->>= P (need pointer.cursor_surface) _ (λ c e3.
          OfGot->>= P (need (st.surface_map c)) _ (λ cursor e4.
            OfGot->>= P (need cursor.active_buffer) _ (λ buffer e5.
              OfGot->>= P (need (st.shm_buffer_map buffer.buffer)) _ (λ b e6.
                OfGot->>= P (snapshot_bitmap os serial pointer b st) _ (λ bitmap e7.
                  OfGot->>= P (need (os.checked_mul_int pointer.surface_x buffer.scale)) _ (λ x e8.
                    OfGot->>= P (need (os.checked_mul_int pointer.surface_y buffer.scale)) _
                      (λ y e9 z.
                        reads os pointer.serial surface st window pointer c cursor buffer b none x y
                          (found _ _ e1) (found _ _ e2) (found _ _ e3) (found _ _ e4) (found _ _ e5)
                          (found _ _ e6) (same_serial os pointer b st z) (found _ _ e8)
                          (found _ _ e9))))))))))

-- A snapshot asked for again under the serial that it gave, if that is not 0, is the same without
-- its bitmap.
pub snapshot_cursor-again :
    (os : Platform) (serial : ℕ) (surface : WlHandle) (st : WlIntercept) (s : WlCursorSnapshot)
    → snapshot_cursor os serial surface st ≡ got s
    → s.serial ≢ 0
    → snapshot_cursor os s.serial surface st ≡ got (without_bitmap s)
unfolding OfGot Again
snapshot_cursor-again os serial surface st s e =
    subst (OfGot (Again os surface st)) e (snapshot_cursor-Again os serial surface st)

-- The snapshots of a surface by their old serials, as the layers take them.
unfoldable pub wl_taken : Platform → WlHandle → WlIntercept → ℕ → Option CursorSnapshot
wl_taken os surface st serial = elim (snapshot_cursor os serial surface st) [
  | absent ↦ none
  | got s ↦ some (wl_snapshot s)
  | fault ↦ none
]

-- What is shown of the cursor when it has not changed.
unfoldable pub unchanged : WlCursorSnapshot → BufferCursorInfo
unchanged s = record {
  serial = false;
  position = point s.position;
  hotspot = point s.hotspot;
  bitmap = none;
}

taken :
    (os : Platform) (serial : ℕ) (surface : WlHandle) (st : WlIntercept) (s : WlCursorSnapshot)
    → snapshot_cursor os serial surface st ≡ got s
    → wl_taken os surface st serial ≡ some (wl_snapshot s)
unfolding wl_taken
taken os serial surface st s e = rw (wl_taken, e) refl

-- Taken twice, a cursor is shown the second time under the same serial and without a bitmap.
pub taken-again :
    (os : Platform) (old : ℕ) (surface : WlHandle) (st : WlIntercept) (s : WlCursorSnapshot)
    → snapshot_cursor os old surface st ≡ got s
    → s.serial ≢ 0
    → (wl_taken os surface st old ≡ some (wl_snapshot s))
      × (wl_taken os surface st s.serial ≡ some (wl_snapshot (without_bitmap s)))
      × (as_cursor_info (not (s.serial == s.serial)) (wl_snapshot (without_bitmap s))
          ≡ some (unchanged s))
unfolding as_cursor_info wl_snapshot bitmap_of wl_bitmap unchanged without_bitmap OfGot Shown
taken-again os old surface st s e z =
    let (in_, _) = subst (OfGot Shown) e (snapshot_cursor-Shown os old surface st) in
    (
      taken os old surface st s e,
      taken os s.serial surface st (without_bitmap s)
          (snapshot_cursor-again os old surface st s e z),
      rw (in_, ==_refl s.serial) refl,
    )
