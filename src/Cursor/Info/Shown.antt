-- ===== src/Cursor/Info/Shown.antt =====
-- What a consumer of the stream sees of a Wayland cursor, from the snapshot of
-- cursor/src/wayland/mod.rs over as_cursor_info of cursor/src/lib.rs to fill_cursor_meta of
-- client/src/stream.rs.
use pw_capture.Common.{ℕ, ◌≡◌, ◌≢◌, refl, true, Option, some, arith, Option-cases, inl, inr, ◌⊎◌}
use pw_capture.Client.Format.{unknown}
use pw_capture.Cursor.Wayland.State.{WlHandle, ShmBufferState, SurfacePointer, WlIntercept}
use pw_capture.Cursor.Wayland.Snapshot.{
  Fetch, absent, got, fault, ◌>>=◌, need, Platform, BitmapInfo, WlCursorSnapshot, bytes_per_pixel,
  copy_surface_buffer, read_mapping, map_size, buffer_size, snapshot_bitmap, snapshot_cursor,
}
use pw_capture.Cursor.Info.{format_of_shm}

Fetch-cases {ℓ} :
    {A : Type ℓ} (m : Fetch A) → (m ≡ absent) ⊎ ((m ≡ fault) ⊎ ((a : A) × (m ≡ got a)))
Fetch-cases absent = inl refl
Fetch-cases fault = inr (inl refl)
Fetch-cases (got a) = inr (inr (a, refl))

known_format : (f bpp : ℕ) → bytes_per_pixel f ≡ some bpp → format_of_shm f ≢ unknown
unfolding bytes_per_pixel format_of_shm
known_format f bpp e q = ground (arith, e, q)

copy-known :
    (os : Platform) (b : ShmBufferState) (st : WlIntercept) (info : BitmapInfo)
    → copy_surface_buffer os b st ≡ got info
    → format_of_shm info.format ≢ unknown
unfolding copy_surface_buffer
copy-known os b st info e = elim (Option-cases (st.shm_pool_map b.shm_pool)) [
  | inl n ↦ absurd (ground (arith, e, n))
  | inr (pool, k) ↦ elim (Option-cases (bytes_per_pixel b.format)) [
    | inl n ↦ absurd (ground (arith, e, k, n))
    | inr (bpp, f) ↦
        elim (Fetch-cases
          (read_mapping (os.mmap pool.fd (map_size b bpp)) b.offset (buffer_size b bpp))) [
            | inl n ↦ absurd (ground (arith, e, k, f, n))
            | inr (inl n) ↦ absurd (ground (arith, e, k, f, n))
            | inr (inr (pixels, r)) ↦ ground (arith, e, k, f, r, known_format b.format bpp f)
          ]
  ]
]

-- What holds of the value of a chain, if it has one.
unfoldable pub OfGot {ℓ κ} : {A : Type ℓ} → (A → Type κ) → Fetch A → Type κ
OfGot P absent = Unit
OfGot P fault = Unit
OfGot P (got a) = P a

pub OfGot->>= {ℓ κ μ} :
    {A : Type ℓ} {B : Type κ} (P : B → Type μ) (m : Fetch A) (f : A → Fetch B)
    → ((a : A) → m ≡ got a → OfGot P (f a))
    → OfGot P (m >>= f)
unfolding OfGot
OfGot->>= P absent f h = tt
OfGot->>= P fault f h = tt
OfGot->>= P (got a) f h = h a refl

pub HasKnown : Option BitmapInfo → Type 0
HasKnown bitmap = (b : BitmapInfo) → bitmap ≡ some b → format_of_shm b.format ≢ unknown

bitmap-known :
    (os : Platform) (serial : ℕ) (pointer : SurfacePointer) (b : ShmBufferState) (st : WlIntercept)
    (bitmap : Option BitmapInfo)
    → snapshot_bitmap os serial pointer b st ≡ got bitmap
    → HasKnown bitmap
unfolding snapshot_bitmap HasKnown
bitmap-known os serial pointer b st bitmap e info k =
    elim (Fetch-cases (copy_surface_buffer os b st)) [
      | inl n ↦ absurd (ground (arith, e, k, n))
      | inr (inl n) ↦ absurd (ground (arith, e, k, n))
      | inr (inr (i, c)) ↦ ground (arith, e, k, c, copy-known os b st i c)
    ]

unfoldable pub Shown : WlCursorSnapshot → Type 0
Shown s = (s.entered ≡ true) × HasKnown s.bitmap

pub snapshot_cursor-Shown :
    (os : Platform) (serial : ℕ) (surface : WlHandle) (st : WlIntercept)
    → OfGot Shown (snapshot_cursor os serial surface st)
unfolding snapshot_cursor OfGot Shown
snapshot_cursor-Shown os serial surface st =
    OfGot->>= Shown (need (st.surface_map surface)) _ (λ window _.
      OfGot->>= Shown (need window.entered_pointer) _ (λ pointer _.
        OfGot->>= Shown (need pointer.cursor_surface) _ (λ cursor_surface _.
          OfGot->>= Shown (need (st.surface_map cursor_surface)) _ (λ cursor _.
            OfGot->>= Shown (need cursor.active_buffer) _ (λ surface_buffer _.
              OfGot->>= Shown (need (st.shm_buffer_map surface_buffer.buffer)) _ (λ b _.
                OfGot->>= Shown (snapshot_bitmap os serial pointer b st) _ (λ bitmap m.
                  OfGot->>= Shown (need (os.checked_mul_int pointer.surface_x surface_buffer.scale))
                    _
                    (λ x _.
                      OfGot->>= Shown
                        (need (os.checked_mul_int pointer.surface_y surface_buffer.scale)) _
                        (λ y _. (refl, bitmap-known os serial pointer b st bitmap m))))))))))
