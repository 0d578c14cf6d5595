-- ===== src/Cursor/Wayland/Snapshot/Bounds.antt =====
-- What the copy of a cursor bitmap reads, copy_surface_buffer of cursor/src/wayland/mod.rs.
use pw_capture.Common.{
  ℕ, ℤ, pos, ◌+◌, ◌*◌, ◌-◌, ◌%◌, ◌^◌, ◌≤◌, ◌<◌, ◌≡◌, refl, ◌∙◌, ◌≢◌, ◌⊎◌, inl, inr, none, some,
  List, arith, length, take, drop, length-take, length-drop, i32_as_u32, mul_u32,
}
use native.Mathlib.Decide.{dec_lt, ℕ_discrete}
use native.Mathlib.Nat.{mod-eq_of_lt}
use pw_capture.Cursor.Wayland.State.{ShmBufferState, ShmPoolState, WlIntercept}
use pw_capture.Cursor.Wayland.Snapshot.{
  absent, got, fault, mapped, map_failed, Platform, BitmapInfo, bytes_per_pixel, buffer_size,
  map_size, read_slice, read_mapping, copy_surface_buffer,
}

-- The dimensions of a buffer that the protocol allows: no negative number in it.
pub record HasDims (b : ShmBufferState) (o w h : ℕ) : Type 0 where
  pub offset_eq : b.offset ≡ pos o
  pub width_eq : b.width ≡ pos w
  pub height_eq : b.height ≡ pos h
  pub offset_lt : o < 2 ^ 31
  pub width_lt : w < 2 ^ 31
  pub height_lt : h < 2 ^ 31

area_le : (w h : ℕ) → w < 2 ^ 31 → h < 2 ^ 31 → w * h ≤ (2 ^ 31 - 1) * (2 ^ 31 - 1)
area_le w h p q = grind arith

area_no_wrap :
    (w h : ℕ)
    → w < 2 ^ 31
    → h < 2 ^ 31
    → w % 2 ^ 64 * (h % 2 ^ 64) % 2 ^ 64 * 4 % 2 ^ 64 ≡ w * h * 4
area_no_wrap w h p q = rw (
  mod-eq_of_lt {n = w} {m = 2 ^ 64} (omega arith),
  mod-eq_of_lt {n = h} {m = 2 ^ 64} (omega arith),
  mod-eq_of_lt {n = w * h} {m = 2 ^ 64} (omega (arith, area_le w h p q)),
  mod-eq_of_lt {n = w * h * 4} {m = 2 ^ 64} (omega (arith, area_le w h p q)),
)

buffer_size_lem : (b : ShmBufferState) (o w h : ℕ) → HasDims b o w h → buffer_size b 4 ≡ w * h * 4
unfolding buffer_size
buffer_size_lem b o w h d = rw (d.width_eq, d.height_eq) (area_no_wrap w h d.width_lt d.height_lt)

map_size_lem : (b : ShmBufferState) (o w h : ℕ) → HasDims b o w h → map_size b 4 ≡ o + w * h * 4
unfolding map_size
map_size_lem b o w h d =
    rw (buffer_size_lem b o w h d, d.offset_eq)
      (omega (arith, area_le w h d.width_lt d.height_lt, d.offset_lt))

-- A call of mmap fails, or maps as many bytes as it was asked for.
abbrev pub MapsWhole : Platform → Type 0
MapsWhole os =
    (fd : ℤ) (len : ℕ)
    → (os.mmap fd len ≡ map_failed)
      ⊎ ((bytes : List ℕ) × (os.mmap fd len ≡ mapped bytes) × (length bytes ≡ len))

bpp_cases : (f : ℕ) → (bytes_per_pixel f ≡ none) ⊎ (bytes_per_pixel f ≡ some 4)
unfolding bytes_per_pixel
bpp_cases f = ground arith

module _ (os : Platform) (b : ShmBufferState) (o w h n : ℕ) (pool : ShmPoolState) (st : WlIntercept)
    (dims : HasDims b o w h) (known : st.shm_pool_map b.shm_pool ≡ some pool)
    (size_eq : pool.size ≡ pos n) (size_lt : n < 2 ^ 31) where
  read_whole :
      (bytes : List ℕ)
      → length bytes ≡ o + w * h * 4
      → read_mapping (mapped bytes) b.offset (w * h * 4) ≡ got (take (w * h * 4) (drop o bytes))
  unfolding read_mapping read_slice
  read_whole bytes e =
      rw (dims.offset_eq, mod-eq_of_lt {n = o} {m = 2 ^ 64} (omega (arith, dims.offset_lt)))
        (ground arith)

  -- A buffer of a handled format, with tight rows and inside its pool, is copied: the result has
  -- its dimensions and the bytes from its offset on.
  copy_accepts :
      (bytes : List ℕ)
      → os.mmap pool.fd (o + w * h * 4) ≡ mapped bytes
      → length bytes ≡ o + w * h * 4
      → bytes_per_pixel b.format ≡ some 4
      → i32_as_u32 b.stride ≡ mul_u32 4 w
      → o + w * h * 4 ≤ n
      → copy_surface_buffer os b st
        ≡ got (record {
          width = w;
          height = h;
          bpp = 4;
          format = b.format;
          pixels = take (w * h * 4) (drop o bytes);
        })
  unfolding copy_surface_buffer
  copy_accepts bytes m l f s r = ground (
    arith,
    known,
    dims.width_eq,
    dims.height_eq,
    size_eq,
    buffer_size_lem b o w h dims,
    map_size_lem b o w h dims,
    read_whole bytes l,
  )

  copy_rejects :
      (bytes_per_pixel b.format ≡ none)
        ⊎ ((i32_as_u32 b.stride ≢ mul_u32 4 w) ⊎ (n < o + w * h * 4))
      → copy_surface_buffer os b st ≡ absent
  unfolding copy_surface_buffer
  copy_rejects r = elim (bpp_cases b.format) [
    | inl f ↦ ground (arith, known)
    | inr f ↦ ground (arith, known, dims.width_eq, size_eq, map_size_lem b o w h dims)
  ]

  accepts_cases :
      ((bytes_per_pixel b.format ≡ some 4)
        × (i32_as_u32 b.stride ≡ mul_u32 4 w)
        × (o + w * h * 4 ≤ n))
      ⊎ ((bytes_per_pixel b.format ≡ none)
          ⊎ ((i32_as_u32 b.stride ≢ mul_u32 4 w) ⊎ (n < o + w * h * 4)))
  accepts_cases = elim (bpp_cases b.format) [
    | inl f ↦ inr (inl f)
    | inr f ↦ elim (ℕ_discrete (i32_as_u32 b.stride) (mul_u32 4 w)) [
      | yes s ↦ elim (dec_lt n (o + w * h * 4)) [
        | yes r ↦ inr (inr (inr r))
        | no r ↦ inl (f, s, omega arith)
      ]
      | no s ↦ inr (inr (inl s))
    ]
  ]

  -- Where the pool's file cannot be mapped, the copy of an accepted buffer without negative
  -- dimensions reads through the failed mapping's address.
  copy_map_failed :
      os.mmap pool.fd (o + w * h * 4) ≡ map_failed
      → bytes_per_pixel b.format ≡ some 4
      → i32_as_u32 b.stride ≡ mul_u32 4 w
      → o + w * h * 4 ≤ n
      → copy_surface_buffer os b st ≡ fault
  unfolding copy_surface_buffer read_mapping
  copy_map_failed m f s r = ground (
    arith,
    known,
    dims.width_eq,
    size_eq,
    buffer_size_lem b o w h dims,
    map_size_lem b o w h dims,
  )

  -- The copy of a buffer without negative dimensions, from a known pool, never reads outside a
  -- mapping: it returns nothing, or a bitmap of the buffer's width and height with width * height
  -- * bpp bytes, all of which lie inside the pool, unless mmap fails for the bytes up to the
  -- buffer's end; then, and for a buffer inside the pool only, it reads through the address of the
  -- failed mapping. A mapping has as many bytes as mmap was asked for.
  pub copy_in_pool :
      MapsWhole os
      → (copy_surface_buffer os b st ≡ absent)
        ⊎ ((info : BitmapInfo) × (copy_surface_buffer os b st ≡ got info)
            × (info.width ≡ w)
            × (info.height ≡ h)
            × (length info.pixels ≡ w * h * info.bpp)
            × (o + w * h * info.bpp ≤ n))
        ⊎ ((copy_surface_buffer os b st ≡ fault)
            × (os.mmap pool.fd (o + w * h * 4) ≡ map_failed)
            × (o + w * h * 4 ≤ n))
  copy_in_pool maps = elim accepts_cases [
    | inr r ↦ inl (copy_rejects r)
    | inl (f, s, r) ↦ elim (maps pool.fd (o + w * h * 4)) [
      | inl m ↦ inr (inr (copy_map_failed m f s r, m, r))
      | inr m ↦ inr (
          inl (
            _,
            copy_accepts m.0 m.1 m.2 f s r,
            refl,
            refl,
            length-take (w * h * 4) (drop o m.0) ∙ omega (arith, length-drop o m.0, m.2),
            r,
          ))
    ]
  ]
