-- ===== src/Cursor/Wayland/Snapshot.antt =====
-- `get_cursor_manager`, `copy_surface_buffer` and `snapshot_cursor` of
-- cursor/src/wayland/mod.rs, and the accessors of `WlCursorSnapshot`. Arithmetic wraps as in a
-- release build.
pub mod Bounds
pub mod Layers
pub mod Managers
use pw_capture.Common.{
  ℕ, ℤ, pos, ◌+◌, Bool, true, false, not, ◌&&◌, ◌||◌, Option, none, some, List, ◌==◌, ltb, leb,
  if◌then◌else◌, length, take, drop, mul_u32, mul_usize, add_usize, i32_as_u32, i32_as_usize,
}
use pw_capture.Cursor.Wayland.State.{
  WlHandle, WlFixed, SurfaceBuffer, SurfacePointer, SurfaceState, ShmBufferState, ShmPoolState,
  WlIntercept,
}

-- `None`, a value, or a read outside the memory that was mapped.
pub data Fetch {ℓ} (A : Type ℓ) : Type ℓ where
  absent : Fetch A
  got : A → Fetch A
  fault : Fetch A

infixl 5 ◌>>=◌ ◌>>◌
abbrev pub ◌>>=◌ {ℓ κ} : {A : Type ℓ} {B : Type κ} → Fetch A → (A → Fetch B) → Fetch B
absent >>= f = absent
got a >>= f = f a
fault >>= f = fault

abbrev pub ◌>>◌ {ℓ} : {B : Type ℓ} → Fetch (Unit {0}) → Fetch B → Fetch B
m >> k = m >>= λ _. k

abbrev pub need {ℓ} : {A : Type ℓ} → Option A → Fetch A
need none = absent
need (some a) = got a

abbrev pub require : Bool → Fetch (Unit {0})
require true = got tt
require false = absent

-- What `mmap` returns: the null address, `MAP_FAILED`, or an address with the bytes behind it.
pub data Mapping : Type 0 where
  null map_failed : Mapping
  mapped : List ℕ → Mapping

-- The operating system and the `fixed` crate, as the code calls them: a read-only mapping of a
-- file descriptor from its start, the checked product of a fixed-point number with an integer,
-- and `round().to_num()`.
pub record Platform : Type 0 where
  pub mmap : ℤ → ℕ → Mapping
  pub checked_mul_int : WlFixed → ℤ → Option WlFixed
  pub round_to_num : WlFixed → ℤ

pub record BitmapInfo : Type 0 where
  pub width : ℕ
  pub height : ℕ
  pub bpp : ℕ
  pub format : ℕ
  pub pixels : List ℕ

pub record WlCursorSnapshot : Type 0 where
  pub serial : ℕ
  pub entered : Bool
  pub position : ℤ × ℤ
  pub hotspot : ℤ × ℤ
  pub bitmap : Option BitmapInfo

-- `display` must point to readable memory whose first word is the shared library's interface.
unfoldable pub get_cursor_manager : Bool → Bool → WlHandle → WlIntercept → Option WlHandle
get_cursor_manager dereferencable same_interface surface st =
    if not (dereferencable && same_interface) then none else elim (st.surface_map surface) [
      | none ↦ none
      | some s ↦ elim (st.global_map s.g_compositor) [
        | none ↦ none
        | some compositor ↦ elim (st.registry_map compositor.registry) [
          | none ↦ none
          | some registry ↦ some surface
        ]
      ]
    ]

-- Bytes per pixel of the four formats that are handled: 0, 1 and two DRM codes.
unfoldable pub bytes_per_pixel : ℕ → Option ℕ
bytes_per_pixel format =
    if format == 0 || format == 1 || format == 0x34324152 || format == 0x34325852
    then some 4
    else none

-- `slice::from_raw_parts(mem.offset(offset), size).to_vec()`, by the bytes of the mapping.
unfoldable pub read_slice : List ℕ → ℤ → ℕ → Fetch (List ℕ)
read_slice bytes offset size =
    let start = i32_as_usize offset in
    if leb (start + size) (length bytes) then got (take size (drop start bytes)) else fault

-- The source tests the address against null only, and then reads through it.
unfoldable pub read_mapping : Mapping → ℤ → ℕ → Fetch (List ℕ)
unfolding read_slice
read_mapping null offset size = absent
read_mapping map_failed offset size = fault
read_mapping (mapped bytes) offset size = read_slice bytes offset size

unfoldable pub buffer_size : ShmBufferState → ℕ → ℕ
buffer_size b bpp = mul_usize (mul_usize (i32_as_usize b.width) (i32_as_usize b.height)) bpp

unfoldable pub map_size : ShmBufferState → ℕ → ℕ
map_size b bpp = add_usize (i32_as_usize b.offset) (buffer_size b bpp)

module _ (os : Platform) where
  unfoldable pub copy_surface_buffer : ShmBufferState → WlIntercept → Fetch BitmapInfo
  copy_surface_buffer b st = do
    pool ← need (st.shm_pool_map b.shm_pool)
    bpp ← need (bytes_per_pixel b.format)
    require (i32_as_u32 b.stride == mul_u32 bpp (i32_as_u32 b.width))
    require (leb (map_size b bpp) (i32_as_usize pool.size))
    pixels ← read_mapping (os.mmap pool.fd (map_size b bpp)) b.offset (buffer_size b bpp)
    got (record {
      width = i32_as_u32 b.width;
      height = i32_as_u32 b.height;
      bpp = bpp;
      format = b.format;
      pixels = pixels;
    })

  -- A `None` of the copy leaves a snapshot without a bitmap.
  abbrev pub optional {ℓ} : {A : Type ℓ} → Fetch A → Fetch (Option A)
  optional absent = got none
  optional (got a) = got (some a)
  optional fault = fault

  unfoldable pub snapshot_bitmap :
      ℕ → SurfacePointer → ShmBufferState → WlIntercept → Fetch (Option BitmapInfo)
  snapshot_bitmap serial pointer b st =
      if not (serial == pointer.serial) || serial == 0
      then optional (copy_surface_buffer b st)
      else got none

  unfoldable pub snapshot_cursor : ℕ → WlHandle → WlIntercept → Fetch WlCursorSnapshot
  snapshot_cursor serial surface st = do
    window ← need (st.surface_map surface)
    pointer ← need window.entered_pointer
    cursor_surface ← need pointer.cursor_surface
    cursor ← need (st.surface_map cursor_surface)
    surface_buffer ← need cursor.active_buffer
    b ← need (st.shm_buffer_map surface_buffer.buffer)
    bitmap ← snapshot_bitmap serial pointer b st
    x ← need (os.checked_mul_int pointer.surface_x surface_buffer.scale)
    y ← need (os.checked_mul_int pointer.surface_y surface_buffer.scale)
    got (record {
      serial = pointer.serial;
      entered = true;
      position = (os.round_to_num x, os.round_to_num y);
      hotspot = (pointer.hotspot_x, pointer.hotspot_y);
      bitmap = bitmap;
    })
