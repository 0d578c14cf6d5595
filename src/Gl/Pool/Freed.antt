-- ===== src/Gl/Pool/Freed.antt =====
-- What is given back when a capture is dropped: the `drop` of ExportTexture and of FenceSync in
-- gl/src/interface/types.rs, for the textures that a LayerCapture still has.
pub mod Once
use pw_capture.Common.{ℕ, ℤ, Option, none, some, List, [], ◌∷◌, ◌++◌, DashMap}
use pw_capture.Client.Stream.Types.{BufferPlaneInfo}
use pw_capture.Gl.State.{
  NativeIface, FenceSync, TextureImage, egl_image, pixmap, ExportTexture, LayerCapture,
}

pub data Freed : Type 0 where
  closed : ℤ → Freed
  egl_image_destroyed tex_image_released glx_pixmap_destroyed x_pixmap_freed : ℕ → ℕ → Freed
  texture_deleted : NativeIface → ℕ → Freed
  sync_deleted : FenceSync → Freed

unfoldable pub close_planes : List BufferPlaneInfo → List Freed
close_planes [] = []
close_planes (p ∷ planes) = closed p.fd ∷ close_planes planes

unfoldable pub drop_image : ℕ → TextureImage → List Freed
drop_image dpy (egl_image image) = egl_image_destroyed dpy image ∷ []
drop_image dpy (pixmap glx_pixmap x_pixmap) =
    tex_image_released dpy glx_pixmap
    ∷ glx_pixmap_destroyed dpy glx_pixmap
    ∷ x_pixmap_freed dpy x_pixmap
    ∷ []

unfoldable pub drop_texture : ExportTexture → List Freed
unfolding close_planes drop_image
drop_texture e =
    close_planes e.planes ++ drop_image e.dpy e.image ++ texture_deleted e.native e.texture ∷ []

unfoldable pub drop_free : List ExportTexture → List Freed
unfolding drop_texture
drop_free [] = []
drop_free (e ∷ es) = drop_texture e ++ drop_free es

-- `keys` are those of the map as its iteration gives them.
unfoldable pub drop_mapped : List ℕ → DashMap ExportTexture → List Freed
unfolding drop_texture
drop_mapped [] m = []
drop_mapped (k ∷ keys) m = elim (m k) [
  | none ↦ drop_mapped keys m
  | some e ↦ drop_texture e ++ drop_mapped keys m
]

unfoldable pub drop_syncs : List ℕ → DashMap FenceSync → List Freed
drop_syncs [] m = []
drop_syncs (k ∷ keys) m = elim (m k) [
  | none ↦ drop_syncs keys m
  | some s ↦ sync_deleted s ∷ drop_syncs keys m
]

unfoldable pub drop_capture : List ℕ → List ℕ → LayerCapture → List Freed
unfolding drop_free drop_mapped drop_syncs
drop_capture keys sync_keys c =
    drop_free c.free_textures
    ++ drop_mapped keys c.mapped_textures
    ++ drop_syncs sync_keys c.sync_objects
