-- ===== src/Gl/Textures.antt =====
-- The textures that a capture exports: egl_export_dmabuf, glx_export_dmabuf and
-- create_target_textures of gl/src/interface/implementation.rs. The drivers' answers are arguments.
pub mod Created
pub mod Answers
use pw_capture.Common.{
  ℕ, ℤ, ◌+◌, ◌*◌, ◌%◌, ◌^◌, Bool, true, false, not, ◌&&◌, ◌||◌, ◌==◌, if◌then◌else◌, Option, none,
  some, List, [], ◌∷◌, map, length,
}
use pw_capture.Client.Format.{Format, gray8, rgba, rgbx, abgr_210le, xbgr_210le, bgra, format_into}
use pw_capture.Client.Stream.Types.{BufferPlaneInfo}
use pw_capture.Gl.State.{NativeIface, TextureImage, egl_image, pixmap, ExportTexture}

unfoldable pub max_buffers : ℕ
max_buffers = 32

pub record Exported : Type 0 where
  pub format : Format
  pub modifier : ℕ
  pub image : TextureImage
  pub planes : List BufferPlaneInfo

-- An error comes with the images that were destroyed; a call of a function that is not loaded
-- panics.
pub data Export : Type 0 where
  exported : Exported → Export
  export_failed : List TextureImage → Export
  export_panics : Export

-- A plane as the drivers tell it: descriptor, stride, offset.
pub record Plane : Type 0 where
  pub fd : ℤ
  pub stride : ℕ
  pub offset : ℕ

-- `height * stride` in 32 bits.
unfoldable pub plane_info : ℕ → Plane → BufferPlaneInfo
plane_info height p = record {
  fd = p.fd;
  offset = p.offset;
  size = height * p.stride % 2 ^ 32;
  stride = p.stride;
}

-- The codes of drm_fourcc.
unfoldable pub format_of_fourcc : ℕ → Option Format
format_of_fourcc code =
    if code == 538982482
    then some gray8
    else if code == 875708993
    then some rgba
    else if code == 875709016
    then some rgbx
    else if code == 808665665
    then some abgr_210le
    else if code == 808665688
    then some xbgr_210le
    else none

-- An image's code and modifier, and its planes as the driver exports them.
pub record EglDriver : Type 0 where
  pub query_loaded : Bool
  pub export_loaded : Bool
  pub create_image_loaded : Bool
  pub create_image_khr_loaded : Bool
  pub create_image : ℕ → ℕ
  pub create_image_khr : ℕ → ℕ
  pub query : ℕ → Option (ℕ × ℕ)
  pub export : ℕ → Option (List Plane)

-- From the image on; the number of planes is the driver's.
unfoldable pub export_image : EglDriver → ℕ → ℕ → Export
unfolding plane_info format_of_fourcc
export_image d height image = if image == 0 then export_failed [] else elim (d.query image) [
  | none ↦ export_failed (egl_image image ∷ [])
  | some (fourcc, modifier) ↦ elim (d.export image) [
    | none ↦ export_failed (egl_image image ∷ [])
    | some planes ↦ elim (format_of_fourcc fourcc) [
      | none ↦ export_failed []
      | some format ↦ exported (record {
        format = format;
        modifier = modifier;
        image = egl_image image;
        planes = map (plane_info height) planes;
      })
    ]
  ]
]

-- Each test is of one function and each call of the other.
unfoldable pub egl_export_dmabuf : EglDriver → ℕ → ℕ → Export
unfolding export_image
egl_export_dmabuf d height texture =
    if not (d.query_loaded && d.export_loaded)
    then export_failed []
    else if d.create_image_loaded
    then (if d.create_image_khr_loaded
        then export_image d height (d.create_image_khr texture)
        else export_panics)
    else if d.create_image_khr_loaded
    then export_panics
    else export_failed []

-- The pixmaps of a texture, and the reply on an X pixmap's buffers.
pub record GlxDriver : Type 0 where
  pub x11_lib : Bool
  pub bind_loaded : Bool
  pub xcb_conn : ℕ
  pub fb_configs : ℕ
  pub glx_pixmap : ℕ → ℕ
  pub x_pixmap : ℕ → ℕ
  pub reply : ℕ → Option (ℕ × List Plane)

unfoldable pub glx_export_dmabuf : GlxDriver → ℕ → ℕ → Export
unfolding plane_info
glx_export_dmabuf d height texture =
    let image = pixmap (d.glx_pixmap texture) (d.x_pixmap texture) in
    if not d.x11_lib || not d.bind_loaded
    then export_failed []
    else if d.xcb_conn == 0 || d.fb_configs == 0
    then export_failed []
    else elim (d.reply (d.x_pixmap texture)) [
      | none ↦ export_failed (image ∷ [])
      | some (modifier, planes) ↦ exported (record {
        format = bgra;
        modifier = modifier;
        image = image;
        planes = map (plane_info height) planes;
      })
    ]

-- The format, modifier and number of planes that all textures share.
pub record Target : Type 0 where
  pub format : Format
  pub modifier : ℕ
  pub num_planes : ℕ

unfoldable pub target_of : Exported → Target
target_of x = record { format = x.format; modifier = x.modifier; num_planes = length x.planes }

-- The assertions on a texture after the first.
unfoldable pub agrees : Option Target → Exported → Bool
agrees none x = true
agrees (some t) x =
    format_into x.format == format_into t.format
    && x.modifier == t.modifier
    && length x.planes == t.num_planes

unfoldable pub keep_first : Option Target → Exported → Option Target
unfolding target_of
keep_first none x = some (target_of x)
keep_first (some t) x = some t

-- The textures in order; where it stops, those that are dropped and the one that failed.
pub data Row : Type 0 where
  all_exported : Option Target → List ExportTexture → Row
  stopped : List ExportTexture → ℕ → Row
  row_panics : Row

unfoldable pub add_to_row : ExportTexture → Row → Row
add_to_row e (all_exported t es) = all_exported t (e ∷ es)
add_to_row e (stopped es failed) = stopped (e ∷ es) failed
add_to_row e row_panics = row_panics

unfoldable pub texture_of_export : NativeIface → ℕ → ℕ → Exported → ExportTexture
texture_of_export native dpy texture x = record {
  native = native;
  dpy = dpy;
  texture = texture;
  planes = x.planes;
  image = x.image;
}

unfoldable pub export_row : (ℕ → Export) → NativeIface → ℕ → Option Target → List ℕ → Row
unfolding agrees keep_first texture_of_export add_to_row
export_row export native dpy target [] = all_exported target []
export_row export native dpy target (t ∷ ts) = elim (export t) [
  | export_failed gone ↦ stopped [] t
  | export_panics ↦ row_panics
  | exported x ↦
      let rest = export_row export native dpy (keep_first target x) ts in
      if agrees target x then add_to_row (texture_of_export native dpy t x) rest else row_panics
]

-- The binding of the texture target is part of the answer. A failure drops the textures that were
-- exported, which releases them, and deletes all of them.
pub data Creation : Type 0 where
  created : Target → List ExportTexture → ℕ → Creation
  creation_failed : List ExportTexture → List ℕ → ℕ → Creation
  creation_panics : Creation

unfoldable pub finish_row : List ℕ → ℕ → Row → Creation
finish_row textures bound row_panics = creation_panics
finish_row textures bound (stopped es failed) = creation_failed es textures failed
finish_row textures bound (all_exported none es) = creation_failed es [] bound
finish_row textures bound (all_exported (some target) es) = created target es bound

-- `textures` are the names that the driver generates, `bound` the texture bound before.
unfoldable pub create_target_textures : (ℕ → Export) → NativeIface → ℕ → List ℕ → ℕ → Creation
unfolding export_row finish_row
create_target_textures export native dpy textures bound =
    finish_row textures bound (export_row export native dpy none textures)
