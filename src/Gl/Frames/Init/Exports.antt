-- ===== src/Gl/Frames/Init/Exports.antt =====
-- Creating the textures of a capture with the exports of the drivers, egl_export_dmabuf and
-- glx_export_dmabuf of gl/src/interface/implementation.rs.
use pw_capture.Common.{ℕ, ◌≡◌, ◌≢◌, sym, ◌∙◌, arith}
use pw_capture.Gl.State.{NativeIface, egl, glx}
use pw_capture.Gl.Textures.{
  Exported, Export, exported, export_panics, target_of, EglDriver, GlxDriver, export_image,
  egl_export_dmabuf, glx_export_dmabuf, Target, creation_panics, create_target_textures,
}
use pw_capture.Gl.Textures.Answers.{create_target_textures-answers}
use pw_capture.Gl.Frames.Init.{Answers}

-- The export of a texture under an interface.
abbrev pub export_by : EglDriver → GlxDriver → NativeIface → ℕ → ℕ → Export
export_by e x egl = egl_export_dmabuf e
export_by e x glx = glx_export_dmabuf x

-- The exports are the drivers'; EGL has both functions that create images or neither, and the
-- textures that are exported have one format, modifier and number of planes.
pub record Exports (e : EglDriver) (x : GlxDriver) (env : Answers) (native : NativeIface)
    : Type 0 where
  pub height : ℕ
  pub target : Target
  pub exports : (t : ℕ) → env.export t ≡ export_by e x native height t
  pub both : e.create_image_loaded ≡ e.create_image_khr_loaded
  pub alike : (t : ℕ) (y : Exported) → env.export t ≡ exported y → target_of y ≡ target

-- Creating textures panics for no name that may be bound.
abbrev pub CreatesOne : Answers → NativeIface → ℕ → Type 0
CreatesOne env native dpy =
    (b : ℕ) → create_target_textures env.export native dpy env.textures b ≢ creation_panics

export_image-answers :
    (e : EglDriver) (height image : ℕ) → export_image e height image ≢ export_panics
unfolding export_image
export_image-answers e height image q = ground (arith, q)

egl_export_dmabuf-answers :
    (e : EglDriver) (height t : ℕ)
    → e.create_image_loaded ≡ e.create_image_khr_loaded
    → egl_export_dmabuf e height t ≢ export_panics
unfolding egl_export_dmabuf
egl_export_dmabuf-answers e height t both q =
    ground (arith, both, q, export_image-answers e height (e.create_image_khr t))

glx_export_dmabuf-answers :
    (x : GlxDriver) (height t : ℕ) → glx_export_dmabuf x height t ≢ export_panics
unfolding glx_export_dmabuf
glx_export_dmabuf-answers x height t q = ground (arith, q)

export_by-answers :
    (e : EglDriver) (x : GlxDriver) (native : NativeIface) (height t : ℕ)
    → e.create_image_loaded ≡ e.create_image_khr_loaded
    → export_by e x native height t ≢ export_panics
export_by-answers e x egl height t both = egl_export_dmabuf-answers e height t both
export_by-answers e x glx height t both = glx_export_dmabuf-answers x height t

pub Exports-CreatesOne :
    (e : EglDriver) (x : GlxDriver) (env : Answers) (native : NativeIface) (dpy : ℕ)
    → Exports e x env native
    → CreatesOne env native dpy
Exports-CreatesOne e x env native dpy g =
    create_target_textures-answers env.export native dpy g.target env.textures
      (λ t q. export_by-answers e x native g.height t g.both (sym (g.exports t) ∙ q)) g.alike
