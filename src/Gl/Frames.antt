-- ===== src/Gl/Frames.antt =====
-- A frame of the OpenGL layer: FenceSync::new of gl/src/interface/state.rs and capture of
-- gl/src/interface/implementation.rs, over the commands of OpenGL as an interface.
pub mod Init
pub mod Restore
mod Tests
use pw_capture.Common.{
  ℕ, Bool, true, false, ◌==◌, if◌then◌else◌, ◌&&◌, ◌||◌, ◌≡◌, Option, none, some, insert,
}
use pw_capture.Client.Stream.Types.{BufferUserHandle, vk_image, texture}
use pw_capture.Gl.State.{
  NativeIface, glx, egl, FenceSync, gl_sync, egl_sync, egl_khr_sync, LayerCapture,
}

pub record Loaded : Type 0 where
  pub blit : Bool
  pub read_buffer : Bool
  pub draw_buffer : Bool
  pub draw_buffers : Bool
  pub fence_sync : Bool
  pub create_sync : Bool
  pub create_sync_khr : Bool

-- The state of a context that `capture` asks for.
pub record Bindings : Type 0 where
  pub srgb : Bool
  pub read_fbo : ℕ
  pub draw_fbo : ℕ
  pub texture_2d : ℕ

-- The commands that the layer uses.
pub record Commands (Context : Type 0) : Type 0 where
  pub loaded : Loaded
  pub bindings : Context → Bindings
  pub set_srgb : Bool → Context → Context
  pub bind_read : ℕ → Context → Context
  pub bind_draw : ℕ → Context → Context
  pub bind_texture : ℕ → Context → Context
  pub gen_framebuffer : Context → ℕ × Context
  pub attach : ℕ → Context → Context
  pub read_back : Context → Context
  pub draw_to : Context → Context
  pub blit : ℕ → ℕ → Context → Context
  pub fence : Context → ℕ × Context
  pub finish : Context → Context
  pub delete_framebuffer : ℕ → Context → Context

-- What the setters do to the bindings, as OpenGL documents them: each sets its own.
pub record Lawful {Context : Type 0} (gl : Commands Context) : Type 0 where
  pub on_srgb :
      (b : Bool) (c : Context) → gl.bindings (gl.set_srgb b c) ≡ record (gl.bindings c) { srgb = b }
  pub on_read :
      (n : ℕ) (c : Context)
      → gl.bindings (gl.bind_read n c) ≡ record (gl.bindings c) { read_fbo = n }
  pub on_draw :
      (n : ℕ) (c : Context)
      → gl.bindings (gl.bind_draw n c) ≡ record (gl.bindings c) { draw_fbo = n }
  pub on_texture :
      (n : ℕ) (c : Context)
      → gl.bindings (gl.bind_texture n c) ≡ record (gl.bindings c) { texture_2d = n }

pub data Captured : Type 0 where
  nothing failed panicked : Captured
  queued : ℕ → Captured

module _ {Context : Type 0} (gl : Commands Context) where
  -- `FenceSync::new`; `gl.fence` is the fence command of the interface that is loaded.
  unfoldable pub new_sync : NativeIface → ℕ → Context → Option FenceSync × Context
  new_sync native dpy c =
      let (sync, c') = gl.fence c in
      if gl.loaded.fence_sync then (some (gl_sync native sync), c') else elim native [
        | glx ↦ (none, c)
        | egl ↦
            if gl.loaded.create_sync
            then (some (egl_sync dpy sync), c')
            else if gl.loaded.create_sync_khr
            then (some (egl_khr_sync dpy sync), c')
            else (none, c)
      ]

  -- The framebuffer that the copy is drawn to, bound with the texture.
  unfoldable pub bind_target : ℕ → Context → ℕ × Context
  bind_target t c =
      let c1 = if (gl.bindings c).srgb then gl.set_srgb false c else c in
      let (fbo, c2) = gl.gen_framebuffer c1 in
      (fbo, gl.attach t (gl.bind_texture t (gl.bind_draw fbo (gl.bind_read 0 c2))))

  -- `none` is `unimplemented!`.
  unfoldable pub copy_back : ℕ → ℕ → Context → Option Context
  copy_back w h c =
      if gl.loaded.read_buffer
        && (gl.loaded.draw_buffers || gl.loaded.draw_buffer)
        && gl.loaded.blit
      then some (gl.blit w h (gl.draw_to (gl.read_back c)))
      else none

  -- The fence goes under the texture; without one the commands are waited for.
  unfoldable pub fence_copy : NativeIface → ℕ → ℕ → LayerCapture → Context → LayerCapture × Context
  unfolding new_sync
  fence_copy native dpy t layer c =
      let (sync, c') = new_sync native dpy c in
      elim sync [
        | some s ↦ (record layer { sync_objects = insert t s layer.sync_objects }, c')
        | none ↦ (layer, gl.finish c')
      ]

  unfoldable pub restore : Bindings → Context → Context
  restore b c =
      gl.set_srgb b.srgb
        (gl.bind_texture b.texture_2d (gl.bind_draw b.draw_fbo (gl.bind_read b.read_fbo c)))

  unfoldable pub capture_texture :
      NativeIface → ℕ → ℕ → LayerCapture → Context → (LayerCapture × Context) × Bool
  unfolding bind_target copy_back fence_copy restore
  capture_texture native dpy t layer c =
      let (fbo, c1) = bind_target t c in
      elim (copy_back layer.width layer.height c1) [
        | none ↦ ((layer, c1), false)
        | some c2 ↦
            let (layer', c3) = fence_copy native dpy t layer c2 in
            ((layer', restore (gl.bindings c) (gl.delete_framebuffer fbo c3)), true)
      ]

  -- `dequeued` is the stream's answer, and `queue_ok` whether it takes the buffer back.
  unfoldable pub capture :
      NativeIface
      → ℕ
      → Option (Option (ℕ × BufferUserHandle))
      → Bool
      → LayerCapture
      → Context
      → (LayerCapture × Context) × Captured
  unfolding capture_texture
  capture native dpy none queue_ok layer c = ((layer, c), failed)
  capture native dpy (some none) queue_ok layer c = ((layer, c), nothing)
  capture native dpy (some (some (buffer, vk_image i))) queue_ok layer c = ((layer, c), panicked)
  capture native dpy (some (some (buffer, texture t))) queue_ok layer c =
      let (out, done) = capture_texture native dpy t layer c in
      (out, if done then (if queue_ok then queued buffer else failed) else panicked)
