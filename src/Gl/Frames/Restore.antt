-- ===== src/Gl/Frames/Restore.antt =====
-- What a capture leaves of the context of the program.
use pw_capture.Common.{
  Reply, ok, err, panics, ℕ, ◌≡◌, ◌≢◌, refl, ◌∙◌, Bool, true, ◌&&◌, ◌||◌, if◌then◌else◌, Option,
  none, some, arith, Option-cases, ==_refl, inl, inr,
}
use pw_capture.Client.Stream.Types.{BufferCursorInfo, BufferUserHandle, vk_image, texture}
use pw_capture.Gl.State.{NativeIface, FenceSync, LayerCapture}
use pw_capture.Cursor.Info.{CursorSnapshot}
use pw_capture.Gl.Pool.{process_texture, add_cursor, take_sync}
use pw_capture.Gl.Frames.{
  Loaded, Bindings, Commands, Lawful, failed, panicked, queued, new_sync, bind_target, copy_back,
  fence_copy, restore, capture_texture, capture,
}

-- What try_init_capture asks for before it makes a capture.
abbrev pub required : Loaded → Bool
required l = l.blit && l.read_buffer && (l.draw_buffer || l.draw_buffers)

-- The buffer that is dequeued, if any, is a texture.
abbrev pub OnlyTexture : Option (Option (ℕ × BufferUserHandle)) → Type 0
OnlyTexture (some (some (b, vk_image i))) = ⊥
OnlyTexture d = Unit

-- The fence that is waited for, and the one that is left for the texture.
abbrev pub waited_of : Reply (Option BufferCursorInfo × Option FenceSync) → Option FenceSync
waited_of (ok (cursor, sync)) = sync
waited_of err = none
waited_of panics = none

waits :
    (snapshot : Option (ℕ → Option CursorSnapshot)) (t : ℕ) (layer : LayerCapture)
    → (waited_of (process_texture snapshot t layer).1 ≡ layer.sync_objects t)
      × ((process_texture snapshot t layer).0.sync_objects t ≡ none)
unfolding process_texture add_cursor take_sync
waits none t layer = (refl, rw ==_refl refl)
waits (some snapshot) t layer = elim (Option-cases (snapshot layer.cursor_serial)) [
  | inl n ↦ rw (process_texture, add_cursor, n) (refl, rw ==_refl refl)
  | inr (serial, q) ↦ rw (process_texture, add_cursor, q) (refl, rw ==_refl refl)
]

not_panicked : (b : ℕ) (q : Bool) → (if q then queued b else failed) ≢ panicked
not_panicked b q e = ground arith

module _ {Context : Type 0} (gl : Commands Context) where
  copy_back-loaded :
      (w h : ℕ) (c : Context)
      → required gl.loaded ≡ true
      → copy_back gl w h c ≡ some (gl.blit w h (gl.draw_to (gl.read_back c)))
  unfolding copy_back
  copy_back-loaded w h c r = ground arith

  -- The fence of a captured texture is the one that the processing of its buffer waits for, and it
  -- is waited for once: the capture makes a fence and the buffer with that texture is processed,
  -- with or without a cursor.
  pub capture-fence :
      (native : NativeIface) (dpy t b : ℕ) (queue_ok : Bool) (layer : LayerCapture) (c c' : Context)
      (s : FenceSync) (snapshot : Option (ℕ → Option CursorSnapshot))
      → required gl.loaded ≡ true
      → new_sync gl native dpy
          (gl.blit layer.width layer.height (gl.draw_to (gl.read_back (bind_target gl t c).1)))
        ≡ (some s, c')
      → (waited_of
            (process_texture snapshot t
              (capture gl native dpy (some (some (b, texture t))) queue_ok layer c).0.0).1
          ≡ some s)
        × ((process_texture snapshot t
                (capture gl native dpy
                  (some (some (b, texture t)))
                  queue_ok
                  layer
                  c).0.0).0.sync_objects
              t
            ≡ none)
  unfolding capture fence_copy capture_texture
  capture-fence native dpy t b queue_ok layer c c' s snapshot r q =
      let found : (capture gl native dpy (some (some (b, texture t))) queue_ok layer
              c).0.0.sync_objects
            t
          ≡ some s =
        rw
          (
            capture,
            capture_texture,
            copy_back-loaded layer.width layer.height (bind_target gl t c).1 r,
            fence_copy,
            q,
            ==_refl t,
          )
          refl in
      let (w, gone) =
        waits snapshot t
          (capture gl native dpy (some (some (b, texture t))) queue_ok layer c).0.0 in
      (w ∙ found, gone)

module _ {Context : Type 0} (gl : Commands Context) (law : Lawful gl) where
  restore-bindings : (b : Bindings) (c : Context) → gl.bindings (restore gl b c) ≡ b
  unfolding restore
  restore-bindings b c = rw (law.on_srgb, law.on_texture, law.on_draw, law.on_read) refl

  capture_texture-restores :
      (native : NativeIface) (dpy t : ℕ) (layer : LayerCapture) (c : Context)
      → required gl.loaded ≡ true
      → (gl.bindings (capture_texture gl native dpy t layer c).0.1 ≡ gl.bindings c)
        × ((capture_texture gl native dpy t layer c).1 ≡ true)
  unfolding capture_texture
  capture_texture-restores native dpy t layer c r =
      rw (capture_texture, copy_back-loaded gl layer.width layer.height (bind_target gl t c).1 r)
        (restore-bindings (gl.bindings c) _, refl)

  -- With the commands that making a capture asks for, and a texture in the buffer, a capture
  -- does not panic, and leaves the framebuffer bindings, the texture binding and the sRGB
  -- conversion of the program as they were, also where there is no buffer or the stream fails.
  pub capture-restores :
      (native : NativeIface) (dpy : ℕ) (dequeued : Option (Option (ℕ × BufferUserHandle)))
      (queue_ok : Bool) (layer : LayerCapture) (c : Context)
      → required gl.loaded ≡ true
      → OnlyTexture dequeued
      → (gl.bindings (capture gl native dpy dequeued queue_ok layer c).0.1 ≡ gl.bindings c)
        × ((capture gl native dpy dequeued queue_ok layer c).1 ≢ panicked)
  unfolding capture
  capture-restores native dpy none queue_ok layer c r o = (refl, λ q. ground arith)
  capture-restores native dpy (some none) queue_ok layer c r o = (refl, λ q. ground arith)
  capture-restores native dpy (some (some (b, texture t))) queue_ok layer c r o =
      let (same, done) = capture_texture-restores native dpy t layer c r in
      (same, rw (capture, done) (not_panicked b queue_ok))
  capture-restores native dpy (some (some (b, vk_image i))) queue_ok layer c r o = absurd o
