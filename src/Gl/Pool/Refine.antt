-- ===== src/Gl/Pool/Refine.antt =====
-- The texture callbacks of a surface with a capture behave as the pool of Spec.
use pw_capture.Common.{
  Reply, ok, err, panics, ℕ, ◌≡◌, refl, sym, ap, subst, ◌∙◌, Bool, true, false, ==_refl, Option,
  none, some, List, [], ◌∷◌, ◌++◌, map, arith, DashMap, insert, remove, Option-cases, inl, inr,
}
use pw_capture.Client.Stream.Types.{texture, BufferInfo, vk_image}
use pw_capture.Gl.State.{ExportTexture, LayerCapture, LayerSurface, GlLayer}
use pw_capture.Gl.Pool.{map_texture, unmap_texture, with_capture, on_add_buffer, on_remove_buffer}
use pw_capture.Gl.Pool.Spec.{Op, lend, give_back, Answer, Pool, set_lent, lend_first, step, answers}

abbrev pub is_mapped : Option ExportTexture → Bool
is_mapped none = false
is_mapped (some e) = true

abbrev pub texture_of : ExportTexture → ℕ
texture_of e = e.texture

-- The capture holds the pool: its free textures in order, and each lent texture under its own
-- number.
pub record Holds (c : LayerCapture) (p : Pool) : Type 0 where
  pub free_eq : map texture_of c.free_textures ≡ p.free
  pub lent_eq : (t : ℕ) → is_mapped (c.mapped_textures t) ≡ p.lent t
  pub own_key : (t : ℕ) (e : ExportTexture) → c.mapped_textures t ≡ some e → e.texture ≡ t

abbrev pub answer_of : Reply BufferInfo → Answer
answer_of (ok info) = elim info.user_handle [ vk_image i ↦ none | texture t ↦ some t ]
answer_of err = none
answer_of panics = none

abbrev pub given : ℕ → Reply (Unit {0}) → Answer
given t (ok u) = some t
given t err = none
given t panics = none

insert-lent :
    (e : ExportTexture) (t : ℕ) (m : DashMap ExportTexture) (lent : ℕ → Bool)
    → is_mapped (m t) ≡ lent t
    → is_mapped (insert e.texture e m t) ≡ set_lent e.texture true lent t
unfolding set_lent
insert-lent e t m lent q = ground arith

insert-key :
    (e : ExportTexture) (t : ℕ) (e' : ExportTexture) (m : DashMap ExportTexture)
    → (m t ≡ some e' → e'.texture ≡ t)
    → insert e.texture e m t ≡ some e'
    → e'.texture ≡ t
insert-key e t e' m k q = ground arith

remove-lent :
    (t i : ℕ) (m : DashMap ExportTexture) (lent : ℕ → Bool)
    → is_mapped (m i) ≡ lent i
    → is_mapped (remove t m i) ≡ set_lent t false lent i
unfolding set_lent
remove-lent t i m lent q = ground arith

remove-key :
    (t i : ℕ) (e : ExportTexture) (m : DashMap ExportTexture)
    → (m i ≡ some e → e.texture ≡ i)
    → remove t m i ≡ some e
    → e.texture ≡ i
remove-key t i e m k q = ground arith

lend-Holds :
    (c : LayerCapture) (lent : ℕ → Bool) (free : List ExportTexture)
    → c.free_textures ≡ free
    → ((t : ℕ) → is_mapped (c.mapped_textures t) ≡ lent t)
    → ((t : ℕ) (e : ExportTexture) → c.mapped_textures t ≡ some e → e.texture ≡ t)
    → Holds (map_texture c free).0 (lend_first lent (map texture_of free)).0
      × (answer_of (map_texture c free).1 ≡ (lend_first lent (map texture_of free)).1)
unfolding map_texture lend_first
lend-Holds c lent [] q l k =
    (record { free_eq = ap (map texture_of) q; lent_eq = l; own_key = k }, refl)
lend-Holds c lent (e ∷ free) q l k = (
  record {
    free_eq = refl;
    lent_eq = λ t. insert-lent e t c.mapped_textures lent (l t);
    own_key = λ t e' m. insert-key e t e' c.mapped_textures (k t e') m;
  },
  refl,
)

map_texture-Holds :
    (c : LayerCapture) (p : Pool)
    → Holds c p
    → Holds (map_texture c c.free_textures).0 (step lend p).0
      × (answer_of (map_texture c c.free_textures).1 ≡ (step lend p).1)
unfolding step
map_texture-Holds c p h =
    subst
      (λ f.
        Holds (map_texture c c.free_textures).0 (lend_first p.lent f).0
        × (answer_of (map_texture c c.free_textures).1 ≡ (lend_first p.lent f).1))
      h.free_eq (lend-Holds c p.lent c.free_textures refl h.lent_eq h.own_key)

map-snoc :
    (xs : List ExportTexture) (e : ExportTexture)
    → map texture_of (xs ++ e ∷ []) ≡ map texture_of xs ++ e.texture ∷ []
map-snoc [] e = refl
map-snoc (x ∷ xs) e = ap (x.texture ∷◌) (map-snoc xs e)

unmap_texture-Holds :
    (t : ℕ) (c : LayerCapture) (p : Pool)
    → Holds c p
    → Holds (unmap_texture t c).0 (step (give_back t) p).0
      × (given t (unmap_texture t c).1 ≡ (step (give_back t) p).1)
unfolding unmap_texture step
unmap_texture-Holds t c p h =
    let mapped = sym (h.lent_eq t) in
    elim (Option-cases (c.mapped_textures t)) [
      | inl n ↦ let q = mapped ∙ ap is_mapped n in rw (unmap_texture, n, q) (h, refl)
      | inr (e, k) ↦
          let q = mapped ∙ ap is_mapped k in
          let same = h.own_key t e k in
          rw (unmap_texture, k, q)
            (
              record {
                free_eq =
                    map-snoc c.free_textures e
                    ∙ ap (◌++ (e.texture ∷ [])) h.free_eq
                    ∙ ap (λ i. p.free ++ i ∷ []) same;
                lent_eq = λ i. remove-lent t i c.mapped_textures p.lent (h.lent_eq i);
                own_key = λ i e' m. remove-key t i e' c.mapped_textures (h.own_key i e') m;
              },
              refl,
            )
    ]

-- The calls of the callbacks, in order.
unfoldable pub call : ℕ → Op → GlLayer → GlLayer × Answer
unfolding on_add_buffer on_remove_buffer
call s lend st = ((on_add_buffer s st).0, answer_of (on_add_buffer s st).1)
call s (give_back t) st =
    ((on_remove_buffer s (texture t) st).0, given t (on_remove_buffer s (texture t) st).1)

unfoldable pub calls : ℕ → List Op → GlLayer → List Answer
calls s [] st = []
calls s (o ∷ ops) st = (call s o st).1 ∷ calls s ops (call s o st).0

-- The surface has a capture, which holds the pool.
pub record SurfaceHolds (s : ℕ) (st : GlLayer) (p : Pool) : Type 0 where
  pub layer : LayerSurface
  pub held : LayerCapture
  pub found : st.surface_map s ≡ some layer
  pub captured : layer.capture ≡ some held
  pub holds : Holds held p

put_capture : ℕ → LayerSurface → LayerCapture → GlLayer → GlLayer
put_capture s l c st = record st {
  surface_map = insert s (record l { capture = some c }) st.surface_map;
}

with_capture-found :
    {A : Type 0} (s : ℕ) (f : LayerCapture → LayerCapture × Reply A) (st : GlLayer)
    (l : LayerSurface) (c : LayerCapture)
    → st.surface_map s ≡ some l
    → l.capture ≡ some c
    → with_capture s f st ≡ (put_capture s l (f c).0 st, (f c).1)
unfolding with_capture put_capture
with_capture-found s f st l c a b = rw (with_capture, a, b) refl

put_capture-Holds :
    (s : ℕ) (l : LayerSurface) (c : LayerCapture) (st : GlLayer) (p : Pool)
    → Holds c p
    → SurfaceHolds s (put_capture s l c st) p
unfolding put_capture
put_capture-Holds s l c st p h = record {
  layer = record l { capture = some c };
  held = c;
  found = rw (==_refl s) refl;
  captured = refl;
  holds = h;
}

call-Holds :
    (s : ℕ) (o : Op) (st : GlLayer) (p : Pool)
    → SurfaceHolds s st p
    → SurfaceHolds s (call s o st).0 (step o p).0 × ((call s o st).1 ≡ (step o p).1)
unfolding call on_add_buffer on_remove_buffer
call-Holds s lend st p h =
    let (h', r) = map_texture-Holds h.held p h.holds in
    rw
      (with_capture-found s (λ c. map_texture c c.free_textures) st h.layer h.held h.found
        h.captured)
      (put_capture-Holds s h.layer _ st _ h', r)
call-Holds s (give_back t) st p h =
    let (h', r) = unmap_texture-Holds t h.held p h.holds in
    rw (with_capture-found s (unmap_texture t) st h.layer h.held h.found h.captured)
      (put_capture-Holds s h.layer _ st _ h', r)

-- The callbacks of a surface whose capture holds a pool answer every sequence of calls as the pool
-- does: buffers are lent oldest first, a texture comes back only when it is lent, and then goes to
-- the end of the queue.
pub calls-eq-answers :
    (s : ℕ) (ops : List Op) (st : GlLayer) (p : Pool)
    → SurfaceHolds s st p
    → calls s ops st ≡ answers ops p
unfolding calls answers
calls-eq-answers s [] st p h = refl
calls-eq-answers s (o ∷ ops) st p h =
    let (h', r) = call-Holds s o st p h in
    rw (r, calls-eq-answers s ops (call s o st).0 (step o p).0 h') refl
