-- ===== src/Gl/Pool/Freed/Once.antt =====
-- Every texture of a capture is deleted once, whatever buffers were added and removed.
use pw_capture.Common.{
  ℕ, ◌+◌, ◌≤◌, ◌≡◌, refl, sym, ap, ◌∙◌, Bool, true, false, ◌==◌, ==_iff, if◌then◌else◌, Option,
  none, some, List, [], ◌∷◌, ◌++◌, arith, DashMap, Option-cases, inl, inr,
}
use pw_capture.Client.Stream.Types.{BufferPlaneInfo}
use pw_capture.Gl.State.{FenceSync, TextureImage, egl_image, pixmap, ExportTexture, LayerCapture}
use pw_capture.Gl.Pool.{map_texture, unmap_texture}
use pw_capture.Gl.Pool.Spec.{Op, lend, give_back}
use pw_capture.Gl.Pool.Apart.{one_if, count, mapped, copies, Distinct, textures-Distinct}
use pw_capture.Gl.Pool.Freed.{
  Freed, texture_deleted, close_planes, drop_image, drop_texture, drop_free, drop_mapped,
  drop_syncs, drop_capture,
}

unfoldable is_deletion : ℕ → Freed → ℕ
unfolding one_if
is_deletion t (texture_deleted native i) = one_if (i == t)
is_deletion t f = 0

-- How often a texture is deleted.
unfoldable pub deleted : ℕ → List Freed → ℕ
unfolding is_deletion
deleted t [] = 0
deleted t (f ∷ fs) = is_deletion t f + deleted t fs

deleted-append : (t : ℕ) (xs ys : List Freed) → deleted t (xs ++ ys) ≡ deleted t xs + deleted t ys
unfolding deleted
deleted-append t [] ys = omega arith
deleted-append t (x ∷ xs) ys = omega (arith, deleted-append t xs ys)

deleted-close_planes : (t : ℕ) (ps : List BufferPlaneInfo) → deleted t (close_planes ps) ≡ 0
unfolding deleted close_planes is_deletion
deleted-close_planes t [] = refl
deleted-close_planes t (p ∷ ps) = omega (arith, deleted-close_planes t ps)

deleted-drop_image : (t dpy : ℕ) (i : TextureImage) → deleted t (drop_image dpy i) ≡ 0
unfolding deleted drop_image is_deletion
deleted-drop_image t dpy (egl_image i) = refl
deleted-drop_image t dpy (pixmap g x) = refl

deleted-drop_texture :
    (t : ℕ) (e : ExportTexture) → deleted t (drop_texture e) ≡ one_if (e.texture == t)
unfolding deleted drop_texture is_deletion
deleted-drop_texture t e =
    let own = texture_deleted e.native e.texture ∷ [] in
    deleted-append t (close_planes e.planes ++ drop_image e.dpy e.image) own
    ∙ omega (
      arith,
      deleted-append t (close_planes e.planes) (drop_image e.dpy e.image),
      deleted-close_planes t e.planes,
      deleted-drop_image t e.dpy e.image,
    )

deleted-drop_free : (t : ℕ) (es : List ExportTexture) → deleted t (drop_free es) ≡ count t es
unfolding deleted drop_free count
deleted-drop_free t [] = refl
deleted-drop_free t (e ∷ es) =
    deleted-append t (drop_texture e) (drop_free es)
    ∙ omega (arith, deleted-drop_texture t e, deleted-drop_free t es)

-- How often a key is listed.
unfoldable pub listed : ℕ → List ℕ → ℕ
unfolding one_if
listed t [] = 0
listed t (k ∷ keys) = one_if (k == t) + listed t keys

is_in : Option ExportTexture → Bool
is_in none = false
is_in (some e) = true

OwnKeys : DashMap ExportTexture → Type 0
OwnKeys m = (k : ℕ) (e : ExportTexture) → m k ≡ some e → e.texture ≡ k

deleted-drop_mapped :
    (t : ℕ) (keys : List ℕ) (m : DashMap ExportTexture)
    → OwnKeys m
    → deleted t (drop_mapped keys m) ≡ (if is_in (m t) then listed t keys else 0)
unfolding deleted drop_mapped listed is_in OwnKeys
deleted-drop_mapped t [] m o = ground arith
deleted-drop_mapped t (k ∷ keys) m o = elim (Option-cases (m k)) [
  | inl n ↦
      let other : (k == t) ≡ true → is_in (m t) ≡ false =
        λ e. ap (λ i. is_in (m i)) (sym ((==_iff k t).0 e)) ∙ ap is_in n in
      rw (drop_mapped, n) (ground (arith, deleted-drop_mapped t keys m o, other))
  | inr (e, q) ↦
      let same : (k == t) ≡ true → is_in (m t) ≡ true =
        λ s. ap (λ i. is_in (m i)) (sym ((==_iff k t).0 s)) ∙ ap is_in q in
      rw (drop_mapped, q)
        (deleted-append t (drop_texture e) (drop_mapped keys m)
          ∙ ground (arith, deleted-drop_mapped t keys m o, deleted-drop_texture t e, same, o k e q))
]

deleted-drop_syncs :
    (t : ℕ) (keys : List ℕ) (m : DashMap FenceSync) → deleted t (drop_syncs keys m) ≡ 0
unfolding deleted drop_syncs is_deletion
deleted-drop_syncs t [] m = refl
deleted-drop_syncs t (k ∷ keys) m = elim (Option-cases (m k)) [
  | inl n ↦ rw (drop_syncs, n) (deleted-drop_syncs t keys m)
  | inr (s, q) ↦ rw (drop_syncs, q) (omega (arith, deleted-drop_syncs t keys m))
]

-- The capture after the calls of the stream.
unfoldable pub run : List Op → LayerCapture → LayerCapture
unfolding map_texture unmap_texture
run [] c = c
run (lend ∷ ops) c = run ops (map_texture c c.free_textures).0
run (give_back t ∷ ops) c = run ops (unmap_texture t c).0

run-Distinct :
    (ops : List Op) (c : LayerCapture)
    → Distinct c
    → ((i : ℕ) → copies i (run ops c) ≡ copies i c) × Distinct (run ops c)
unfolding run
run-Distinct [] c d = (λ i. refl, d)
run-Distinct (lend ∷ ops) c d =
    let (same, d') = (textures-Distinct 0 c d).0 in
    let (all, after) = run-Distinct ops (map_texture c c.free_textures).0 d' in
    (λ i. all i ∙ same i, after)
run-Distinct (give_back t ∷ ops) c d =
    let (_, same, d') = textures-Distinct t c d in
    let (all, after) = run-Distinct ops (unmap_texture t c).0 d' in (λ i. all i ∙ same i, after)

listed-mapped :
    (n : ℕ) (o : Option ExportTexture) → n ≡ mapped o → (if is_in o then n else 0) ≡ mapped o
unfolding is_in mapped
listed-mapped n none e = refl
listed-mapped n (some x) e = e

-- When a capture is dropped, each texture that it was made with is deleted exactly as often as the
-- capture had it, once, whatever buffers its stream added and removed before, and no other texture
-- is; the keys are those of the lent textures, each once.
pub drop_capture-once :
    (ops : List Op) (c : LayerCapture) (keys sync_keys : List ℕ)
    → Distinct c
    → ((t : ℕ) → listed t keys ≡ mapped ((run ops c).mapped_textures t))
    → (t : ℕ)
    → (deleted t (drop_capture keys sync_keys (run ops c)) ≡ copies t c) × (copies t c ≤ 1)
unfolding drop_capture copies OwnKeys
drop_capture-once ops c keys sync_keys d all t =
    let (same, after) = run-Distinct ops c d in
    let last = run ops c in
    let frees = drop_free last.free_textures in
    let lent = drop_mapped keys last.mapped_textures in
    let syncs = drop_syncs sync_keys last.sync_objects in
    let of_lent : deleted t lent ≡ mapped (last.mapped_textures t) =
      deleted-drop_mapped t keys last.mapped_textures after.own_key
      ∙ listed-mapped (listed t keys) (last.mapped_textures t) (all t) in
    let whole : deleted t (frees ++ lent ++ syncs) ≡ copies t last =
      deleted-append t (frees ++ lent) syncs
      ∙ omega (
        arith,
        deleted-append t frees lent,
        deleted-drop_free t last.free_textures,
        of_lent,
        deleted-drop_syncs t sync_keys last.sync_objects,
      ) in
    (whole ∙ same t, d.once t)
