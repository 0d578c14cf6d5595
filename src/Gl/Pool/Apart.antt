-- ===== src/Gl/Pool/Apart.antt =====
-- No texture of a capture is lost, and none is with the stream twice.
use pw_capture.Common.{
  ℕ, ◌+◌, ◌≤◌, ◌≡◌, refl, Bool, ◌==◌, if◌then◌else◌, Option, none, some, List, [], ◌∷◌, ◌++◌, arith,
  DashMap, remove, Option-cases, inl, inr,
}
use pw_capture.Gl.State.{ExportTexture, LayerCapture}
use pw_capture.Gl.Pool.{map_texture, unmap_texture}

unfoldable pub one_if : Bool → ℕ
one_if b = if b then 1 else 0

unfoldable pub count : ℕ → List ExportTexture → ℕ
unfolding one_if
count t [] = 0
count t (e ∷ es) = one_if (e.texture == t) + count t es

unfoldable pub mapped : Option ExportTexture → ℕ
mapped none = 0
mapped (some e) = 1

-- How often the capture has the texture, free or lent.
unfoldable pub copies : ℕ → LayerCapture → ℕ
unfolding count mapped
copies t c = count t c.free_textures + mapped (c.mapped_textures t)

-- Each texture is there once at most, and a lent one is under its own number.
pub record Distinct (c : LayerCapture) : Type 0 where
  pub once : (t : ℕ) → copies t c ≤ 1
  pub own_key : (t : ℕ) (e : ExportTexture) → c.mapped_textures t ≡ some e → e.texture ≡ t

count-snoc :
    (t : ℕ) (es : List ExportTexture) (e : ExportTexture)
    → count t (es ++ e ∷ []) ≡ count t es + one_if (e.texture == t)
unfolding count
count-snoc t [] e = omega arith
count-snoc t (x ∷ es) e = omega (arith, count-snoc t es e)

map_texture-conserves :
    (i : ℕ) (c : LayerCapture) (free : List ExportTexture)
    → c.free_textures ≡ free
    → ((t : ℕ) → count t free + mapped (c.mapped_textures t) ≤ 1)
    → copies i (map_texture c free).0 ≡ count i free + mapped (c.mapped_textures i)
unfolding map_texture copies count mapped one_if
map_texture-conserves i c [] q h = rw q refl
map_texture-conserves i c (e ∷ free) q h = let once = h i in ground arith

give_one :
    (t i n : ℕ) (m : DashMap ExportTexture) (e : ExportTexture)
    → m t ≡ some e
    → n + one_if (t == i) + mapped (remove t m i) ≡ n + mapped (m i)
unfolding mapped one_if
give_one t i n m e k = ground arith

unmap_texture-conserves :
    (i t : ℕ) (c : LayerCapture) → Distinct c → copies i (unmap_texture t c).0 ≡ copies i c
unfolding unmap_texture copies
unmap_texture-conserves i t c d = elim (Option-cases (c.mapped_textures t)) [
  | inl n ↦ rw (unmap_texture, n) refl
  | inr (e, k) ↦
      rw (unmap_texture, k, count-snoc i c.free_textures e, d.own_key t e k)
        (give_one t i (count i c.free_textures) c.mapped_textures e k)
]

remove-own_key :
    (t : ℕ) (c : LayerCapture)
    → Distinct c
    → (i : ℕ) (e : ExportTexture) → (unmap_texture t c).0.mapped_textures i ≡ some e
    → e.texture ≡ i
unfolding unmap_texture
remove-own_key t c d i e q = elim (Option-cases (c.mapped_textures t)) [
  | inl n ↦ d.own_key i e (rw (unmap_texture, n) at q)
  | inr (x, k) ↦ let own = d.own_key i e in let q' = (rw (unmap_texture, k) at q) in ground arith
]

insert-own_key :
    (c : LayerCapture) (free : List ExportTexture)
    → ((i : ℕ) (e : ExportTexture) → c.mapped_textures i ≡ some e → e.texture ≡ i)
    → (i : ℕ) (e : ExportTexture) → (map_texture c free).0.mapped_textures i ≡ some e
    → e.texture ≡ i
unfolding map_texture
insert-own_key c [] k i e q = k i e q
insert-own_key c (x ∷ free) k i e q = let own = k i e in ground arith

-- Where each texture of a capture is there once, adding and removing buffers neither loses nor
-- doubles one: every texture is there as often as before, and each still once, so that no texture
-- is lent while it is lent.
pub textures-Distinct :
    (t : ℕ) (c : LayerCapture)
    → Distinct c
    → (((i : ℕ) → copies i (map_texture c c.free_textures).0 ≡ copies i c)
        × Distinct (map_texture c c.free_textures).0)
      × ((i : ℕ) → copies i (unmap_texture t c).0 ≡ copies i c)
      × Distinct (unmap_texture t c).0
unfolding copies
textures-Distinct t c d =
    let add = λ (i : ℕ). map_texture-conserves i c c.free_textures refl d.once in
    let gone = λ (i : ℕ). unmap_texture-conserves i t c d in
    (
      (
        add,
        record {
          once = λ i. rw (add i) (d.once i);
          own_key = insert-own_key c c.free_textures d.own_key;
        },
      ),
      gone,
      record { once = λ i. rw (gone i) (d.once i); own_key = remove-own_key t c d },
    )
