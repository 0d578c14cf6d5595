-- ===== src/Gl/Textures/Created.antt =====
-- The textures that create_target_textures makes, and what it leaves when it fails.
use pw_capture.Common.{
  ℕ, ◌≡◌, refl, sym, ap, ◌∙◌, ◌⊎◌, inl, inr, Bool, true, false, ==_refl, ==_iff, ◌&&◌, none, some,
  List, [], ◌∷◌, ◌++◌, map, length, All, Bool-cases, arith,
}
use pw_capture.Client.Format.{Format, format_into, format_from}
use pw_capture.Client.Format.Numbers.{format_from-format_into}
use pw_capture.Gl.State.{NativeIface, ExportTexture}
use pw_capture.Gl.Textures.{
  Exported, Export, exported, export_failed, export_panics, Target, target_of, agrees, keep_first,
  Row, all_exported, stopped, row_panics, add_to_row, texture_of_export, export_row, Creation,
  created, creation_failed, creation_panics, finish_row, create_target_textures,
}

abbrev pub name_of : ExportTexture → ℕ
name_of e = e.texture

-- The texture holds what its export gave, which has the target's format.
pub record Made (export : ℕ → Export) (target : Target) (e : ExportTexture) : Type 0 where
  pub from : Exported
  pub exported_as : export e.texture ≡ exported from
  pub same_target : target_of from ≡ target
  pub same_planes : e.planes ≡ from.planes
  pub same_image : e.image ≡ from.image

abbrev RowMade : (ℕ → Export) → List ℕ → Target → Row → Type 0
RowMade export ts t (all_exported t' es) =
    (t' ≡ some t) × (map name_of es ≡ ts) × All (Made export t) es
RowMade export ts t (stopped es failed) =
    (rest : List ℕ) × (map name_of es ++ failed ∷ rest ≡ ts) × All (Made export t) es
RowMade export ts t row_panics = Unit {0}

-- What a creation leaves for the names `ts`.
abbrev pub Sound : (ℕ → Export) → List ℕ → ℕ → Creation → Type 0
Sound export ts bound (created target es b) =
    (map name_of es ≡ ts) × All (Made export target) es × (b ≡ bound)
Sound export ts bound (creation_failed es deleted b) = deleted ≡ ts
Sound export ts bound creation_panics = Unit {0}

pub Export-cases :
    (o : Export)
    → ((x : Exported) × (o ≡ exported x)) ⊎ (o ≡ export_panics) ⊎ ((g : _) × (o ≡ export_failed g))
Export-cases (exported x) = inl (x, refl)
Export-cases export_panics = inr (inl refl)
Export-cases (export_failed g) = inr (inr (g, refl))

add_to_row-RowMade :
    (export : ℕ → Export) (ts : List ℕ) (t : Target) (e : ExportTexture) (r : Row)
    → Made export t e
    → RowMade export ts t r
    → RowMade export (e.texture ∷ ts) t (add_to_row e r)
unfolding add_to_row
add_to_row-RowMade export ts t e (all_exported t' es) m (q, n, a) = (q, ap (e.texture ∷◌) n, (m, a))
add_to_row-RowMade export ts t e (stopped es failed) m (rest, n, a) =
    (rest, ap (e.texture ∷◌) n, (m, a))
add_to_row-RowMade export ts t e row_panics m u = tt

and_parts : (a b : Bool) → (a && b) ≡ true → (a ≡ true) × (b ≡ true)
and_parts true b q = (refl, q)
and_parts false b q = ground arith

Target-eq :
    {f f' : Format} {m m' n n' : ℕ}
    → f ≡ f'
    → m ≡ m'
    → n ≡ n'
    → ◌≡◌ {A = Target}
        (record { format = f; modifier = m; num_planes = n })
        (record { format = f'; modifier = m'; num_planes = n' })
Target-eq p q r = rw (p, q, r) refl

pub agrees_same : (t : Target) (x : Exported) → target_of x ≡ t → agrees (some t) x ≡ true
unfolding agrees target_of
agrees_same t x q =
    rw (← q, ==_refl (format_into x.format), ==_refl x.modifier, ==_refl (length x.planes)) refl

some-eq : {a b : Target} → some a ≡ some b → a ≡ b
some-eq q = ground (arith, q)

agrees-target : (t : Target) (x : Exported) → agrees (some t) x ≡ true → target_of x ≡ t
unfolding agrees target_of
agrees-target t x q =
    let (q', n) = and_parts _ _ q in
    let (f, m) = and_parts _ _ q' in
    Target-eq
      (sym (format_from-format_into x.format)
        ∙ ap format_from ((==_iff _ _).0 f)
        ∙ format_from-format_into t.format)
      ((==_iff _ _).0 m) ((==_iff _ _).0 n)

export_row-RowMade :
    (export : ℕ → Export) (native : NativeIface) (dpy : ℕ) (t : Target) (ts : List ℕ)
    → RowMade export ts t (export_row export native dpy (some t) ts)
unfolding export_row texture_of_export keep_first
export_row-RowMade export native dpy t [] = (refl, refl, tt)
export_row-RowMade export native dpy t (x ∷ ts) = elim (Export-cases (export x)) [
  | inr (inl q) ↦ rw (export_row, q) tt
  | inr (inr (g, q)) ↦ rw (export_row, q) (ts, refl, tt)
  | inl (v, q) ↦ elim (Bool-cases (agrees (some t) v)) [
    | inr differs ↦ rw (export_row, q, differs) tt
    | inl same ↦
        rw (export_row, q, same)
          (add_to_row-RowMade export ts t (texture_of_export native dpy x v)
            (export_row export native dpy (some t) ts)
            (record {
              from = v;
              exported_as = q;
              same_target = agrees-target t v same;
              same_planes = refl;
              same_image = refl;
            })
            (export_row-RowMade export native dpy t ts))
  ]
]

finish_row-Sound :
    (export : ℕ → Export) (ts : List ℕ) (bound : ℕ) (t : Target) (r : Row)
    → RowMade export ts t r
    → Sound export ts bound (finish_row ts bound r)
unfolding finish_row
finish_row-Sound export ts bound t row_panics u = tt
finish_row-Sound export ts bound t (stopped es failed) m = refl
finish_row-Sound export ts bound t (all_exported none es) (q, n, a) = ground (arith, q)
finish_row-Sound export ts bound t (all_exported (some t') es) (q, n, a) =
    (n, rw (some-eq q) a, refl)

-- Creating the textures of a capture for the names that the driver generates either gives one
-- texture for each name in their order, all exported with one format, modifier and number of planes
-- and each with the planes and image of its own export, and restores the texture binding; or
-- deletes every name; or panics.
pub create_target_textures-Sound :
    (export : ℕ → Export) (native : NativeIface) (dpy bound : ℕ) (ts : List ℕ)
    → Sound export ts bound (create_target_textures export native dpy ts bound)
unfolding create_target_textures export_row agrees keep_first finish_row texture_of_export
create_target_textures-Sound export native dpy bound [] = refl
create_target_textures-Sound export native dpy bound (x ∷ ts) = elim (Export-cases (export x)) [
  | inr (inl q) ↦ rw (create_target_textures, export_row, q) tt
  | inr (inr (g, q)) ↦ rw (create_target_textures, export_row, q) refl
  | inl (v, q) ↦
      rw (create_target_textures, export_row, q)
        (finish_row-Sound export (x ∷ ts) bound (target_of v) _ (
          add_to_row-RowMade export ts (target_of v) (texture_of_export native dpy x v) _
            (record {
              from = v;
              exported_as = q;
              same_target = refl;
              same_planes = refl;
              same_image = refl;
            })
            (export_row-RowMade export native dpy (target_of v) ts)))
]

export_row-uniform :
    (export : ℕ → Export) (native : NativeIface) (dpy : ℕ) (t : Target) (of : ℕ → Exported)
    (ts : List ℕ)
    → ((x : ℕ) → export x ≡ exported (of x))
    → ((x : ℕ) → target_of (of x) ≡ t)
    → export_row export native dpy (some t) ts
      ≡ all_exported (some t) (map (λ x. texture_of_export native dpy x (of x)) ts)
unfolding export_row keep_first add_to_row
export_row-uniform export native dpy t of [] e u = refl
export_row-uniform export native dpy t of (x ∷ ts) e u =
    rw
      (
        export_row,
        e x,
        agrees_same t (of x) (u x),
        export_row-uniform export native dpy t of ts e u,
      )
      refl

-- Where the driver exports every texture with one format, modifier and number of planes, creating
-- the textures for one name or more succeeds, and neither an assertion nor an error is met.
pub create_target_textures-uniform :
    (export : ℕ → Export) (native : NativeIface) (dpy bound : ℕ) (t : Target) (of : ℕ → Exported)
    (x : ℕ) (ts : List ℕ)
    → ((y : ℕ) → export y ≡ exported (of y))
    → ((y : ℕ) → target_of (of y) ≡ t)
    → create_target_textures export native dpy (x ∷ ts) bound
      ≡ created t (map (λ y. texture_of_export native dpy y (of y)) (x ∷ ts)) bound
unfolding create_target_textures export_row agrees keep_first finish_row add_to_row
create_target_textures-uniform export native dpy bound t of x ts e u =
    rw
      (
        create_target_textures,
        export_row,
        e x,
        keep_first,
        u x,
        export_row-uniform export native dpy t of ts e u,
      )
      refl
