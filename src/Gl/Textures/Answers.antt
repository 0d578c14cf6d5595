-- ===== src/Gl/Textures/Answers.antt =====
-- When create_target_textures of gl/src/interface/implementation.rs does not panic.
use pw_capture.Common.{ℕ, ◌≡◌, ◌≢◌, inl, inr, none, some, List, [], ◌∷◌, arith}
use pw_capture.Gl.State.{NativeIface, ExportTexture}
use pw_capture.Gl.Textures.{
  Exported, Export, exported, export_panics, Target, target_of, agrees, keep_first, Row,
  all_exported, stopped, row_panics, add_to_row, texture_of_export, export_row, creation_panics,
  finish_row, create_target_textures,
}
use pw_capture.Gl.Textures.Created.{Export-cases, agrees_same}

abbrev Answers : Row → Type 0
Answers row_panics = ⊥
Answers (all_exported t es) = Unit
Answers (stopped es failed) = Unit

add_to_row-Answers : (e : ExportTexture) (r : Row) → Answers r → Answers (add_to_row e r)
unfolding add_to_row
add_to_row-Answers e (all_exported t es) a = tt
add_to_row-Answers e (stopped es failed) a = tt
add_to_row-Answers e row_panics a = a

export_row-Answers :
    (export : ℕ → Export) (native : NativeIface) (dpy : ℕ) (t : Target) (ts : List ℕ)
    → ((y : ℕ) → export y ≢ export_panics)
    → ((y : ℕ) (v : Exported) → export y ≡ exported v → target_of v ≡ t)
    → Answers (export_row export native dpy (some t) ts)
unfolding export_row keep_first
export_row-Answers export native dpy t [] n u = tt
export_row-Answers export native dpy t (x ∷ ts) n u = elim (Export-cases (export x)) [
  | inr (inl q) ↦ absurd (n x q)
  | inr (inr (g, q)) ↦ rw (export_row, q) tt
  | inl (v, q) ↦
      rw (export_row, q, agrees_same t v (u x v q))
        (add_to_row-Answers (texture_of_export native dpy x v)
          (export_row export native dpy (some t) ts)
          (export_row-Answers export native dpy t ts n u))
]

finish_row-answers :
    (ts : List ℕ) (bound : ℕ) (r : Row) → Answers r → finish_row ts bound r ≢ creation_panics
unfolding finish_row
finish_row-answers ts bound row_panics a q = a
finish_row-answers ts bound (stopped es failed) a q = ground (arith, q)
finish_row-answers ts bound (all_exported none es) a q = ground (arith, q)
finish_row-answers ts bound (all_exported (some t) es) a q = ground (arith, q)

-- Where no export panics and the exported textures have one format, modifier and number of planes,
-- creating textures does not panic.
pub create_target_textures-answers :
    (export : ℕ → Export) (native : NativeIface) (dpy : ℕ) (t : Target) (ts : List ℕ)
    → ((y : ℕ) → export y ≢ export_panics)
    → ((y : ℕ) (v : Exported) → export y ≡ exported v → target_of v ≡ t)
    → (bound : ℕ) → create_target_textures export native dpy ts bound ≢ creation_panics
unfolding create_target_textures export_row agrees keep_first
create_target_textures-answers export native dpy t [] n u bound =
    finish_row-answers [] bound (all_exported none []) tt
create_target_textures-answers export native dpy t (x ∷ ts) n u bound =
    elim (Export-cases (export x)) [
      | inr (inl q) ↦ absurd (n x q)
      | inr (inr (g, q)) ↦
          rw (create_target_textures, export_row, q)
            (finish_row-answers (x ∷ ts) bound (stopped [] x) tt)
      | inl (v, q) ↦
          rw (create_target_textures, export_row, q, keep_first, u x v q)
            (finish_row-answers (x ∷ ts) bound _ (
              add_to_row-Answers (texture_of_export native dpy x v)
                (export_row export native dpy (some t) ts)
                (export_row-Answers export native dpy t ts n u)))
    ]
