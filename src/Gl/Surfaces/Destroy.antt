-- ===== src/Gl/Surfaces/Destroy.antt =====
-- What destroying a context leaves of the surfaces.
use pw_capture.Common.{
  ℕ, ◌≡◌, refl, sym, ap, ◌∙◌, ◌≢◌, Bool, true, false, ◌==◌, if◌then◌else◌, Option, none, some, List,
  [], ◌∷◌, arith, Option-cases, inl, inr, ◌⊎◌, has,
}
use pw_capture.Gl.State.{NativeIface, LayerSurface, GlLayer}
use pw_capture.Gl.Surfaces.{
  captured_by, is_destroyed, destroy_surface, captured_keys, destroy_all, destroy_context,
}

-- A surface with a capture of the context is one of the interface.
abbrev pub Uses : NativeIface → ℕ → Option LayerSurface → Type 0
Uses n context none = Unit
Uses n context (some s) = captured_by context (some s) ≡ true → s.native ≡ n

has-first : (k : ℕ) (keys : List ℕ) → has k (k ∷ keys) ≡ true
has-first k keys = ground arith

has-later : (j k : ℕ) (keys : List ℕ) → has j keys ≡ true → has j (k ∷ keys) ≡ true
has-later j k keys q = ground arith

-- A surface that would be destroyed, or is gone.
abbrev Doomed : (NativeIface → Option ℕ) → Option LayerSurface → Type 0
Doomed current o = (is_destroyed current o ≡ true) ⊎ (o ≡ none)

has_picked :
    (i k : ℕ) (m : ℕ → Bool) (rest : List ℕ) (r : Bool)
    → has i rest ≡ (if r then m i else false)
    → has i (if m k then k ∷ rest else rest) ≡ (if (if i == k then true else r) then m i else false)
has_picked i k m rest r q = ground arith

and_right : (a b : Bool) → (if a then b else false) ≡ true → b ≡ true
and_right a b q = ground arith

has-captured_keys :
    (context : ℕ) (keys : List ℕ) (st : GlLayer) (i : ℕ)
    → has i (captured_keys context keys st)
      ≡ (if has i keys then captured_by context (st.surface_map i) else false)
unfolding captured_keys
has-captured_keys context [] st i = refl
has-captured_keys context (k ∷ keys) st i =
    has_picked i k (λ j. captured_by context (st.surface_map j)) (captured_keys context keys st)
      (has i keys) (has-captured_keys context keys st i)

other_context :
    (c context other : ℕ) → (c == context) ≡ true → ¬ (other ≡ context) → (c == other) ≡ false
other_context c context other q n = ground arith

-- A capture keeps its surface where its context is not current.
capture-kept :
    (current : NativeIface → Option ℕ) (context : ℕ)
    → ((n : NativeIface) → current n ≢ some context)
    → (o : Option LayerSurface) → captured_by context o ≡ true
    → is_destroyed current o ≡ false
unfolding captured_by is_destroyed
capture-kept current context h none q = refl
capture-kept current context h (some s) q = elim (Option-cases s.capture) [
  | inl n ↦ let q' = (rw (captured_by, n) at q) in ground arith
  | inr (c, k) ↦ elim (Option-cases (current s.native)) [
    | inl m ↦ rw (is_destroyed, k, m) refl
    | inr (other, m) ↦
        rw (is_destroyed, k, m)
          (other_context c.context context other (rw (captured_by, k) at q)
            (λ e. h s.native (m ∙ ap some e)))
  ]
]

destroy_all-kept :
    (current : NativeIface → Option ℕ) (keys : List ℕ) (st : GlLayer)
    → ((k : ℕ) → has k keys ≡ true → is_destroyed current (st.surface_map k) ≡ false)
    → destroy_all current keys st ≡ st
unfolding destroy_all destroy_surface
destroy_all-kept current [] st h = refl
destroy_all-kept current (k ∷ keys) st h =
    rw (destroy_surface, h k (has-first k keys))
      (destroy_all-kept current keys st (λ j m. h j (has-later j k keys m)))

-- Destroying a context that no interface has current on the calling thread changes nothing: the
-- surfaces keep their captures of it.
pub destroy_context-idle :
    (current : NativeIface → Option ℕ) (keys : List ℕ) (context : ℕ) (st : GlLayer)
    → ((n : NativeIface) → current n ≢ some context)
    → destroy_context current keys context st ≡ st
unfolding destroy_context
destroy_context-idle current keys context st h =
    destroy_all-kept current (captured_keys context keys st) st (λ k m.
      capture-kept current context h (st.surface_map k)
        (and_right (has k keys) _ (sym (has-captured_keys context keys st k) ∙ m)))
