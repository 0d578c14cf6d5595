-- ===== src/Vulkan/Surfaces/Owned.antt =====
-- The managers of Wayland cursors that the surfaces of vulkan/src/lib.rs hold, over any
-- implementation of the managers that keeps the laws below.
pub mod Holders
use pw_capture.Common.{
  ℕ, ◌≡◌, ◌≢◌, refl, sym, ap, ◌∙◌, ◌⊎◌, inl, inr, Bool, true, false, ◌==◌, if◌then◌else◌, Option,
  none, some, DashMap, insert, remove, arith, ==_iff, Bool-cases, Option-cases,
}
use pw_capture.Cursor.Xcb.{Server}
use pw_capture.Cursor.Info.{WlManagers}
use pw_capture.Vulkan.Layer.{Layer}
use pw_capture.Vulkan.Surfaces.{
  SurfaceRawHandle, xlib_handle, xcb_handle, wayland_handle, LayerSurface, Surfaces, wl_manager_of,
  init_surface, release_of, create_surface, destroy_surface,
}
use pw_capture.Vulkan.Surfaces.Owned.Holders.{
  Matched, Matched-same, Matched-add, Matched-remove, manager_at, manager_at-missing,
  manager_at-remove, manager_at-insert, still_none,
}

-- A handle is live from its creation to its release, and a new handle was not live, in the states
-- that are ready for one.
pub record Managed {S : Type 0} (wl : WlManagers S) (holds : S → ℕ → Bool) (ready : S → Type 0)
    : Type 0 where
  pub none_zero : (s : S) → holds s 0 ≡ false
  pub get_fresh :
      (display surface : ℕ) (s : S)
      → ready s
      → let (s', handle) = wl.get_wl_cursor_manager display surface s in
        ((handle ≡ 0) × ((i : ℕ) → holds s' i ≡ holds s i))
        ⊎ ((handle ≢ 0)
            × (holds s handle ≡ false)
            × ((i : ℕ) → holds s' i ≡ (if i == handle then true else holds s i)))
  pub release_one :
      (handle : ℕ) (s : S)
      → handle ≢ 0
      → (i : ℕ)
      → holds (wl.release_wl_cursor_manager handle s).0 i
        ≡ (if i == handle then false else holds s i)

pub IsOwned : {S : Type 0} → (S → ℕ → Bool) → Surfaces S → Type 0
IsOwned holds t = Matched (manager_at t.surface_map) (holds t.managers)

-- The driver gives a surface that is not in the table.
abbrev pub IsNew : {S : Type 0} → Option ℕ → Surfaces S → Type 0
IsNew created t = (s : ℕ) → created ≡ some s → t.surface_map s ≡ none

module _ {S : Type 0} (wl : WlManagers S) (xcb : Server) (holds : S → ℕ → Bool)
    (ready : S → Type 0) where
  -- The states that creating and destroying surfaces lead to from a state without surfaces, with
  -- any answers of the driver, whatever instances there are, and a free address for each box.
  pub data Reach : Surfaces S → Type 0 where
    starts :
        (t : Surfaces S)
        → ((i : ℕ) → t.surface_map i ≡ none)
        → ((h : ℕ) → holds t.managers h ≡ false)
        → Reach t
    creates :
        (t : Surfaces S) (raw : SurfaceRawHandle) (created : Option ℕ) (instance' : ℕ)
        (layer : Layer)
        → Reach t
        → IsNew created t
        → ready t.managers
        → Reach (create_surface wl xcb raw created instance' layer t).0
    destroys :
        (t : Surfaces S) (instance' surface : ℕ) (layer : Layer)
        → Reach t
        → Reach (destroy_surface wl xcb instance' surface layer t).0

module _ {S : Type 0} (wl : WlManagers S) (xcb : Server) (holds : S → ℕ → Bool) (ready : S → Type 0)
    (laws : Managed wl holds ready) where
  unmanaged :
      (surface : ℕ) (t : Surfaces S) (x : LayerSurface)
      → t.surface_map surface ≡ none
      → x.wl_cursor_manager ≡ 0
      → IsOwned holds t
      → IsOwned holds (record t { surface_map = insert surface x t.surface_map })
  unfolding IsOwned
  unmanaged surface t x new z o =
      Matched-same (manager_at t.surface_map) _ (holds t.managers) _ surface o
        (λ i.
          manager_at-insert t.surface_map surface i x
          ∙ ap (λ h. if i == surface then h else manager_at t.surface_map i) z
          ∙ still_none (manager_at t.surface_map) surface i
              (manager_at-missing t.surface_map surface new))
        (λ i. refl)

  init_surface-IsOwned :
      (raw : SurfaceRawHandle) (surface instance' : ℕ) (t : Surfaces S)
      → t.surface_map surface ≡ none
      → ready t.managers
      → IsOwned holds t
      → IsOwned holds (init_surface wl xcb instance' surface raw t)
  unfolding init_surface wl_manager_of IsOwned
  init_surface-IsOwned (xlib_handle dpy window) surface instance' t new free o =
      unmanaged surface t _ new refl o
  init_surface-IsOwned (xcb_handle connection window) surface instance' t new free o =
      unmanaged surface t _ new refl o
  init_surface-IsOwned (wayland_handle display wl_surface) surface instance' t new now_free o =
      let free = manager_at-missing t.surface_map surface new in
      elim (laws.get_fresh display wl_surface t.managers now_free) [
        | inl (z, same) ↦
            Matched-same (manager_at t.surface_map) _ (holds t.managers) _ surface o
              (λ i.
                manager_at-insert t.surface_map surface i _
                ∙ ap (λ h. if i == surface then h else manager_at t.surface_map i) z
                ∙ still_none (manager_at t.surface_map) surface i free)
              same
        | inr (z, fresh, now) ↦
            Matched-add (manager_at t.surface_map) _ (holds t.managers) _ surface o
              (wl.get_wl_cursor_manager display wl_surface t.managers).1 free z fresh
              (laws.none_zero t.managers) (λ i. manager_at-insert t.surface_map surface i _) now
      ]

  create_surface-IsOwned :
      (raw : SurfaceRawHandle) (created : Option ℕ) (instance' : ℕ) (layer : Layer) (t : Surfaces S)
      → IsNew created t
      → ready t.managers
      → IsOwned holds t
      → IsOwned holds (create_surface wl xcb raw created instance' layer t).0
  unfolding create_surface
  create_surface-IsOwned raw created instance' layer t new free o =
      elim (Option-cases (layer.instance_map instance')) [
        | inl n ↦ rw (create_surface, n) o
        | inr (i, k) ↦ elim (Option-cases created) [
          | inl n ↦ rw (create_surface, k, n) o
          | inr (s, c) ↦
              rw (create_surface, k, c) (init_surface-IsOwned raw s instance' t (new s c) free o)
        ]
      ]

  released-Matched :
      (x : Option LayerSurface) (surface : ℕ) (t : Surfaces S)
      → t.surface_map surface ≡ x
      → IsOwned holds t
      → Matched (manager_at (remove surface t.surface_map)) (holds (release_of wl xcb x t.managers))
  unfolding IsOwned release_of manager_at
  released-Matched none surface t e o =
      Matched-same (manager_at t.surface_map) _ (holds t.managers) _ surface o
        (λ i.
          manager_at-remove t.surface_map surface i
          ∙ still_none (manager_at t.surface_map) surface i
              (manager_at-missing t.surface_map surface e))
        (λ i. refl)
  released-Matched (some x) surface t e o =
      let at : manager_at t.surface_map surface ≡ x.wl_cursor_manager = rw (manager_at, e) refl in
      elim (Bool-cases (x.wl_cursor_manager == 0)) [
        | inl z ↦ rw z (
            Matched-same (manager_at t.surface_map) _ (holds t.managers) _ surface o
              (λ i.
                manager_at-remove t.surface_map surface i
                ∙ still_none (manager_at t.surface_map) surface i (at ∙ (==_iff _ 0).0 z))
              (λ i. refl))
        | inr z ↦
            let kept : x.wl_cursor_manager ≢ 0 = λ q. ground (arith, z, q) in
            rw z (
              Matched-remove (manager_at t.surface_map) _ (holds t.managers) _ surface o
                (λ q. kept (sym at ∙ q)) (manager_at-remove t.surface_map surface)
                (λ i. rw at (laws.release_one x.wl_cursor_manager t.managers kept i)))
      ]

  destroy_surface-IsOwned :
      (instance' surface : ℕ) (layer : Layer) (t : Surfaces S)
      → IsOwned holds t
      → IsOwned holds (destroy_surface wl xcb instance' surface layer t).0
  unfolding destroy_surface IsOwned
  destroy_surface-IsOwned instance' surface layer t o =
      elim (Option-cases (layer.instance_map instance')) [
        | inl n ↦ rw (destroy_surface, n) o
        | inr (i, k) ↦
            rw (destroy_surface, k) (released-Matched (t.surface_map surface) surface t refl o)
      ]

  -- Each live manager belongs to one surface, in every state that is reached.
  pub Reach-IsOwned : (t : Surfaces S) → Reach wl xcb holds ready t → IsOwned holds t
  unfolding IsOwned
  Reach-IsOwned _ (starts t none_yet no_live) = record {
    held = λ i z. absurd (z (manager_at-missing t.surface_map i (none_yet i)));
    apart = λ i j z e. absurd (z (manager_at-missing t.surface_map i (none_yet i)));
    kept = λ h e. absurd (ground (arith, e, no_live h));
  }
  Reach-IsOwned _ (creates t raw created instance' layer r new free) =
      create_surface-IsOwned raw created instance' layer t new free (Reach-IsOwned t r)
  Reach-IsOwned _ (destroys t instance' surface layer r) =
      destroy_surface-IsOwned instance' surface layer t (Reach-IsOwned t r)

-- Without surfaces no manager is live.
pub all_released :
    {S : Type 0} (holds : S → ℕ → Bool) (t : Surfaces S)
    → IsOwned holds t
    → ((i : ℕ) → t.surface_map i ≡ none)
    → (h : ℕ) → h ≢ 0
    → holds t.managers h ≡ false
unfolding IsOwned
all_released holds t o all h z = elim (Bool-cases (holds t.managers h)) [
  | inl e ↦
      let (i, k) = o.kept h e in absurd (z (sym k ∙ manager_at-missing t.surface_map i (all i)))
  | inr e ↦ e
]
