-- ===== src/Gl/Managers.antt =====
-- The managers of Wayland cursors that the OpenGL layer gives to the Vulkan layer:
-- CURSOR_MANAGER_MAP and the me_eh5_pw_capture functions of gl/src/interface/wl_impl.rs. A manager
-- is its surface; its handle is the address of its box.
use pw_capture.Common.{
  ℕ, ◌≡◌, ◌≢◌, refl, ◌⊎◌, inl, inr, Bool, true, false, ◌||◌, ◌==◌, if◌then◌else◌, Option, none,
  some, DashMap, insert, remove, arith, Option-cases, Bool-cases,
}
use pw_capture.Cursor.Wayland.State.{WlHandle}
use pw_capture.Cursor.Wayland.Snapshot.{Fetch, absent}
use pw_capture.Cursor.Info.{CursorSnapshot, WlManagers}
use pw_capture.Vulkan.Surfaces.Owned.{Managed, IsOwned, Reach, Reach-IsOwned, all_released}
use pw_capture.Vulkan.Surfaces.{Surfaces}
use pw_capture.Cursor.Xcb.{Server}

abbrev pub CursorManagers : Type 0
CursorManagers = DashMap WlHandle

unfoldable pub is_some {ℓ} : {A : Type ℓ} → Option A → Bool
is_some none = false
is_some (some a) = true

-- The interception, if it was loaded: its cursor manager for a display and a surface, and the
-- snapshot of a manager. `boxed` is the address that the allocator gives, by what is in the map.
module _ (intercept : Option (ℕ → ℕ → Option WlHandle))
    (snapshot : ℕ → WlHandle → Fetch CursorSnapshot) (boxed : CursorManagers → ℕ) where
  unfoldable pub manager_for : ℕ → ℕ → Option WlHandle
  manager_for display surface = elim intercept [ none ↦ none | some get ↦ get display surface ]

  unfoldable pub get_wl_cursor_manager : ℕ → ℕ → CursorManagers → CursorManagers × ℕ
  unfolding manager_for
  get_wl_cursor_manager display surface m =
      if display == 0 || surface == 0 then (m, 0) else elim (manager_for display surface) [
        | none ↦ (m, 0)
        | some w ↦ (insert (boxed m) w m, boxed m)
      ]

  unfoldable pub release_wl_cursor_manager : ℕ → CursorManagers → CursorManagers × Bool
  unfolding is_some
  release_wl_cursor_manager handle m =
      if handle == 0 then (m, false) else (remove handle m, is_some (m handle))

  unfoldable pub wl_cursor_snapshot : ℕ → ℕ → CursorManagers → Fetch CursorSnapshot
  wl_cursor_snapshot handle serial m = elim (m handle) [
    | none ↦ absent
    | some w ↦ if handle == 0 then absent else snapshot serial w
  ]

  abbrev pub gl_managers : WlManagers CursorManagers
  gl_managers = record {
    get_wl_cursor_manager = get_wl_cursor_manager;
    release_wl_cursor_manager = release_wl_cursor_manager;
    wl_cursor_snapshot = wl_cursor_snapshot;
  }

  -- What is in the map is live.
  unfoldable pub holds : CursorManagers → ℕ → Bool
  unfolding is_some
  holds m h = if h == 0 then false else is_some (m h)

  -- The allocator's address is not null and not in use.
  abbrev pub IsFree : CursorManagers → Type 0
  IsFree m = (boxed m ≢ 0) × (m (boxed m) ≡ none)

  get_cases :
      (display surface : ℕ) (m : CursorManagers)
      → (get_wl_cursor_manager display surface m ≡ (m, 0))
        ⊎ ((w : WlHandle) × (get_wl_cursor_manager display surface m
              ≡ (insert (boxed m) w m, boxed m)))
  unfolding get_wl_cursor_manager
  get_cases display surface m = elim (Bool-cases (display == 0 || surface == 0)) [
    | inl z ↦ inl (rw z refl)
    | inr z ↦ elim (Option-cases (manager_for display surface)) [
      | inl n ↦ inl (rw (z, n) refl)
      | inr (w, k) ↦ inr (w, rw (z, k) refl)
    ]
  ]

  holds-insert :
      (m : CursorManagers) (h i : ℕ) (w : WlHandle)
      → h ≢ 0
      → holds (insert h w m) i ≡ (if i == h then true else holds m i)
  unfolding holds
  holds-insert m h i w z = elim (Bool-cases (i == h)) [
    | inl e ↦
        let other : (i == 0) ≡ false = ground (arith, e, z) in rw (holds, other, insert, e) refl
    | inr e ↦ rw (holds, insert, e) refl
  ]

  holds-remove :
      (m : CursorManagers) (h i : ℕ) → holds (remove h m) i ≡ (if i == h then false else holds m i)
  unfolding holds
  holds-remove m h i = elim (Bool-cases (i == h)) [
    | inl e ↦
        rw (holds, remove, e) (elim (Bool-cases (i == 0)) [ inl z ↦ rw z refl | inr z ↦ rw z refl ])
    | inr e ↦ rw (holds, remove, e) refl
  ]

  gl_managers-Managed : Managed gl_managers holds IsFree
  unfolding holds release_wl_cursor_manager
  gl_managers-Managed = record {
    none_zero = λ m. refl;
    get_fresh = λ display surface m free. elim (get_cases display surface m) [
      | inl e ↦ rw e (inl (refl, λ i. refl))
      | inr (w, e) ↦ rw e (
          inr (free.0, rw (holds, free.1) (ground arith), λ i. holds-insert m (boxed m) i w free.0))
    ];
    release_one = λ handle m z i.
        let other : (handle == 0) ≡ false = ground (arith, z) in
        rw (release_wl_cursor_manager, other) (holds-remove m handle i);
  }

  not_held : (m : CursorManagers) (h : ℕ) → h ≢ 0 → holds m h ≡ false → m h ≡ none
  unfolding holds is_some
  not_held m h z e = elim (Option-cases (m h)) [
    | inl n ↦ n
    | inr (w, k) ↦ absurd (z (ground (arith, e, k)))
  ]

  -- In every state that creating and destroying surfaces leads to, each manager of a Wayland cursor
  -- that the OpenGL layer keeps belongs to exactly one surface of the Vulkan layer, and the handle
  -- of a surface is that of a manager that is kept; so when no surface is left, no manager is. The
  -- driver's surfaces are new, and a box gets an address that is not null and not in use.
  pub managers-IsOwned :
      (xcb : Server) (t : Surfaces CursorManagers)
      → Reach gl_managers xcb holds IsFree t
      → IsOwned holds t
        × (((i : ℕ) → t.surface_map i ≡ none) → (h : ℕ) → h ≢ 0 → t.managers h ≡ none)
  managers-IsOwned xcb t r =
      let owned = Reach-IsOwned gl_managers xcb holds IsFree gl_managers-Managed t r in
      (owned, λ all h z. not_held t.managers h z (all_released holds t owned all h z))
