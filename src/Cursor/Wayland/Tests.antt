-- ===== src/Cursor/Wayland/Tests.antt =====
-- Set-up, signatures and listeners on concrete inputs.
use pw_capture.Cursor.Tests.{tables, no_names}
use pw_capture.Common.{ℕ, ◌≡◌, refl, none, some, List, [], ◌∷◌, new_map}
use pw_capture.Cursor.Wayland.State.{WlIntercept}
use pw_capture.Cursor.Wayland.Collect.{collect_method}
use pw_capture.Cursor.Wayland.Listeners.{Interception}
use pw_capture.Cursor.Wayland.Listeners.Memory.{IsOwned}
use pw_capture.Cursor.Wayland.Listeners.Life.{adds, call, start, Reach-safe}

abbrev mapped_window : WlIntercept
mapped_window = collect_method no_names 12 "wl_compositor" "create_surface" (13 ∷ []) (
    collect_method no_names 11 "wl_registry" "bind" (0 ∷ 20 ∷ 0 ∷ 12 ∷ [])
      (collect_method no_names 10 "wl_display" "get_registry" (11 ∷ []) tables))

-- The event wl_pointer.leave, "uo".
abbrev leave_bytes : List ℕ
leave_bytes = 117 ∷ 111 ∷ []

abbrev no_listeners : Interception
no_listeners = record { tables = tables; listeners = new_map; heap = new_map }

Reach-safe_example :
    IsOwned no_listeners
    × ((st' : Interception) × (call no_names (adds 100 0 4 "wl_pointer" none 5) no_listeners
          ≡ some st'))
Reach-safe_example =
    Reach-safe no_names (adds 100 0 4 "wl_pointer" none 5) (start tables) (refl, (λ e. refl))
